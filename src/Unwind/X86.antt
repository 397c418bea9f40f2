-- ===== src/Unwind/X86.antt =====
-- minidump-unwind/src/x86.rs: the three ways to find the caller of a frame.
pub mod Progress
pub mod Ends
pub mod Scans
use rust_minidump.Base.{
  ℕ, zero, suc, ◌+◌, ◌-◌, ◌*◌, Bool, true, false, not, ◌&&◌, ◌||◌, Option, none, some, List, [],
  ◌∷◌, Bytes, text, bytes_eq, nat_eq, ltb, leb, if◌then◌else◌, length, get_elem?, u32_mod, u64_mod,
  checked_add, ◌>>=◌,
}
use rust_minidump.Unwind.Contexts.{
  X86Register, eip, esp, ebp, ebx, esi, edi, ContextX86, put, Names, no_names, with_name,
  MinidumpContextValidity, all, only, is_some,
}
use rust_minidump.Unwind.Walker.{CfiStackWalker}
use rust_minidump.Unwind.Frames.{
  FrameTrust, scan, frame_pointer, call_frame_info, StackFrame, Provider, from_context,
  has_register, scan_range, or_else, walked, instruction_seems_valid_by_symbols,
}
use rust_minidump.Unwind.Frames.Scan.{scan_from}
use rust_minidump.Unwind.Frames.Stack.{Arch, caller_by}

abbrev pub callee_saved_regs : List Bytes
callee_saved_regs = text "ebp" ∷ text "ebx" ∷ text "edi" ∷ text "esi" ∷ []

-- `CONTEXT_X86 { eip, esp, ebp, ..default() }`
abbrev pub context_of : ℕ → ℕ → ℕ → ContextX86
context_of ip sp bp eip = ip
context_of ip sp bp esp = sp
context_of ip sp bp ebp = bp
context_of ip sp bp _ = 0

abbrev pub ip_and_sp : Names
ip_and_sp = with_name (text "esp") (with_name (text "eip") no_names)

-- A caller's instruction is put one byte before its return address.
abbrev pub x86_arch : Arch ContextX86
x86_arch = record { pc = λ c. c eip; sp = λ c. c esp; has_leaves = false; call_size = 1 }

module _ (p : Provider ContextX86) where
  open p use {get_memory_at_address}

  unfoldable pub get_caller_by_cfi :
      StackFrame ContextX86 → Option (StackFrame ContextX86) → Option (StackFrame ContextX86)
  unfolding walked from_context
  get_caller_by_cfi callee grand_callee =
      if has_register (text "esp") callee.valid
      then (do
        s ← walked p callee_saved_regs callee grand_callee
        some
            (from_context (s.caller_ctx eip) s.caller_ctx (only s.caller_validity) call_frame_info))
      else none

  unfoldable pub get_caller_by_frame_pointer :
      StackFrame ContextX86 → Option (StackFrame ContextX86)
  unfolding from_context
  get_caller_by_frame_pointer callee =
      if has_register (text "ebp") callee.valid && ltb (callee.ctx ebp) (u32_mod - 1 - 8)
      then (do
        caller_ip ← get_memory_at_address (callee.ctx ebp + 4)
        caller_bp ← get_memory_at_address (callee.ctx ebp)
        some (
            from_context caller_ip (context_of caller_ip (callee.ctx ebp + 8) caller_bp)
              (only (with_name (text "ebp") ip_and_sp)) frame_pointer))
      else none

  unfoldable pub instruction_seems_valid : ℕ → Bool
  unfolding instruction_seems_valid_by_symbols
  instruction_seems_valid instruction =
      if nat_eq instruction 0 then false else instruction_seems_valid_by_symbols p instruction

  -- A frame pointer must point into the stack.
  abbrev pub in_stack : ℕ → Option ℕ
  in_stack bp = if is_some (get_memory_at_address bp) then some bp else none

  abbrev pub kept_bp : Option ℕ → ℕ → Option ℕ
  kept_bp none caller_sp = none
  kept_bp (some last_bp) caller_sp = if leb caller_sp last_bp then in_stack last_bp else none

  -- The frame pointer that was pushed before the return address, or that the callee kept. The
  -- outer `none` ends the scan.
  unfoldable pub guess_bp : Option ℕ → ℕ → ℕ → ℕ → Option (Option ℕ)
  guess_bp last_bp i address_of_ip caller_sp = if nat_eq i 0 then some none else (do
    bp ← get_memory_at_address (address_of_ip - 4)
    some (
        if ltb address_of_ip bp && leb (bp - (address_of_ip - 4)) (128 * 1024)
        then in_stack bp
        else kept_bp last_bp caller_sp))

  abbrev pub scanned_frame : ℕ → ℕ → Option ℕ → StackFrame ContextX86
  scanned_frame caller_ip caller_sp none =
      from_context caller_ip (context_of caller_ip caller_sp 0) (only ip_and_sp) scan
  scanned_frame caller_ip caller_sp (some bp) =
      from_context caller_ip (context_of caller_ip caller_sp bp)
        (only (with_name (text "ebp") ip_and_sp)) scan

  abbrev pub scan_found : Option ℕ → ℕ → ℕ → ℕ → Option (StackFrame ContextX86)
  scan_found last_bp i address_of_ip caller_ip = do
    caller_sp ← checked_add u32_mod address_of_ip 4
    caller_bp ← guess_bp last_bp i address_of_ip caller_sp
    some (scanned_frame caller_ip caller_sp caller_bp)

  -- `last_bp` is the callee's frame pointer, if it is valid.
  abbrev pub last_bp_of : StackFrame ContextX86 → Option ℕ
  last_bp_of callee = if has_register (text "ebp") callee.valid then some (callee.ctx ebp) else none

  unfoldable pub get_caller_by_scan : StackFrame ContextX86 → Option (StackFrame ContextX86)
  unfolding scan_from guess_bp instruction_seems_valid
  get_caller_by_scan callee =
      if has_register (text "esp") callee.valid
      then scan_from get_memory_at_address 4 u32_mod instruction_seems_valid
          (scan_found (last_bp_of callee)) (callee.ctx esp) (scan_range callee.trust) 0
      else none

  -- The three ways, in order.
  abbrev pub find_caller :
      StackFrame ContextX86 → Option (StackFrame ContextX86) → Option (StackFrame ContextX86)
  find_caller callee grand_callee =
      or_else (get_caller_by_cfi callee grand_callee)
        (or_else (get_caller_by_frame_pointer callee) (get_caller_by_scan callee))

  unfoldable pub get_caller_frame :
      StackFrame ContextX86 → Option (StackFrame ContextX86) → Option (StackFrame ContextX86)
  unfolding caller_by get_caller_by_cfi get_caller_by_frame_pointer get_caller_by_scan
  get_caller_frame callee grand_callee = caller_by x86_arch find_caller callee grand_callee
