-- ===== src/Unwind/Amd64.antt =====
-- minidump-unwind/src/amd64.rs: the three ways to find the caller of a frame.
pub mod Progress
pub mod Ends
pub mod Scans
use rust_minidump.Base.{
  ℕ, ◌+◌, ◌-◌, ◌*◌, Bool, true, false, not, ◌&&◌, ◌||◌, Option, none, some, List, [], ◌∷◌, Bytes,
  text, nat_eq, ltb, leb, if◌then◌else◌, u64_mod, checked_add, ◌>>=◌,
}
use rust_minidump.Unwind.Contexts.{Names, no_names, with_name, only, is_some}
use rust_minidump.Unwind.Contexts.Amd64.{Amd64Register, rip, rsp, rbp, ContextAmd64}
use rust_minidump.Unwind.Frames.{
  FrameTrust, scan, frame_pointer, call_frame_info, StackFrame, Provider, from_context,
  has_register, scan_range, or_else, walked, instruction_seems_valid_by_symbols,
}
use rust_minidump.Unwind.Frames.Scan.{scan_from}
use rust_minidump.Unwind.Frames.Stack.{Arch, caller_by}

abbrev pub callee_saved_regs : List Bytes
callee_saved_regs = text "rbx" ∷ text "rbp" ∷ text "r12" ∷ text "r13" ∷ text "r14" ∷ text "r15" ∷ []

-- `CONTEXT_AMD64 { rip, rsp, rbp, ..default() }`
abbrev pub context_of : ℕ → ℕ → ℕ → ContextAmd64
context_of ip sp bp rip = ip
context_of ip sp bp rsp = sp
context_of ip sp bp rbp = bp
context_of ip sp bp _ = 0

abbrev pub ip_and_sp : Names
ip_and_sp = with_name (text "rsp") (with_name (text "rip") no_names)

abbrev pub amd64_arch : Arch ContextAmd64
amd64_arch = record { pc = λ c. c rip; sp = λ c. c rsp; has_leaves = false; call_size = 1 }

-- Not a copy of bit 47 in the bits above it.
unfoldable pub is_non_canonical : ℕ → Bool
is_non_canonical ptr = ltb 0x7fffffffffff ptr && ltb ptr 0xffff800000000000

-- `is_windows` says whether the system's `os` is Windows.
module _ (is_windows : Bool) (p : Provider ContextAmd64) where
  open p use {get_memory_at_address}

  unfoldable pub get_caller_by_cfi :
      StackFrame ContextAmd64 → Option (StackFrame ContextAmd64) → Option (StackFrame ContextAmd64)
  unfolding walked from_context
  get_caller_by_cfi callee grand_callee =
      if has_register (text "rsp") callee.valid
      then (do
        s ← walked p callee_saved_regs callee grand_callee
        some
            (from_context (s.caller_ctx rip) s.caller_ctx (only s.caller_validity) call_frame_info))
      else none

  -- The stack pointer moves up and stays inside the stack.
  unfoldable pub stack_seems_valid : ℕ → ℕ → Bool
  stack_seems_valid caller_sp callee_sp =
      if leb caller_sp callee_sp then false else is_some (get_memory_at_address caller_sp)

  -- The checks on what the frame pointer leads to.
  unfoldable pub frame_pointer_frame : ℕ → ℕ → ℕ → ℕ → ℕ → Option (StackFrame ContextAmd64)
  unfolding from_context is_non_canonical stack_seems_valid
  frame_pointer_frame last_bp last_sp caller_ip caller_bp caller_sp =
      if leb caller_sp last_bp || ltb caller_bp caller_sp then none else (do
        unused ← get_memory_at_address caller_bp
        if is_non_canonical caller_ip
            then none
            else if not (stack_seems_valid caller_sp last_sp)
            then none
            else some (
                from_context caller_ip (context_of caller_ip caller_sp caller_bp)
                  (only (with_name (text "rbp") ip_and_sp)) frame_pointer))

  abbrev pub has_frame_registers : StackFrame ContextAmd64 → Bool
  has_frame_registers callee =
      has_register (text "rbp") callee.valid && has_register (text "rsp") callee.valid

  unfoldable pub get_caller_by_frame_pointer :
      StackFrame ContextAmd64 → Option (StackFrame ContextAmd64)
  unfolding frame_pointer_frame
  get_caller_by_frame_pointer callee =
      if not is_windows && (has_frame_registers callee && ltb (callee.ctx rbp) (u64_mod - 1 - 16))
      then (do
        caller_ip ← get_memory_at_address (callee.ctx rbp + 8)
        caller_bp ← get_memory_at_address (callee.ctx rbp)
        frame_pointer_frame (callee.ctx rbp) (callee.ctx rsp) caller_ip caller_bp
            (callee.ctx rbp + 16))
      else none

  unfoldable pub instruction_seems_valid : ℕ → Bool
  unfolding is_non_canonical instruction_seems_valid_by_symbols
  instruction_seems_valid instruction =
      if is_non_canonical instruction || nat_eq instruction 0
      then false
      else instruction_seems_valid_by_symbols p instruction

  -- The callee's frame pointer, where it points next to the return address, leads to the caller's;
  -- else it is the caller's own, if it lies above. The outer `none` ends the scan.
  unfoldable pub guess_bp : Option ℕ → ℕ → ℕ → ℕ → Option (Option ℕ)
  guess_bp none i address_of_ip caller_sp = some none
  guess_bp (some last_bp) i address_of_ip caller_sp = if nat_eq i 0 then some none else (do
    bp ← get_memory_at_address (address_of_ip - 8)
    some (
        if nat_eq last_bp (address_of_ip - 8)
          && (ltb address_of_ip bp && leb (bp - (address_of_ip - 8)) (128 * 1024))
        then if is_some (get_memory_at_address bp) then some bp else none
        else if leb caller_sp last_bp
        then some last_bp
        else none))

  abbrev pub scanned_frame : ℕ → ℕ → Option ℕ → StackFrame ContextAmd64
  scanned_frame caller_ip caller_sp none =
      from_context caller_ip (context_of caller_ip caller_sp 0) (only ip_and_sp) scan
  scanned_frame caller_ip caller_sp (some bp) =
      from_context caller_ip (context_of caller_ip caller_sp bp)
        (only (with_name (text "rbp") ip_and_sp)) scan

  abbrev pub scan_found : Option ℕ → ℕ → ℕ → ℕ → Option (StackFrame ContextAmd64)
  scan_found last_bp i address_of_ip caller_ip = do
    caller_sp ← checked_add u64_mod address_of_ip 8
    caller_bp ← guess_bp last_bp i address_of_ip caller_sp
    some (scanned_frame caller_ip caller_sp caller_bp)

  abbrev pub last_bp_of : StackFrame ContextAmd64 → Option ℕ
  last_bp_of callee = if has_register (text "rbp") callee.valid then some (callee.ctx rbp) else none

  unfoldable pub get_caller_by_scan : StackFrame ContextAmd64 → Option (StackFrame ContextAmd64)
  unfolding scan_from guess_bp instruction_seems_valid from_context
  get_caller_by_scan callee =
      if has_register (text "rsp") callee.valid
      then scan_from get_memory_at_address 8 u64_mod instruction_seems_valid
          (scan_found (last_bp_of callee)) (callee.ctx rsp) (scan_range callee.trust) 0
      else none

  abbrev pub find_caller :
      StackFrame ContextAmd64 → Option (StackFrame ContextAmd64) → Option (StackFrame ContextAmd64)
  find_caller callee grand_callee =
      or_else (get_caller_by_cfi callee grand_callee)
        (or_else (get_caller_by_frame_pointer callee) (get_caller_by_scan callee))

  unfoldable pub get_caller_frame :
      StackFrame ContextAmd64 → Option (StackFrame ContextAmd64) → Option (StackFrame ContextAmd64)
  unfolding caller_by get_caller_by_cfi get_caller_by_frame_pointer get_caller_by_scan
  get_caller_frame callee grand_callee = caller_by amd64_arch find_caller callee grand_callee
