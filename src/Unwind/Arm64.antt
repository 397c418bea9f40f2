-- ===== src/Unwind/Arm64.antt =====
-- minidump-unwind/src/arm64.rs, and arm64_old.rs, which differs in the names of its types.
pub mod Progress
pub mod Ends
pub mod Forwarded
pub mod PtrAuth
use rust_minidump.Base.{
  ℕ, ◌+◌, zero, suc, ◌-◌, ◌*◌, ◌%◌, ◌^◌, Bool, true, false, not, ◌&&◌, ◌||◌, Option, none, some,
  List, [], ◌∷◌, Bytes, text, nat_eq, ltb, leb, if◌then◌else◌, min, max, u64_mod, checked_add,
  ◌>>=◌,
}
use rust_minidump.Unwind.Contexts.{
  Names, no_names, with_name, MinidumpContextValidity, only, get_register,
}
use rust_minidump.Unwind.Contexts.Arm64.{
  Arm64Register, xreg, sp, pc, arm64_index, ContextArm64, arm64_context, arm64_register_is_valid,
}
use rust_minidump.Unwind.Contexts.Fields.{put_field}
use rust_minidump.Unwind.Frames.{
  FrameTrust, scan, frame_pointer, call_frame_info, StackFrame, Provider, from_context, scan_range,
  or_else, walked, instruction_seems_valid_by_symbols,
}
use rust_minidump.Unwind.Frames.Scan.{scan_from}
use rust_minidump.Unwind.Frames.Stack.{Arch, caller_by}

abbrev pub callee_saved_regs : List Bytes
callee_saved_regs =
    text "x19"
    ∷ text "x20"
    ∷ text "x21"
    ∷ text "x22"
    ∷ text "x23"
    ∷ text "x24"
    ∷ text "x25"
    ∷ text "x26"
    ∷ text "x27"
    ∷ text "x28"
    ∷ text "fp"
    ∷ []

abbrev pub arm64_arch : Arch ContextArm64
arm64_arch = record { pc = λ c. c pc; sp = λ c. c sp; has_leaves = true; call_size = 4 }

-- Within the first page or beyond user space.
unfoldable pub is_non_canonical : ℕ → Bool
is_non_canonical instruction = not (leb 0x1000 instruction && leb instruction 0x000fffffffffffff)

-- `n.checked_next_power_of_two()` at 64 bits, by the powers from `2 ^ k` on.
unfoldable pub next_power_from : ℕ → ℕ → ℕ → Option ℕ
next_power_from zero k n = none
next_power_from (suc rounds) k n =
    let rest = next_power_from rounds (k + 1) n in if leb n (2 ^ k) then some (2 ^ k) else rest

-- `ptr & (high_bit - 1)`; without a high bit the mask is all ones.
abbrev pub masked : Option ℕ → ℕ → ℕ
masked none ptr = ptr
masked (some high_bit) ptr = ptr % high_bit

-- The end of the last module by address, of which the base address and the size are given, or 0.
unfoldable pub max_module_addr : Option (ℕ × ℕ) → ℕ
max_module_addr none = 0
max_module_addr (some (base_address, size)) = min (base_address + size) (u64_mod - 1)

unfoldable pub ptr_auth_strip : Option (ℕ × ℕ) → ℕ → ℕ
unfolding next_power_from max_module_addr
ptr_auth_strip last_module ptr =
    masked (next_power_from 64 0 (max (2 ^ 47 - 1) (max_module_addr last_module))) ptr

-- The registers of a default context that are set.
abbrev pub context_of : ℕ → ℕ → ℕ → ContextArm64
context_of program_counter stack_pointer frame_pointer' pc = program_counter
context_of program_counter stack_pointer frame_pointer' sp = stack_pointer
context_of program_counter stack_pointer frame_pointer' (xreg n) =
    if nat_eq n 29 then frame_pointer' else 0

abbrev pub pc_and_sp : Names
pc_and_sp = with_name (text "sp") (with_name (text "pc") no_names)

abbrev pub with_fp : Names
with_fp = with_name (text "sp") (with_name (text "x29") (with_name (text "pc") no_names))

-- `last_module` is the base address and the size of the last module by address.
module _ (last_module : Option (ℕ × ℕ)) (p : Provider ContextArm64) where
  open p use {get_memory_at_address}

  -- A register that is valid under its name is stripped.
  abbrev pub stripped_by : Option ℕ → Arm64Register → ContextArm64 → ContextArm64
  stripped_by none r ctx = ctx
  stripped_by (some v) r ctx = put_field arm64_index r (ptr_auth_strip last_module v) ctx

  abbrev pub strip_register :
      Bytes → Arm64Register → MinidumpContextValidity → ContextArm64 → ContextArm64
  strip_register name r valid ctx = stripped_by (get_register arm64_context ctx name valid) r ctx

  -- The program counter, the link register and the frame pointer, in this order.
  unfoldable pub stripped : MinidumpContextValidity → ContextArm64 → ContextArm64
  unfolding ptr_auth_strip get_register arm64_register_is_valid
  stripped valid ctx = strip_register (text "x29") (xreg 29) valid (
      strip_register (text "x30") (xreg 30) valid
        (put_field arm64_index pc (ptr_auth_strip last_module (ctx pc)) ctx))

  abbrev pub cfi_frame : ContextArm64 → MinidumpContextValidity → StackFrame ContextArm64
  cfi_frame ctx valid = from_context (ctx pc) ctx valid call_frame_info

  unfoldable pub get_caller_by_cfi :
      StackFrame ContextArm64 → Option (StackFrame ContextArm64) → Option (StackFrame ContextArm64)
  unfolding walked from_context stripped get_register arm64_register_is_valid
  get_caller_by_cfi callee grand_callee = do
    last_sp ← get_register arm64_context callee.ctx (text "sp") callee.valid
    s ← walked p callee_saved_regs callee grand_callee
    some (cfi_frame (stripped (only s.caller_validity) s.caller_ctx) (only s.caller_validity))

  -- A frame pointer of 0 is meant to end the unwinding, by a stack pointer that does not grow.
  abbrev pub saved_registers : ℕ → ℕ → Option (ℕ × ℕ × ℕ)
  saved_registers last_fp last_sp = if nat_eq last_fp 0 then some (0, 0, last_sp) else (do
    caller_fp ← get_memory_at_address last_fp
    caller_pc ← get_memory_at_address (last_fp + 8)
    some (caller_fp, caller_pc, last_fp + 16))

  abbrev pub canonical_frame : ℕ → ℕ → ℕ → Option (StackFrame ContextArm64)
  canonical_frame caller_fp caller_pc caller_sp =
      if is_non_canonical caller_pc
      then none
      else some (
          from_context caller_pc (context_of caller_pc caller_sp caller_fp) (only with_fp)
            frame_pointer)

  unfoldable pub get_caller_by_frame_pointer :
      StackFrame ContextArm64 → Option (StackFrame ContextArm64)
  unfolding from_context get_register arm64_register_is_valid is_non_canonical ptr_auth_strip
  get_caller_by_frame_pointer callee = do
    last_fp ← get_register arm64_context callee.ctx (text "x29") callee.valid
    last_sp ← get_register arm64_context callee.ctx (text "sp") callee.valid
    if leb (u64_mod - 1 - 16) last_fp then none else (do
      saved ← saved_registers last_fp last_sp
      canonical_frame (ptr_auth_strip last_module saved.0) (ptr_auth_strip last_module saved.1)
          saved.2)

  unfoldable pub instruction_seems_valid : ℕ → Bool
  unfolding is_non_canonical instruction_seems_valid_by_symbols
  instruction_seems_valid instruction =
      if is_non_canonical instruction || nat_eq instruction 0
      then false
      else instruction_seems_valid_by_symbols p instruction

  abbrev pub scan_found : ℕ → ℕ → ℕ → Option (StackFrame ContextArm64)
  scan_found i address_of_pc caller_pc = do
    caller_sp ← checked_add u64_mod address_of_pc 8
    some (from_context caller_pc (context_of caller_pc caller_sp 0) (only pc_and_sp) scan)

  unfoldable pub get_caller_by_scan : StackFrame ContextArm64 → Option (StackFrame ContextArm64)
  unfolding scan_from instruction_seems_valid from_context get_register arm64_register_is_valid
  get_caller_by_scan callee = do
    last_sp ← get_register arm64_context callee.ctx (text "sp") callee.valid
    scan_from get_memory_at_address 8 u64_mod instruction_seems_valid scan_found last_sp
        (scan_range callee.trust) 0

  abbrev pub find_caller :
      StackFrame ContextArm64 → Option (StackFrame ContextArm64) → Option (StackFrame ContextArm64)
  find_caller callee grand_callee =
      or_else (get_caller_by_cfi callee grand_callee)
        (or_else (get_caller_by_frame_pointer callee) (get_caller_by_scan callee))

  unfoldable pub get_caller_frame :
      StackFrame ContextArm64 → Option (StackFrame ContextArm64) → Option (StackFrame ContextArm64)
  unfolding caller_by get_caller_by_cfi get_caller_by_frame_pointer get_caller_by_scan
  get_caller_frame callee grand_callee = caller_by arm64_arch find_caller callee grand_callee
