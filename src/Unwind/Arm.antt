-- ===== src/Unwind/Arm.antt =====
-- minidump-unwind/src/arm.rs.
pub mod Progress
pub mod Ends
use rust_minidump.Base.{
  ℕ, ◌+◌, ◌-◌, ◌*◌, Bool, true, false, not, ◌&&◌, ◌||◌, Option, none, some, List, [], ◌∷◌, Bytes,
  text, nat_eq, ltb, leb, if◌then◌else◌, u32_mod, checked_add, ◌>>=◌,
}
use rust_minidump.Unwind.Contexts.{
  Names, no_names, with_name, MinidumpContextValidity, only, get_register,
}
use rust_minidump.Unwind.Contexts.Arm.{
  ArmRegister, ireg, ContextArm, arm_context, arm_register_is_valid,
}
use rust_minidump.Unwind.Frames.{
  FrameTrust, scan, frame_pointer, call_frame_info, StackFrame, Provider, from_context, scan_range,
  or_else, walked, instruction_seems_valid_by_symbols,
}
use rust_minidump.Unwind.Frames.Scan.{scan_from}
use rust_minidump.Unwind.Frames.Stack.{Arch, caller_by}

abbrev pub callee_saved_regs : List Bytes
callee_saved_regs =
    text "r4"
    ∷ text "r5"
    ∷ text "r6"
    ∷ text "r7"
    ∷ text "r8"
    ∷ text "r9"
    ∷ text "r10"
    ∷ text "fp"
    ∷ []

-- A caller's instruction is put two bytes before its return address.
abbrev pub arm_arch : Arch ContextArm
arm_arch = record { pc = λ c. c (ireg 15); sp = λ c. c (ireg 13); has_leaves = true; call_size = 2 }

-- The registers of a default context that are set.
abbrev pub context_of : ℕ → ℕ → ℕ → ContextArm
context_of program_counter stack_pointer frame_pointer' (ireg n) =
    if nat_eq n 15
    then program_counter
    else if nat_eq n 13
    then stack_pointer
    else if nat_eq n 11
    then frame_pointer'
    else 0

abbrev pub pc_and_sp : Names
pc_and_sp = with_name (text "r13") (with_name (text "r15") no_names)

abbrev pub with_fp : Names
with_fp = with_name (text "r13") (with_name (text "r11") (with_name (text "r15") no_names))

-- `is_ios` says whether the system's `os` is iOS.
module _ (is_ios : Bool) (p : Provider ContextArm) where
  open p use {get_memory_at_address}

  unfoldable pub get_caller_by_cfi :
      StackFrame ContextArm → Option (StackFrame ContextArm) → Option (StackFrame ContextArm)
  unfolding walked from_context get_register arm_register_is_valid
  get_caller_by_cfi callee grand_callee = do
    last_sp ← get_register arm_context callee.ctx (text "r13") callee.valid
    s ← walked p callee_saved_regs callee grand_callee
    some (
        from_context (s.caller_ctx (ireg 15)) s.caller_ctx (only s.caller_validity) call_frame_info)

  -- A frame pointer of 0 is meant to end the unwinding, by a stack pointer that does not grow.
  abbrev pub saved_registers : ℕ → ℕ → Option (ℕ × ℕ × ℕ)
  saved_registers last_fp last_sp = if nat_eq last_fp 0 then some (0, 0, last_sp) else (do
    caller_fp ← get_memory_at_address last_fp
    caller_pc ← get_memory_at_address (last_fp + 4)
    some (caller_fp, caller_pc, last_fp + 8))

  unfoldable pub get_caller_by_frame_pointer :
      StackFrame ContextArm → Option (StackFrame ContextArm)
  unfolding from_context get_register arm_register_is_valid
  get_caller_by_frame_pointer callee = if not is_ios then none else (do
    last_fp ← get_register arm_context callee.ctx (text "r11") callee.valid
    last_sp ← get_register arm_context callee.ctx (text "r13") callee.valid
    if leb (u32_mod - 1 - 8) last_fp then none else (do
      saved ← saved_registers last_fp last_sp
      some
          (from_context saved.1 (context_of saved.1 saved.2 saved.0) (only with_fp) frame_pointer)))

  unfoldable pub instruction_seems_valid : ℕ → Bool
  unfolding instruction_seems_valid_by_symbols
  instruction_seems_valid instruction = instruction_seems_valid_by_symbols p instruction

  abbrev pub scan_found : ℕ → ℕ → ℕ → Option (StackFrame ContextArm)
  scan_found i address_of_pc caller_pc = do
    caller_sp ← checked_add u32_mod address_of_pc 4
    some (from_context caller_pc (context_of caller_pc caller_sp 0) (only pc_and_sp) scan)

  unfoldable pub get_caller_by_scan : StackFrame ContextArm → Option (StackFrame ContextArm)
  unfolding scan_from instruction_seems_valid from_context get_register arm_register_is_valid
  get_caller_by_scan callee = do
    last_sp ← get_register arm_context callee.ctx (text "r13") callee.valid
    scan_from get_memory_at_address 4 u32_mod instruction_seems_valid scan_found last_sp
        (scan_range callee.trust) 0

  abbrev pub find_caller :
      StackFrame ContextArm → Option (StackFrame ContextArm) → Option (StackFrame ContextArm)
  find_caller callee grand_callee =
      or_else (get_caller_by_cfi callee grand_callee)
        (or_else (get_caller_by_frame_pointer callee) (get_caller_by_scan callee))

  unfoldable pub get_caller_frame :
      StackFrame ContextArm → Option (StackFrame ContextArm) → Option (StackFrame ContextArm)
  unfolding caller_by get_caller_by_cfi get_caller_by_frame_pointer get_caller_by_scan
  get_caller_frame callee grand_callee = caller_by arm_arch find_caller callee grand_callee
