-- ===== src/Unwind/Frames.antt =====
-- minidump-unwind/src/lib.rs: stack frames, and what the unwinders of all architectures share. `C` is
-- the context of the architecture.
pub mod Scan
pub mod Stack
pub mod Progress
pub mod Ends
pub mod Leaves
use rust_minidump.Base.{
  ℕ, zero, suc, ◌+◌, ◌-◌, ◌*◌, Bool, true, false, ◌&&◌, Option, none, some, List, [], ◌∷◌, Bytes,
  bytes_eq, nat_eq, if◌then◌else◌, ◌>>=◌, ◌||◌,
}
use rust_minidump.Unwind.Contexts.{Names, MinidumpContextValidity, all, only, is_some}
use rust_minidump.Unwind.Walker.{CfiStackWalker}

pub data FrameTrust : Type 0 where
  unknown scan cfi_scan frame_pointer call_frame_info pre_walked context : FrameTrust

-- The fields that unwinding reads or sets. `parameter_size` is set by symbolication.
pub record StackFrame (C : Type 0) : Type 0 where
  pub instruction : ℕ
  pub resume_address : ℕ
  pub parameter_size : Option ℕ
  pub trust : FrameTrust
  pub ctx : C
  pub valid : MinidumpContextValidity

-- `instruction_pointer` is the context's own.
unfoldable pub from_context :
    {C : Type 0} → ℕ → C → MinidumpContextValidity → FrameTrust → StackFrame C
from_context instruction_pointer ctx valid trust = record {
  instruction = instruction_pointer;
  resume_address = instruction_pointer;
  parameter_size = none;
  trust = trust;
  ctx = ctx;
  valid = valid;
}

-- What unwinding is given: the stack memory, by words as wide as a register, the modules, and the
-- symbol provider, whose `fill_symbol` tells whether it sets a name (`none` for an error).
pub record Provider (C : Type 0) : Type 1 where
  pub Module : Type 0
  pub module_at_address : ℕ → Option Module
  pub get_memory_at_address : ℕ → Option ℕ
  pub walk_frame : Module → CfiStackWalker C → Option (CfiStackWalker C)
  pub fill_symbol_name : Module → ℕ → Option Bool
  pub fill_symbol : Module → StackFrame C → StackFrame C

abbrev pub contains : Bytes → List Bytes → Bool
contains name [] = false
contains name (x ∷ xs) = bytes_eq x name || contains name xs

-- The callee-saved registers, as far as they are valid.
unfoldable pub callee_forwarded_regs : List Bytes → MinidumpContextValidity → Names
callee_forwarded_regs saved all = λ reg. contains reg saved
callee_forwarded_regs saved (only which) = λ reg. contains reg saved && which reg

-- `valid` is everything, or holds the name.
abbrev pub has_register : Bytes → MinidumpContextValidity → Bool
has_register reg all = true
has_register reg (only which) = which reg

abbrev pub default_scan_range : ℕ
default_scan_range = 40

abbrev pub scan_range : FrameTrust → ℕ
scan_range context = default_scan_range * 4
scan_range _ = default_scan_range

module _ {C : Type 0} where
  abbrev pub size_or_zero : Option (StackFrame C) → ℕ
  size_or_zero none = 0
  size_or_zero (some f) = elim f.parameter_size [ none ↦ 0 | some n ↦ n ]

  abbrev pub or_else : Option (StackFrame C) → Option (StackFrame C) → Option (StackFrame C)
  or_else (some f) other = some f
  or_else none other = other

module _ {C : Type 0} (p : Provider C) where
  open p use {Module, module_at_address, walk_frame, fill_symbol_name}

  -- The frame that the unwinding starts from, and the one before it.
  unfoldable pub from_ctx_and_args :
      List Bytes → StackFrame C → Option (StackFrame C) → Option (Module × CfiStackWalker C)
  unfolding callee_forwarded_regs
  from_ctx_and_args saved callee grand_callee = do
    module' ← module_at_address callee.instruction
    some (
      module',
      record {
        instruction = callee.instruction;
        has_grand_callee = is_some grand_callee;
        grand_callee_parameter_size = size_or_zero grand_callee;
        callee_ctx = callee.ctx;
        callee_validity = callee.valid;
        caller_ctx = callee.ctx;
        caller_validity = callee_forwarded_regs saved callee.valid;
      },
    )

  -- The walk from the callee, and the walker that it leaves.
  unfoldable pub walked :
      List Bytes → StackFrame C → Option (StackFrame C) → Option (CfiStackWalker C)
  unfolding from_ctx_and_args
  walked saved callee grand_callee = do
    start ← from_ctx_and_args saved callee grand_callee
    walk_frame start.0 start.1

  abbrev pub seems_named : ℕ → Option Module → Bool
  seems_named instruction none = false
  seems_named instruction (some m) = elim (fill_symbol_name m instruction) [
    | some has_name ↦ has_name
    | none ↦ true
  ]

  unfoldable pub instruction_seems_valid_by_symbols : ℕ → Bool
  instruction_seems_valid_by_symbols instruction =
      if nat_eq (instruction - 1) 0
      then false
      else seems_named (instruction - 1) (module_at_address (instruction - 1))
