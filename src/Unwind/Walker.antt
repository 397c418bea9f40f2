-- ===== src/Unwind/Walker.antt =====
-- minidump-unwind/src/lib.rs: CfiStackWalker, the walker of a real frame.
pub mod Cleared
pub mod Effects
pub mod Independent
use rust_minidump.Base.{
  ℕ, Bool, true, false, Option, none, some, Bytes, text, ltb, if◌then◌else◌, u32_mod, ◌>>=◌,
}
use rust_minidump.SymFile.FrameWalker.{FrameWalker}
use rust_minidump.Unwind.Contexts.{
  ContextX86, Names, with_name, without_name, MinidumpContextValidity, CpuContext, get_register,
  x86_context, set_register, memoize_register, register_is_valid, get_register_always,
}

-- The module, which only the caller of the walk reads, and the stack memory are left out.
pub record CfiStackWalker (C : Type 0) : Type 0 where
  pub instruction : ℕ
  pub has_grand_callee : Bool
  pub grand_callee_parameter_size : ℕ
  pub callee_ctx : C
  pub callee_validity : MinidumpContextValidity
  pub caller_ctx : C
  pub caller_validity : Names

module _ {C : Type 0} (cpu : CpuContext C) where
  -- `C::Register::try_from`
  abbrev pub register_from : ℕ → Option ℕ
  register_from val = if ltb val cpu.register_mod then some val else none

  -- `self.caller_ctx.set_register(reg, val)`
  abbrev pub written : CfiStackWalker C → Option C → Option (Unit {0}) × CfiStackWalker C
  written s (some ctx) = (some tt, record s { caller_ctx = ctx })
  written s none = (none, s)

  abbrev pub write_register : Bytes → ℕ → CfiStackWalker C → Option (Unit {0}) × CfiStackWalker C
  write_register reg val s = written s (cpu.write reg val s.caller_ctx)

  -- A value that does not fit a register is refused before anything is changed.
  abbrev pub set_converted :
      Bytes → Option ℕ → CfiStackWalker C → Option (Unit {0}) × CfiStackWalker C
  set_converted name none s = (none, s)
  set_converted name (some v) s =
      write_register name v (record s { caller_validity = with_name name s.caller_validity })

  unfoldable pub set_named : Bytes → ℕ → CfiStackWalker C → Option (Unit {0}) × CfiStackWalker C
  set_named name val s = set_converted name (register_from val) s

  abbrev pub set_memoized :
      Option Bytes → ℕ → CfiStackWalker C → Option (Unit {0}) × CfiStackWalker C
  set_memoized none val s = (none, s)
  set_memoized (some memoized) val s = set_named memoized val s

  unfoldable pub set_caller_register :
      Bytes → ℕ → CfiStackWalker C → Option (Unit {0}) × CfiStackWalker C
  unfolding set_named
  set_caller_register name val s = set_memoized (cpu.memoize name) val s

  unfoldable pub clear_caller_register : Bytes → CfiStackWalker C → CfiStackWalker C
  clear_caller_register name s = record s { caller_validity = without_name name s.caller_validity }

  -- `get_memory_at_address` reads a word of the stack, as wide as a register. A valid name is a
  -- register's, so that `get_register` does not reach the `none` of an unknown register.
  unfoldable pub cfi_stack_walker : (ℕ → Option ℕ) → FrameWalker (CfiStackWalker C)
  unfolding set_caller_register clear_caller_register set_named get_register
  cfi_stack_walker get_memory_at_address = record {
    get_instruction = λ s. s.instruction;
    has_grand_callee = λ s. s.has_grand_callee;
    get_grand_callee_parameter_size = λ s. s.grand_callee_parameter_size;
    get_register_at_address = λ s address. get_memory_at_address address;
    get_callee_register = λ s name. get_register cpu s.callee_ctx name s.callee_validity;
    set_caller_register = set_caller_register;
    clear_caller_register = clear_caller_register;
    set_cfa = λ val s. set_named cpu.stack_pointer_register_name val s;
    set_ra = λ val s. set_named cpu.instruction_pointer_register_name val s;
  }

-- The walker of 32-bit x86 frames.
unfoldable pub x86_walker : (ℕ → Option ℕ) → FrameWalker (CfiStackWalker ContextX86)
unfolding cfi_stack_walker set_register memoize_register register_is_valid get_register_always
x86_walker get_memory_at_address = cfi_stack_walker x86_context get_memory_at_address
