-- ===== src/SymFile/FrameWalker.antt =====
-- breakpad-symbols/src/lib.rs: the trait `FrameWalker`, over the state `S` of an implementation.
use rust_minidump.Base.{ℕ, Bool, Option, Bytes}

pub record FrameWalker (S : Type 0) : Type 0 where
  pub get_instruction : S → ℕ
  pub has_grand_callee : S → Bool
  pub get_grand_callee_parameter_size : S → ℕ
  pub get_register_at_address : S → ℕ → Option ℕ
  pub get_callee_register : S → Bytes → Option ℕ
  -- a method that fails may have changed the state
  pub set_caller_register : Bytes → ℕ → S → Option (Unit {0}) × S
  pub clear_caller_register : Bytes → S → S
  pub set_cfa : ℕ → S → Option (Unit {0}) × S
  pub set_ra : ℕ → S → Option (Unit {0}) × S
