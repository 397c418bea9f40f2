-- ===== src/SymFile/Queries/Keeps.antt =====
-- What every method of a walker keeps, a walk keeps.
pub mod Cfi
pub mod Win
pub mod Frames
use rust_minidump.Base.{
  ℕ, ◌-◌, Bool, true, false, Option, none, some, List, [], ◌∷◌, Bytes, HashMap, Bytes-PartialEq,
  get, remove, ltb, nat_eq, if◌then◌else◌, u64_mod, text, not, Bool-cases, inl, inr,
}
use rust_minidump.Ranges.{RangeCrate}
use rust_minidump.SymFile.FrameWalker.{FrameWalker}
use rust_minidump.SymFile.Types.{
  CfiRules, StackInfoCfi, StackInfoWin, WinStackThing, program_string, allocates_base_pointer,
  SymbolFile,
}
use rust_minidump.SymFile.Cfi.{eval_cfi_expr}
use rust_minidump.SymFile.Cfi.Rules.{CfiReg, cfa, ra, other, CfiReg-PartialEq}
use rust_minidump.SymFile.Cfi.Walk.{
  Outcome, done, failed, panicked, need, proceed, emit, emit_value, emit_all, parse_lines,
  walk_with_exprs, walk_with_stack_cfi,
}
use rust_minidump.SymFile.Tokens.{words}
use rust_minidump.SymFile.Win.{Vars, win_tokens, win_loop}
use rust_minidump.SymFile.Win.Walks.{
  unless_panic, low_half, plain_add, plain_sub, win_frame_size, search_start_of, initial_vars,
  tail_of, output_regs, emit_vars, eval_win_expr, clear_all, clear_stack_win_caller_registers,
  walk_with_stack_win_framedata, return_slot, forward_ebx, caller_frame, eval_fpo,
  walk_with_stack_win_fpo,
}
use rust_minidump.SymFile.Queries.{or_else_walk, rules_until, walk_win, walk_cfi, walk_frame}

module _ {S : Type 0} (P : S → Type 0) where
  -- However a walk ends, its state has the property.
  abbrev pub Keeps : Outcome S → Type 0
  Keeps (done s) = P s
  Keeps (failed s) = P s
  Keeps panicked = Unit

  pub need-Keeps :
      {A : Type 0} (o : Option A) (s : S) (k : A → Outcome S)
      → P s
      → ((a : A) → Keeps (k a))
      → Keeps (need o s k)
  need-Keeps (some a) s k p h = h a
  need-Keeps none s k p h = p

  pub proceed-Keeps :
      (r : Option (Unit {0}) × S) (k : S → Outcome S)
      → P r.1
      → ((s : S) → P s → Keeps (k s))
      → Keeps (proceed r k)
  proceed-Keeps (some u, s) k p h = h s p
  proceed-Keeps (none, s) k p h = p

  pub unless_panic-Keeps :
      {A : Type 0} (o : Option A) (k : A → Outcome S)
      → ((a : A) → Keeps (k a))
      → Keeps (unless_panic o k)
  unless_panic-Keeps none k h = tt
  unless_panic-Keeps (some a) k h = h a

  pub or_else_walk-Keeps :
      (o : Outcome S) (k : S → Outcome S)
      → Keeps o
      → ((s : S) → P s → Keeps (k s))
      → Keeps (or_else_walk o k)
  or_else_walk-Keeps (done s) k p h = p
  or_else_walk-Keeps (failed s) k p h = h s p
  or_else_walk-Keeps panicked k p h = tt

  pub if-Keeps : (b : Bool) (x y : Outcome S) → Keeps x → Keeps y → Keeps (if b then x else y)
  if-Keeps true x y hx hy = hx
  if-Keeps false x y hx hy = hy

  -- Every method that changes the walker keeps the property.
  pub record IsKept (w : FrameWalker S) : Type 0 where
    pub set_kept : (name : Bytes) (val : ℕ) (s : S) → P s → P (w.set_caller_register name val s).1
    pub clear_kept : (name : Bytes) (s : S) → P s → P (w.clear_caller_register name s)
    pub cfa_kept : (val : ℕ) (s : S) → P s → P (w.set_cfa val s).1
    pub ra_kept : (val : ℕ) (s : S) → P s → P (w.set_ra val s).1
