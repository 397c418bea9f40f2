-- ===== src/SymFile/Cfi/Walk.antt =====
-- walker.rs `walk_with_stack_cfi`: one step of unwinding by STACK CFI rules.
pub mod Latest
pub mod Order
pub mod Safe
use rust_minidump.Base.{
  ℕ, Bool, Option, none, some, List, [], ◌∷◌, Bytes, HashMap, get, remove, ◌>>=◌,
}
use rust_minidump.SymFile.Types.{CfiRules}
use rust_minidump.SymFile.FrameWalker.{FrameWalker}
use rust_minidump.SymFile.Cfi.{eval_cfi_expr}
use rust_minidump.SymFile.Cfi.Rules.{CfiReg, cfa, ra, other, CfiReg-PartialEq, parse_cfi_exprs}

-- How a walker's function ends: with `Some(())` or with `None`, and the walker's state then; or
-- in `unreachable!`.
pub data Outcome (S : Type 0) : Type 0 where
  done failed : S → Outcome S
  panicked : Outcome S

-- `m?` of a method that may fail, and what comes after it.
abbrev pub proceed : {S : Type 0} → Option (Unit {0}) × S → (S → Outcome S) → Outcome S
proceed (some u, s) k = k s
proceed (none, s) k = failed s

-- `o?` of a value, in the state `s`.
abbrev pub need : {S A : Type 0} → Option A → S → (A → Outcome S) → Outcome S
need (some a) s k = k a
need none s k = failed s

unfoldable pub parse_lines : List CfiRules → HashMap CfiReg Bytes → Option (HashMap CfiReg Bytes)
parse_lines [] exprs = some exprs
parse_lines (line ∷ lines) exprs = do
  exprs' ← parse_cfi_exprs line.rules exprs
  parse_lines lines exprs'

module _ {S : Type 0} (w : FrameWalker S) where
  -- A register whose rule fails is cleared, and the walk goes on.
  abbrev pub emit_value : Bytes → Option ℕ → S → S
  emit_value reg (some val) s = (w.set_caller_register reg val s).1
  emit_value reg none s = w.clear_caller_register reg s

  unfoldable pub emit : ℕ → Bytes → Bytes → S → S
  emit frame reg expr s = emit_value reg (eval_cfi_expr w s (some frame) expr) s

  unfoldable pub emit_all : ℕ → HashMap CfiReg Bytes → S → Outcome S
  unfolding emit
  emit_all frame [] s = done s
  emit_all frame ((cfa, expr) ∷ exprs) s = panicked
  emit_all frame ((ra, expr) ∷ exprs) s = panicked
  emit_all frame ((other reg, expr) ∷ exprs) s = emit_all frame exprs (emit frame reg expr s)

  unfoldable pub walk_with_exprs : HashMap CfiReg Bytes → S → Outcome S
  unfolding emit_all
  walk_with_exprs exprs s = need (get exprs cfa) s λ cfa_expr.
      need (get (remove exprs cfa) ra) s λ ra_expr.
        need (eval_cfi_expr w s none cfa_expr) s λ frame.
          need (eval_cfi_expr w s (some frame) ra_expr) s λ ret.
            proceed (w.set_cfa frame s)
              λ s1. proceed (w.set_ra ret s1) λ s2. emit_all frame (remove (remove exprs cfa) ra) s2

  unfoldable pub walk_with_stack_cfi : CfiRules → List CfiRules → S → Outcome S
  unfolding walk_with_exprs parse_lines
  walk_with_stack_cfi init additional s =
      need (parse_lines (init ∷ additional) []) s λ exprs. walk_with_exprs exprs s
