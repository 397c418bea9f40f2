-- ===== src/SymFile/Cfi/Walk/Safe.antt =====
-- The `unreachable!` of `walk_with_stack_cfi` is not reached.
use rust_minidump.Base.{
  ℕ, ◌≡◌, ◌≢◌, refl, Option, none, some, List, [], ◌∷◌, Bytes, HashMap, Lacks, Lacks-remove,
  Lacks-remove_other, get, remove,
}
use rust_minidump.SymFile.Types.{CfiRules}
use rust_minidump.SymFile.FrameWalker.{FrameWalker}
use rust_minidump.SymFile.Cfi.{eval_cfi_expr}
use rust_minidump.SymFile.Cfi.Rules.{CfiReg, cfa, ra, other, CfiReg-PartialEq}
use rust_minidump.SymFile.Cfi.Walk.{
  Outcome, panicked, need, proceed, parse_lines, emit_all, walk_with_exprs, walk_with_stack_cfi,
}

abbrev pub Survives : {S : Type 0} → Outcome S → Type 0
Survives o = o ≢ panicked

pub need-Survives :
    {S A : Type 0} (o : Option A) (s : S) (k : A → Outcome S)
    → ((a : A) → o ≡ some a → Survives (k a))
    → Survives (need o s k)
need-Survives (some a) s k h = h a refl
need-Survives none s k h = λ e. cc

pub proceed-Survives :
    {S : Type 0} (r : Option (Unit {0}) × S) (k : S → Outcome S)
    → ((s : S) → Survives (k s))
    → Survives (proceed r k)
proceed-Survives (some u, s) k h = h s
proceed-Survives (none, s) k h = λ e. cc

module _ {S : Type 0} (w : FrameWalker S) where
  emit_all-Survives :
      (frame : ℕ) (m : HashMap CfiReg Bytes) (s : S)
      → Lacks cfa m
      → Lacks ra m
      → Survives (emit_all w frame m s)
  unfolding emit_all
  emit_all-Survives frame [] s h k = λ e. cc
  emit_all-Survives frame ((cfa, x) ∷ m) s h k = absurd (h.0 refl)
  emit_all-Survives frame ((ra, x) ∷ m) s h k = absurd (k.0 refl)
  emit_all-Survives frame ((other reg, x) ∷ m) s h k = emit_all-Survives frame m _ h.1 k.1

  walk_with_exprs-Survives :
      (exprs : HashMap CfiReg Bytes) (s : S) → Survives (walk_with_exprs w exprs s)
  unfolding walk_with_exprs
  walk_with_exprs-Survives exprs s = need-Survives (get exprs cfa) s _ λ cfa_expr _.
      need-Survives (get (remove exprs cfa) ra) s _ λ ra_expr _.
        need-Survives (eval_cfi_expr w s none cfa_expr) s _ λ frame _.
          need-Survives (eval_cfi_expr w s (some frame) ra_expr) s _ λ ret _.
            proceed-Survives (w.set_cfa frame s) _ λ s1. proceed-Survives (w.set_ra ret s1) _ λ s2.
              emit_all-Survives frame _ s2
                (Lacks-remove_other cfa ra (remove exprs cfa) (Lacks-remove cfa exprs))
                (Lacks-remove ra (remove exprs cfa))

  -- Whatever the rules say and however the walker behaves, the walk returns: `unreachable!` is
  -- never executed.
  pub walk_with_stack_cfi_returns :
      (init : CfiRules) (additional : List CfiRules) (s : S)
      → walk_with_stack_cfi w init additional s ≢ panicked
  unfolding walk_with_stack_cfi
  walk_with_stack_cfi_returns init additional s =
      need-Survives (parse_lines (init ∷ additional) []) s _
        (λ exprs _. walk_with_exprs-Survives exprs s)
