-- ===== src/SymFile/Queries/Keeps/Cfi.antt =====
-- Walks by STACK CFI rules.
use rust_minidump.Base.{
  ℕ, Option, none, some, List, [], ◌∷◌, Bytes, HashMap, Bytes-PartialEq, get, remove,
}
use rust_minidump.SymFile.FrameWalker.{FrameWalker}
use rust_minidump.SymFile.Types.{CfiRules}
use rust_minidump.SymFile.Cfi.{eval_cfi_expr}
use rust_minidump.SymFile.Cfi.Rules.{CfiReg, cfa, ra, other, CfiReg-PartialEq}
use rust_minidump.SymFile.Cfi.Walk.{
  emit, emit_value, emit_all, parse_lines, walk_with_exprs, walk_with_stack_cfi,
}
use rust_minidump.SymFile.Queries.Keeps.{Keeps, need-Keeps, proceed-Keeps, IsKept}

module _ {S : Type 0} (P : S → Type 0) where
  module _ (w : FrameWalker S) (kept : IsKept P w) where
    open kept use {set_kept, clear_kept, cfa_kept, ra_kept}

    emit-kept : (frame : ℕ) (reg expr : Bytes) (s : S) → P s → P (emit w frame reg expr s)
    unfolding emit
    emit-kept frame reg expr s p = go (eval_cfi_expr w s (some frame) expr)
      where
        go : (o : Option ℕ) → P (emit_value w reg o s)
        go (some val) = set_kept reg val s p
        go none = clear_kept reg s p

    emit_all-Keeps :
        (frame : ℕ) (m : HashMap CfiReg Bytes) (s : S) → P s → Keeps P (emit_all w frame m s)
    unfolding emit_all
    emit_all-Keeps frame [] s p = p
    emit_all-Keeps frame ((cfa, x) ∷ m) s p = tt
    emit_all-Keeps frame ((ra, x) ∷ m) s p = tt
    emit_all-Keeps frame ((other reg, x) ∷ m) s p =
        emit_all-Keeps frame m (emit w frame reg x s) (emit-kept frame reg x s p)

    pub walk_with_stack_cfi-Keeps :
        (init : CfiRules) (additional : List CfiRules) (s : S)
        → P s
        → Keeps P (walk_with_stack_cfi w init additional s)
    unfolding walk_with_stack_cfi walk_with_exprs
    walk_with_stack_cfi-Keeps init additional s p =
        need-Keeps P (parse_lines (init ∷ additional) []) s _ p λ exprs.
          need-Keeps P (get exprs cfa) s _ p λ cfa_expr.
            need-Keeps P (get (remove exprs cfa) ra) s _ p λ ra_expr.
              need-Keeps P (eval_cfi_expr w s none cfa_expr) s _ p λ frame.
                need-Keeps P (eval_cfi_expr w s (some frame) ra_expr) s _ p λ ret.
                  proceed-Keeps P (w.set_cfa frame s) _ (cfa_kept frame s p) λ s1 p1.
                    proceed-Keeps P (w.set_ra ret s1) _ (ra_kept ret s1 p1)
                      λ s2 p2. emit_all-Keeps frame (remove (remove exprs cfa) ra) s2 p2
