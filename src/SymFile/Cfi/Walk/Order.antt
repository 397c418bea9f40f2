-- ===== src/SymFile/Cfi/Walk/Order.antt =====
-- The registers are emitted in the order of a hash map, which is not specified: the order does not
-- matter.
use mathlib.Core.List.{Permᴰ}
use rust_minidump.Base.{
  ℕ, ◌≡◌, ◌≢◌, refl, sym, ap, ap₂, ◌∙◌, Option, none, some, List, [], ◌∷◌, Bytes, u64_mod, HashMap,
  Pairs, Pairs-perm, ◌>>=◌,
}
use rust_minidump.SymFile.FrameWalker.{FrameWalker}
use rust_minidump.SymFile.Tokens.{words, after_dollar, signed_from_str}
use rust_minidump.SymFile.Cfi.{
  CfiToken, binary, deref, cfa_value, undef, other, classify, value_of, eval_step, eval_tokens,
  single_value, eval_cfi_expr,
}
use rust_minidump.SymFile.Cfi.Rules.{CfiReg, cfa, ra}
use rust_minidump.SymFile.Cfi.Walk.{emit_value, emit, emit_all}

module _ {S : Type 0} (w : FrameWalker S) where
  -- Two states show an expression the same memory and the same callee.
  abbrev pub SameCallee : S → S → Type 0
  SameCallee s t =
      (w.get_register_at_address s ≡ w.get_register_at_address t)
      × (w.get_callee_register s ≡ w.get_callee_register t)

  -- Writing a caller's register changes nothing that expressions read, and writes of two
  -- registers commute.
  pub record IsIndependent : Type 0 where
    pub reads : (reg : Bytes) (v : Option ℕ) (s : S) → SameCallee (emit_value w reg v s) s
    pub commutes :
        (a b : Bytes) (x y : Option ℕ) (s : S)
        → a ≢ b
        → emit_value w a x (emit_value w b y s) ≡ emit_value w b y (emit_value w a x s)

  value_of_ext :
      (frame : Option ℕ) (s t : S) (token : Bytes)
      → SameCallee s t
      → value_of w s frame token ≡ value_of w t frame token
  unfolding value_of
  value_of_ext frame s t token h =
      ap
        (λ (f : Bytes → Option ℕ). elim (after_dollar token) [
          | some reg ↦ f reg
          | none ↦ elim (signed_from_str u64_mod token) [ some value ↦ some value | none ↦ f token ]
        ])
        h.1

  eval_step_ext :
      (frame : Option ℕ) (s t : S) (k : CfiToken) (stack : List ℕ)
      → SameCallee s t
      → eval_step w s frame k stack ≡ eval_step w t frame k stack
  unfolding eval_step
  eval_step_ext frame s t (binary op) [] h = refl
  eval_step_ext frame s t (binary op) (v ∷ []) h = refl
  eval_step_ext frame s t (binary op) (v ∷ u ∷ stack) h = refl
  eval_step_ext frame s t deref [] h = refl
  eval_step_ext frame s t deref (v ∷ stack) h =
      ap (λ (f : ℕ → Option ℕ). f v >>= λ u. some (u ∷ stack)) h.0
  eval_step_ext frame s t cfa_value stack h = refl
  eval_step_ext frame s t undef stack h = refl
  eval_step_ext frame s t (other token) stack h =
      ap (λ (m : Option ℕ). m >>= λ u. some (u ∷ stack)) (value_of_ext frame s t token h)

  eval_tokens_ext :
      (frame : Option ℕ) (s t : S) (tokens : List Bytes) (stack : List ℕ)
      → SameCallee s t
      → eval_tokens w s frame tokens stack ≡ eval_tokens w t frame tokens stack
  unfolding eval_tokens
  eval_tokens_ext frame s t [] stack h = refl
  eval_tokens_ext frame s t (token ∷ tokens) stack h =
      ap (λ (m : Option (List ℕ)). m >>= λ st. eval_tokens w s frame tokens st)
        (eval_step_ext frame s t (classify token) stack h)
      ∙ go (eval_step w t frame (classify token) stack)
          (λ st. eval_tokens_ext frame s t tokens st h)
    where
      go :
          (m : Option (List ℕ))
          → ((st : List ℕ) → eval_tokens w s frame tokens st ≡ eval_tokens w t frame tokens st)
          → (m >>= λ st. eval_tokens w s frame tokens st)
            ≡ (m >>= λ st. eval_tokens w t frame tokens st)
      go none ih = refl
      go (some st) ih = ih st

  -- An expression's value depends only on the memory and on the callee.
  pub eval_cfi_expr_ext :
      (frame : Option ℕ) (s t : S) (expr : Bytes)
      → SameCallee s t
      → eval_cfi_expr w s frame expr ≡ eval_cfi_expr w t frame expr
  unfolding eval_cfi_expr
  eval_cfi_expr_ext frame s t expr h =
      ap (λ (m : Option (List ℕ)). m >>= single_value w s frame)
        (eval_tokens_ext frame s t (words expr) [] h)

  -- The rules are for general registers, each for another one.
  abbrev pub AreDistinct : HashMap CfiReg Bytes → Type 0
  AreDistinct = Pairs (λ x y. x.0 ≢ y.0)

  module _ (independent : IsIndependent) (frame : ℕ) where
    emit-after :
        (a b ea eb : Bytes) (s : S)
        → emit w frame b eb (emit w frame a ea s)
          ≡ emit_value w b
              (eval_cfi_expr w s (some frame) eb)
              (emit_value w a (eval_cfi_expr w s (some frame) ea) s)
    unfolding emit
    emit-after a b ea eb s =
        ap
          (λ (v : Option ℕ).
            emit_value w b v (emit_value w a (eval_cfi_expr w s (some frame) ea) s))
          (eval_cfi_expr_ext (some frame) _ s eb
            (independent.reads a (eval_cfi_expr w s (some frame) ea) s))

    emit_comm :
        (a b ea eb : Bytes) (s : S)
        → a ≢ b
        → emit w frame b eb (emit w frame a ea s) ≡ emit w frame a ea (emit w frame b eb s)
    emit_comm a b ea eb s ne =
        emit-after a b ea eb s
        ∙ independent.commutes b a _ _ s (λ e. ne (sym e))
        ∙ sym (emit-after b a eb ea s)

    emit_all_swap :
        (x y : CfiReg × Bytes) (l : HashMap CfiReg Bytes) (s : S)
        → x.0 ≢ y.0
        → emit_all w frame (x ∷ y ∷ l) s ≡ emit_all w frame (y ∷ x ∷ l) s
    unfolding emit_all
    emit_all_swap (cfa, ex) (cfa, ey) l s ne = refl
    emit_all_swap (cfa, ex) (ra, ey) l s ne = refl
    emit_all_swap (cfa, ex) (CfiReg.other b, ey) l s ne = refl
    emit_all_swap (ra, ex) (cfa, ey) l s ne = refl
    emit_all_swap (ra, ex) (ra, ey) l s ne = refl
    emit_all_swap (ra, ex) (CfiReg.other b, ey) l s ne = refl
    emit_all_swap (CfiReg.other a, ex) (cfa, ey) l s ne = refl
    emit_all_swap (CfiReg.other a, ex) (ra, ey) l s ne = refl
    emit_all_swap (CfiReg.other a, ex) (CfiReg.other b, ey) l s ne =
        ap (emit_all w frame l) (emit_comm a b ex ey s (λ e. ne (ap CfiReg.other e)))

    emit_all_cons :
        (x : CfiReg × Bytes) (l m : HashMap CfiReg Bytes) (s : S)
        → ((t : S) → emit_all w frame l t ≡ emit_all w frame m t)
        → emit_all w frame (x ∷ l) s ≡ emit_all w frame (x ∷ m) s
    unfolding emit_all
    emit_all_cons (cfa, e) l m s h = refl
    emit_all_cons (ra, e) l m s h = refl
    emit_all_cons (CfiReg.other a, e) l m s h = h _

    -- Emitting the rules in any order leaves the walker in the same state, if each register has
    -- one rule and the walker's writes are independent.
    pub emit_all-perm :
        {l m : HashMap CfiReg Bytes} (s : S)
        → Permᴰ l m
        → AreDistinct l
        → emit_all w frame l s ≡ emit_all w frame m s
    emit_all-perm s Permᴰ.nil h = refl
    emit_all-perm s (Permᴰ.cons {a = x} {l₁ = l} {l₂ = k} e p) h =
        emit_all_cons x l k s (λ t. emit_all-perm t p h.1)
        ∙ ap (λ (y : CfiReg × Bytes). emit_all w frame (y ∷ k) s) e
    emit_all-perm s (Permᴰ.swap {a = x} {b = y} {l = l} e d) h =
        emit_all_swap x y l s h.0.0
        ∙ ap₂ (λ (u v : CfiReg × Bytes). emit_all w frame (u ∷ v ∷ l) s) d e
    emit_all-perm s (Permᴰ.trans p q) h =
        emit_all-perm s p h
        ∙ emit_all-perm s q
            (Pairs-perm (λ (x y : CfiReg × Bytes). x.0 ≢ y.0) (λ x y n e. n (sym e)) p h)
