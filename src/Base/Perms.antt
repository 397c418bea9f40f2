-- ===== src/Base/Perms.antt =====
-- What a permutation keeps.
use mathlib.Core.Path.{subst, subst₂}
use mathlib.Core.List.{List, Permᴰ}
use rust_minidump.Base.Lists.{All, Pairs}

module _ {A : Type 0} where
  pub All-perm : (P : A → Type 0) {xs ys : List A} → Permᴰ xs ys → All P xs → All P ys
  All-perm P Permᴰ.nil h = tt
  All-perm P (Permᴰ.cons e p) h = (subst P e h.0, All-perm P p h.1)
  All-perm P (Permᴰ.swap e d) h = (subst P d h.1.0, (subst P e h.0, h.1.1))
  All-perm P (Permᴰ.trans p q) h = All-perm P q (All-perm P p h)

  -- Of a symmetric relation.
  pub Pairs-perm :
      (R : A → A → Type 0) {xs ys : List A}
      → ((x y : A) → R x y → R y x)
      → Permᴰ xs ys
      → Pairs R xs
      → Pairs R ys
  Pairs-perm R symm Permᴰ.nil h = tt
  Pairs-perm R symm (Permᴰ.cons {l₂ = k} e p) h =
      (subst (λ x. All (R x) k) e (All-perm (R _) p h.0), Pairs-perm R symm p h.1)
  Pairs-perm R symm (Permᴰ.swap {a = a} {b = b} {l = l} e d) h = (
    (subst₂ R d e (symm a b h.0.0), subst (λ x. All (R x) l) d h.1.0),
    (subst (λ x. All (R x) l) e h.0.1, h.1.1),
  )
  Pairs-perm R symm (Permᴰ.trans p q) h = Pairs-perm R symm q (Pairs-perm R symm p h)
