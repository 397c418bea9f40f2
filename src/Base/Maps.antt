-- ===== src/Base/Maps.antt =====
-- `HashMap` as an association list with one entry for a key.
use mathlib.Core.Path.{◌≡◌}
use mathlib.Core.Bool.{true, false}
use mathlib.Core.Option.{Option, none, some}
use mathlib.Core.List.{List, [], ◌∷◌}
use native.Mathlib.Omega.{arith}
use mathlib.Core.Logic.{◌≢◌}
use rust_minidump.Base.Lists.{All}
use rust_minidump.Base.Tests.{PartialEq, ◌==◌, if◌then◌else◌}

abbrev pub HashMap : Type 0 → Type 0 → Type 0
HashMap K V = List (K × V)

module _ {K V : Type 0} ⦃p : PartialEq K⦄ where
  unfoldable pub get : HashMap K V → K → Option V
  get [] k = none
  get (x ∷ m) k = elim (x.0 == k) [ true ↦ some x.1 | false ↦ get m k ]

  unfoldable pub insert : HashMap K V → K → V → HashMap K V
  insert [] k v = (k, v) ∷ []
  insert (x ∷ m) k v = elim (x.0 == k) [ true ↦ (k, v) ∷ m | false ↦ x ∷ insert m k v ]

  unfoldable pub remove : HashMap K V → K → HashMap K V
  remove [] k = []
  remove (x ∷ m) k = elim (x.0 == k) [ true ↦ remove m k | false ↦ x ∷ remove m k ]

  pub get-insert :
      (m : HashMap K V) (k : K) (v : V) (j : K)
      → get (insert m k v) j ≡ (if k == j then some v else get m j)
  unfolding get insert
  get-insert [] k v j = ground arith
  get-insert (x ∷ m) k v j =
      ground (arith, get-insert m k v j, p.eq_iff k j, p.eq_iff x.0 k, p.eq_iff x.0 j)

  pub get-remove :
      (m : HashMap K V) (k j : K) → get (remove m k) j ≡ (if k == j then none else get m j)
  unfolding get remove
  get-remove [] k j = ground arith
  get-remove (x ∷ m) k j =
      ground (arith, get-remove m k j, p.eq_iff k j, p.eq_iff x.0 k, p.eq_iff x.0 j)

  -- No entry has the key `k`.
  abbrev pub Lacks : K → HashMap K V → Type 0
  Lacks k = All (λ x. x.0 ≢ k)

  pub Lacks-remove : (k : K) (m : HashMap K V) → Lacks k (remove m k)
  unfolding remove
  Lacks-remove k [] = tt
  Lacks-remove k (x ∷ m) = ground (arith, p.eq_iff x.0 k, Lacks-remove k m)

  pub Lacks-remove_other : (k j : K) (m : HashMap K V) → Lacks k m → Lacks k (remove m j)
  unfolding remove
  Lacks-remove_other k j [] h = tt
  Lacks-remove_other k j (x ∷ m) h = ground (arith, Lacks-remove_other k j m h.1)
