-- ===== src/RangeMapSafe/Disjoint.antt =====
-- The loop keeps the vector disjoint, whatever ranges come in and in whatever order, so that
-- `RangeMap::try_from_iter` never fails and `unwrap` never panics.
use rust_minidump.Base.{◌+◌, ◌<◌, ◌≡◌, [], ◌∷◌, PartialEq, arith, All}
use rust_minidump.Ranges.{Range, IsRange, Entries, IsNormal}
use rust_minidump.RangeMapSafe.{push_range, push_all, rev_onto}

-- `IsNormal` of the vector as it is kept, last element first.
abbrev pub IsStack : {V : Type 0} → Entries V → Type 0
IsStack [] = Unit
IsStack ((r, v) ∷ []) = IsRange r
IsStack ((r, v) ∷ (s, w) ∷ l) =
    IsRange r × (s.end < r.start) × (w ≡ v → s.end + 1 < r.start) × IsStack ((s, w) ∷ l)

-- Every range of the input is one that `Range::new` accepts.
abbrev pub AllRanges : {V : Type 0} → Entries V → Type 0
AllRanges = All (λ x. IsRange x.0)

module _ {V : Type 0} ⦃e : PartialEq V⦄ where
  pub push_range-IsStack :
      (r : Range) (v : V) (vec : Entries V) → IsRange r → IsStack vec → IsStack (push_range r v vec)
  unfolding push_range
  push_range-IsStack r v [] p h = p
  push_range-IsStack r v ((s, w) ∷ []) p h = ground (arith, e.eq_iff v w)
  push_range-IsStack r v ((s, w) ∷ (t, u) ∷ l) p h = ground (arith, e.eq_iff v w)

  pub push_all-IsStack :
      (input vec : Entries V) → AllRanges input → IsStack vec → IsStack (push_all input vec)
  unfolding push_all
  push_all-IsStack [] vec p h = h
  push_all-IsStack ((r, v) ∷ input) vec p h =
      push_all-IsStack input (push_range r v vec) p.1 (push_range-IsStack r v vec p.0 h)

module _ {V : Type 0} where
  pub IsStack-head : (r : Range) (v : V) (vec : Entries V) → IsStack ((r, v) ∷ vec) → IsRange r
  IsStack-head r v [] p = p
  IsStack-head r v (x ∷ vec) p = p.0

  rev_onto_step :
      (r : Range) (v : V) (vec out : Entries V)
      → IsStack ((r, v) ∷ vec)
      → IsNormal ((r, v) ∷ out)
      → IsNormal (rev_onto vec ((r, v) ∷ out))
  unfolding rev_onto
  rev_onto_step r v [] out p q = q
  rev_onto_step r v ((s, w) ∷ vec) out p q =
      rev_onto_step s w vec ((r, v) ∷ out) p.3 (IsStack-head s w vec p.3, p.1, p.2, q)

  pub rev_onto-IsNormal : (vec : Entries V) → IsStack vec → IsNormal (rev_onto vec [])
  unfolding rev_onto
  rev_onto-IsNormal [] p = tt
  rev_onto-IsNormal ((r, v) ∷ []) p = p
  rev_onto-IsNormal ((r, v) ∷ (s, w) ∷ vec) p = rev_onto_step r v ((s, w) ∷ vec) [] p p.0
