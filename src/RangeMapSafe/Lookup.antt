-- ===== src/RangeMapSafe/Lookup.antt =====
-- From the vector to the map: looking an address up in the finished map.
use rust_minidump.Base.{ℕ, ◌<◌, ◌≡◌, ◌↔◌, subst, ap, some, [], ◌∷◌, arith, In, ◌⊎◌, inl, inr}
use rust_minidump.Ranges.{Range, Inside, Entries, IsNormal, find_entry}
use rust_minidump.RangeMapSafe.{rev_onto}
use rust_minidump.RangeMapSafe.Covers.{Covers}

module _ {V : Type 0} where
  pub Covers-of_In :
      (l : Entries V) (r : Range) (v : V) (a : ℕ) → In (r, v) l → Inside a r → Covers l a v
  Covers-of_In [] r v a i h = i
  Covers-of_In ((s, w) ∷ l) r v a (inl e) h =
      inl (ap (λ (x : Range × V). x.1) e, subst (λ (x : Range × V). Inside a x.0) e h)
  Covers-of_In ((s, w) ∷ l) r v a (inr i) h = inr (Covers-of_In l r v a i h)

  pub In-of_Covers :
      (l : Entries V) (a : ℕ) (v : V) → Covers l a v → (r : Range) × In (r, v) l × Inside a r
  In-of_Covers [] a v h = absurd h
  In-of_Covers ((s, w) ∷ l) a v (inl h) = (s, inl (ap (λ (x : V). (s, x)) h.0), h.1)
  In-of_Covers ((s, w) ∷ l) a v (inr h) = let (r, i, p) = In-of_Covers l a v h in (r, inr i, p)

  pub Covers-rev_onto :
      (vec out : Entries V) (a : ℕ) (v : V)
      → Covers (rev_onto vec out) a v ↔ (Covers vec a v ⊎ Covers out a v)
  unfolding rev_onto
  Covers-rev_onto [] out a v = (λ h. inr h, λ h. ground arith)
  Covers-rev_onto ((r, w) ∷ vec) out a v = (
    λ h. ground (arith, (Covers-rev_onto vec ((r, w) ∷ out) a v).0 h),
    λ h. (Covers-rev_onto vec ((r, w) ∷ out) a v).1 (ground arith),
  )

  pub Covers-of_find_entry :
      (l : Entries V) (a : ℕ) (v : V) → find_entry l a ≡ some v → Covers l a v
  Covers-of_find_entry [] a v h = cc
  Covers-of_find_entry ((r, w) ∷ l) a v h = ground (arith, Covers-of_find_entry l a v)

  starts_after :
      (r : Range) (v : V) (l : Entries V) (a : ℕ) (u : V)
      → IsNormal ((r, v) ∷ l)
      → Covers l a u
      → r.end < a
  starts_after r v [] a u n h = absurd h
  starts_after r v ((s, w) ∷ []) a u n h = ground arith
  starts_after r v ((s, w) ∷ (t, x) ∷ l) a u n (inl h) = omega arith
  starts_after r v ((s, w) ∷ (t, x) ∷ l) a u n (inr h) =
      omega (arith, starts_after s w ((t, x) ∷ l) a u n.3 h)

  pub find_entry_of_Covers :
      (l : Entries V) (a : ℕ) (v : V) → IsNormal l → Covers l a v → find_entry l a ≡ some v
  find_entry_of_Covers [] a v n h = absurd h
  find_entry_of_Covers ((r, w) ∷ []) a v n h = ground arith
  find_entry_of_Covers ((r, w) ∷ (s, x) ∷ l) a v n (inl h) = ground arith
  find_entry_of_Covers ((r, w) ∷ (s, x) ∷ l) a v n (inr h) =
      ground
        (arith, starts_after r w ((s, x) ∷ l) a v n h, find_entry_of_Covers ((s, x) ∷ l) a v n.3 h)
