-- ===== src/RangeMapSafe/Covers.antt =====
-- What the finished map covers: no address that the input does not, and every range of the input
-- that no range with another value meets.
use rust_minidump.Base.{
  ℕ, ◌≤◌, ◌≡◌, refl, sym, subst, [], ◌∷◌, PartialEq, arith, All, In, ◌⊎◌, inl, inr,
}
use rust_minidump.Ranges.{Range, IsRange, Inside, Entries}
use rust_minidump.RangeMapSafe.{push_range, push_all}
use rust_minidump.RangeMapSafe.Sort.{IsAscending}
use rust_minidump.RangeMapSafe.Disjoint.{AllRanges}

-- Some entry of `l` gives the address `a` the value `v`.
abbrev pub Covers : {V : Type 0} → Entries V → ℕ → V → Type 0
Covers [] a v = ⊥
Covers ((r, w) ∷ l) a v = ((v ≡ w) × Inside a r) ⊎ Covers l a v

module _ {V : Type 0} where
  -- Every address of `r` that `l` covers has the value `v` there.
  abbrev pub Agrees : Range → V → Entries V → Type 0
  Agrees r v l = (b : ℕ) (u : V) → Inside b r → Covers l b u → u ≡ v

module _ {V : Type 0} ⦃e : PartialEq V⦄ where
  -- One round adds no address that the pushed range does not hold.
  push_range_sound :
      (r : Range) (v : V) (vec : Entries V) (a : ℕ) (u : V)
      → Covers (push_range r v vec) a u
      → Covers ((r, v) ∷ vec) a u
  unfolding push_range
  push_range_sound r v [] a u h = h
  push_range_sound r v ((s, w) ∷ vec) a u h = ground (arith, e.eq_iff v w)

  -- One round keeps what was covered.
  push_range_keeps :
      (r : Range) (v : V) (vec : Entries V) (a : ℕ) (u : V)
      → Covers vec a u
      → Covers (push_range r v vec) a u
  unfolding push_range
  push_range_keeps r v [] a u h = absurd h
  push_range_keeps r v ((s, w) ∷ vec) a u h = ground (arith, e.eq_iff v w)

  push_all_keeps :
      (input vec : Entries V) (a : ℕ) (u : V) → Covers vec a u → Covers (push_all input vec) a u
  unfolding push_all
  push_all_keeps [] vec a u h = h
  push_all_keeps ((r, v) ∷ input) vec a u h =
      push_all_keeps input (push_range r v vec) a u (push_range_keeps r v vec a u h)

  -- Whatever the finished vector covers, the input or the vector at the start covers.
  pub push_all_sound :
      (input vec : Entries V) (a : ℕ) (u : V)
      → Covers (push_all input vec) a u
      → Covers input a u ⊎ Covers vec a u
  unfolding push_all
  push_all_sound [] vec a u h = inr h
  push_all_sound ((r, v) ∷ input) vec a u h =
      ground (arith, push_all_sound input (push_range r v vec) a u h, push_range_sound r v vec a u)

  -- The last range starts at or before `n`.
  abbrev StartsBelow : ℕ → Entries V → Type 0
  StartsBelow n [] = Unit
  StartsBelow n ((s, w) ∷ l) = s.start ≤ n

  push_range-Covers :
      (r : Range) (v : V) (vec : Entries V) (a : ℕ)
      → IsRange r
      → StartsBelow r.start vec
      → Agrees r v vec
      → Inside a r
      → Covers (push_range r v vec) a v
  unfolding push_range
  push_range-Covers r v [] a p below agrees h = inl (refl, h)
  push_range-Covers r v ((s, w) ∷ vec) a p below agrees h =
      ground (arith, e.eq_iff v w, agrees r.start w)

  push_range-StartsBelow :
      (n : ℕ) (r : Range) (v : V) (vec : Entries V)
      → StartsBelow r.start vec
      → r.start ≤ n
      → StartsBelow n (push_range r v vec)
  unfolding push_range
  push_range-StartsBelow n r v [] below h = h
  push_range-StartsBelow n r v ((s, w) ∷ vec) below h = ground arith

  StartsBelow-le : (n m : ℕ) (vec : Entries V) → n ≤ m → StartsBelow n vec → StartsBelow m vec
  StartsBelow-le n m [] p h = tt
  StartsBelow-le n m ((s, w) ∷ vec) p h = omega arith

  -- The new vector still agrees with a range that agrees with the old one and with the input.
  Agrees-push_range :
      (r s : Range) (v w : V) (input vec : Entries V)
      → Agrees r v ((s, w) ∷ input)
      → Agrees r v vec
      → Agrees r v (push_range s w vec)
  Agrees-push_range r s v w input vec ag_in ag_vec b u h c = elim (push_range_sound s w vec b u c) [
    | inl d ↦ ag_in b u h (inl d)
    | inr d ↦ ag_vec b u h d
  ]

  -- An input in ascending order covers each of its ranges that agrees with the rest.
  pub push_all_complete :
      (n : ℕ) (input vec : Entries V) (r : Range) (v : V) (a : ℕ)
      → AllRanges input
      → IsAscending (λ x. x.0.start) input
      → All (λ x. n ≤ x.0.start) input
      → StartsBelow n vec
      → Agrees r v input
      → Agrees r v vec
      → In (r, v) input
      → Inside a r
      → Covers (push_all input vec) a v
  unfolding push_all
  push_all_complete n [] vec r v a ranges asc above below ag_in ag_vec i h = absurd i
  push_all_complete n ((s, w) ∷ input) vec r v a ranges asc above below ag_in ag_vec (inl e) h =
      push_all_keeps input (push_range s w vec) a v (
        subst (λ (x : Range × V). Covers (push_range x.0 x.1 vec) a v) e
          (push_range-Covers r v vec a (subst (λ (x : Range × V). IsRange x.0) (sym e) ranges.0)
            (subst (λ (x : Range × V). StartsBelow x.0.start vec) (sym e)
              (StartsBelow-le n s.start vec above.0 below))
            ag_vec h))
  push_all_complete n ((s, w) ∷ input) vec r v a ranges asc above below ag_in ag_vec (inr i) h =
      push_all_complete s.start input (push_range s w vec) r v a ranges.1 asc.1 asc.0
        (push_range-StartsBelow s.start s w vec (StartsBelow-le n s.start vec above.0 below)
          (omega arith))
        (λ b u p c. ag_in b u p (inr c)) (Agrees-push_range r s v w input vec ag_in ag_vec) i h
