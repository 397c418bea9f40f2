-- ===== src/SymFile/Queries/Nearest.antt =====
-- The search for the nearest PUBLIC symbol.
use rust_minidump.Base.{
  ℕ, ◌<◌, ◌≤◌, ◌≡◌, ◌↔◌, refl, sym, ap, subst, ◌∙◌, none, some, some_inj, List, [], ◌∷◌, ◌++◌, In,
  All, All-In, Pairs, arith, inl, inr, ◌⊎◌, trichotomy,
}
use rust_minidump.SymFile.Types.{PublicSymbol}
use rust_minidump.SymFile.Queries.{find_nearest_public}

same_head : {A : Type 0} {x y : A} {xs ys : List A} → x ∷ xs ≡ y ∷ ys → x ≡ y
same_head h = cc

same_tail : {A : Type 0} {x y : A} {xs ys : List A} → x ∷ xs ≡ y ∷ ys → xs ≡ ys
same_tail h = cc

In-middle : {A : Type 0} (x : A) (before after : List A) → In x (before ++ x ∷ after)
In-middle x [] after = inl refl
In-middle x (y ∷ before) after = inr (In-middle x before after)

-- Two splits of a list at the last symbol at or before an address are at the same symbol.
last_split :
    (addr : ℕ) (before before' after after' : List PublicSymbol) (q p : PublicSymbol)
    → q.address ≤ addr
    → p.address ≤ addr
    → All (λ x. addr < x.address) after
    → All (λ x. addr < x.address) after'
    → before ++ q ∷ after ≡ before' ++ p ∷ after'
    → q ≡ p
last_split addr [] [] after after' q p le le' h h' e = same_head e
last_split addr [] (y ∷ before') after after' q p le le' h h' e = absurd (
    ground (
      arith,
      All-In (λ x. addr < x.address) p after h
          (subst (In p) (sym (same_tail e)) (In-middle p before' after')),
      le',
    ))
last_split addr (x ∷ before) [] after after' q p le le' h h' e = absurd (
    ground (
      arith,
      All-In (λ x. addr < x.address) q after' h'
          (subst (In q) (same_tail e) (In-middle q before after)),
      le,
    ))
last_split addr (x ∷ before) (y ∷ before') after after' q p le le' h h' e =
    last_split addr before before' after after' q p le le' h h' (same_tail e)

abbrev pub IsSortedPublics : List PublicSymbol → Type 0
IsSortedPublics = Pairs (λ x y. x.address ≤ y.address)

-- The symbol starts at or before the address, none of those before it in the list starts later than
-- it, and all after it start after the address.
abbrev pub IsNearest : List PublicSymbol → ℕ → PublicSymbol → Type 0
IsNearest publics addr p =
    (before after : List PublicSymbol) × (publics ≡ before ++ p ∷ after)
    × (p.address ≤ addr)
    × All (λ q. q.address ≤ p.address) before
    × All (λ q. addr < q.address) after

-- The search from the end finds the last symbol at or before the address, or there is none.
pub find_nearest_public_cases :
    (publics : List PublicSymbol) (addr : ℕ)
    → IsSortedPublics publics
    → ((p : PublicSymbol) × (find_nearest_public publics addr ≡ some p) × IsNearest publics addr p)
      ⊎ ((find_nearest_public publics addr ≡ none) × All (λ q. addr < q.address) publics)
unfolding find_nearest_public
find_nearest_public_cases [] addr h = inr (refl, tt)
find_nearest_public_cases (x ∷ xs) addr h = elim (find_nearest_public_cases xs addr h.1) [
  | inl (p, e, (before, after, split, le, lows, highs)) ↦ inl (
    p,
    rw e refl,
    (
      x ∷ before,
      after,
      ap (λ l. x ∷ l) split,
      le,
      (
        All-In (λ y. x.address ≤ y.address) p xs h.0
            (subst (In p) (sym split) (In-middle p before after)),
        lows,
      ),
      highs,
    ),
  )
  | inr (e, all) ↦ elim (trichotomy addr x.address) [
    | inl lt ↦ inr (rw e (ground arith), (lt, all))
    | inr ge ↦ inl (x, rw e (ground arith), ([], xs, refl, ground arith, tt, all))
  ]
]

-- On symbols sorted by address, the search from the end finds a symbol exactly when it is nearest.
pub find_nearest_public_iff :
    (publics : List PublicSymbol) (addr : ℕ) (p : PublicSymbol)
    → IsSortedPublics publics
    → (find_nearest_public publics addr ≡ some p) ↔ IsNearest publics addr p
find_nearest_public_iff publics addr p sorted =
    elim (find_nearest_public_cases publics addr sorted) [
      | inr (e, all) ↦ (
        λ h. cc,
        λ n.
            let (before, after, split, le, lows, highs) = n in
            absurd (
              ground (
                arith,
                All-In (λ q. addr < q.address) p publics all
                    (subst (In p) (sym split) (In-middle p before after)),
                le,
              )),
      )
      | inl (q, e, found) ↦ (
        λ h. subst (IsNearest publics addr) (some_inj (sym e ∙ h)) found,
        λ n. e ∙ ap some (same q found n),
      )
    ]
  where
    same : (q : PublicSymbol) → IsNearest publics addr q → IsNearest publics addr p → q ≡ p
    same q (before, after, split, le, lows, highs) (before', after', split', le', lows', highs') =
        last_split addr before before' after after' q p le le' highs highs' (sym split ∙ split')
