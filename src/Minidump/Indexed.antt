-- ===== src/Minidump/Indexed.antt =====
-- minidump/src/minidump.rs: the maps from addresses to indices that the lists of modules and of
-- memory regions keep, `iter().enumerate().map(..).into_rangemap_safe()`.
use rust_minidump.Base.{
  ℕ, zero, suc, ◌+◌, ◌≡◌, refl, sym, ap, subst, ◌∙◌, Option, none, some, List, [], ◌∷◌, ℕ-PartialEq,
  In, get_elem?, In-of_get_elem?, some_inj, inl, inr, arith, ◌⊎◌,
}
use rust_minidump.Ranges.{Range, IsRange, Inside, RangeCrate}
use rust_minidump.RangeMapSafe.{into_rangemap_safe_opt}
use rust_minidump.RangeMapSafe.Disjoint.{AllRanges}
use rust_minidump.RangeMapSafe.Agreement.{into_rangemap_safe_agree}
use rust_minidump.RangeMapSafe.Lookup.{In-of_Covers}
use rust_minidump.RangeMapSafe.Finished.{
  valid_entries, into_rangemap_safe_total, into_rangemap_safe_sound, into_rangemap_safe_complete,
}

abbrev pub present : {A : Type 0} → Option A → Option (Option A)
present none = none
present (some x) = some (some x)

module _ {A : Type 0} where
  -- `map.get(address).map(|&index| &xs[index])`; `none` is a panic.
  abbrev pub picked : List A → Option ℕ → Option (Option A)
  picked xs none = some none
  picked xs (some index) = present (get_elem? xs index)

  unfoldable pub element_at : (c : RangeCrate) → List A → c.RangeMap ℕ → ℕ → Option (Option A)
  element_at c xs m address = picked xs (c.get m address)

valid_entries_cases :
    (o : Option Range) (k : ℕ) (l : List (Option Range × ℕ)) (p : Range × ℕ)
    → In p (valid_entries ((o, k) ∷ l))
    → ((o ≡ some p.0) × (p.1 ≡ k)) ⊎ In p (valid_entries l)
valid_entries_cases none k l p h = inr h
valid_entries_cases (some s) k l p (inl d) =
    inl (ap some (sym (ap (λ (q : Range × ℕ). q.0) d)), ap (λ (q : Range × ℕ). q.1) d)
valid_entries_cases (some s) k l p (inr d) = inr d

valid_entries_later :
    (o : Option Range) (k : ℕ) (l : List (Option Range × ℕ)) (p : Range × ℕ)
    → In p (valid_entries l)
    → In p (valid_entries ((o, k) ∷ l))
valid_entries_later none k l p h = h
valid_entries_later (some s) k l p h = inr h

AllRanges-valid_entries :
    (o : Option Range) (k : ℕ) (l : List (Option Range × ℕ))
    → ((r : Range) → o ≡ some r → IsRange r)
    → AllRanges (valid_entries l)
    → AllRanges (valid_entries ((o, k) ∷ l))
AllRanges-valid_entries none k l sound h = h
AllRanges-valid_entries (some r) k l sound h = (sound r refl, h)

module _ {A : Type 0} (range : A → Option Range) where
  unfoldable pub indexed : ℕ → List A → List (Option Range × ℕ)
  indexed k [] = []
  indexed k (x ∷ xs) = (range x, k) ∷ indexed (k + 1) xs

  unfoldable pub index_by_addr : (c : RangeCrate) → List A → Option (c.RangeMap ℕ)
  unfolding indexed
  index_by_addr c xs = into_rangemap_safe_opt c (indexed 0 xs)

  -- The element at `i` has the range `r`.
  abbrev pub HasRange : List A → ℕ → Range → Type 0
  HasRange xs i r = (x : A) × (get_elem? xs i ≡ some x) × (range x ≡ some r)

  pub In-indexed :
      (k : ℕ) (xs : List A) (r : Range) (i : ℕ)
      → In (r, i) (valid_entries (indexed k xs))
      → (j : ℕ) × (i ≡ j + k) × HasRange xs j r
  unfolding indexed
  In-indexed k [] r i h = absurd h
  In-indexed k (x ∷ xs) r i h =
      elim (valid_entries_cases (range x) k (indexed (k + 1) xs) (r, i) h) [
        | inl (d, e) ↦ (0, omega (arith, e), (x, refl, d))
        | inr d ↦ let (j, e, has) = In-indexed (k + 1) xs r i d in (suc j, omega (arith, e), has)
      ]

  pub indexed-In :
      (k : ℕ) (xs : List A) (r : Range) (j : ℕ)
      → HasRange xs j r
      → In (r, j + k) (valid_entries (indexed k xs))
  unfolding indexed
  indexed-In k [] r j (x, e, d) = cc
  indexed-In k (y ∷ ys) r zero (x, e, d) =
      rw (ap range (some_inj e) ∙ d) (inl (ap (λ (i : ℕ). (r, i)) (omega arith)))
  indexed-In k (y ∷ ys) r (suc j) (x, e, d) =
      valid_entries_later (range y) k (indexed (k + 1) ys) (r, suc j + k)
        (subst (λ (i : ℕ). In (r, i) (valid_entries (indexed (k + 1) ys))) (omega arith)
          (indexed-In (k + 1) ys r j (x, e, d)))

  module _ (sound : (x : A) (r : Range) → range x ≡ some r → IsRange r) where
    entries-AllRanges : (k : ℕ) (xs : List A) → AllRanges (valid_entries (indexed k xs))
    unfolding indexed
    entries-AllRanges k [] = tt
    entries-AllRanges k (x ∷ xs) =
        AllRanges-valid_entries (range x) k (indexed (k + 1) xs) (sound x)
          (entries-AllRanges (k + 1) xs)

    pub index_by_addr_total :
        (c : RangeCrate) (xs : List A) → (m : c.RangeMap ℕ) × (index_by_addr c xs ≡ some m)
    unfolding index_by_addr
    index_by_addr_total c xs =
        let (m, made, normal) =
          into_rangemap_safe_total c (valid_entries (indexed 0 xs)) (entries-AllRanges 0 xs) in
        (m, into_rangemap_safe_agree c (indexed 0 xs) ∙ made)

    pub index_by_addr_sound :
        (c : RangeCrate) (xs : List A) (m : c.RangeMap ℕ) (a i : ℕ)
        → index_by_addr c xs ≡ some m
        → c.get m a ≡ some i
        → (r : Range) × HasRange xs i r × Inside a r
    unfolding index_by_addr
    index_by_addr_sound c xs m a i made found =
        let covers =
          into_rangemap_safe_sound c (valid_entries (indexed 0 xs)) m a i (entries-AllRanges 0 xs)
            (sym (into_rangemap_safe_agree c (indexed 0 xs)) ∙ made) found in
        let (r, stands, within) = In-of_Covers (valid_entries (indexed 0 xs)) a i covers in
        let (j, e, has) = In-indexed 0 xs r i stands in
        (r, subst (λ (k : ℕ). HasRange xs k r) (omega (arith, e)) has, within)

    pub index_by_addr_complete :
        (c : RangeCrate) (xs : List A) (m : c.RangeMap ℕ) (a i : ℕ) (r : Range)
        → index_by_addr c xs ≡ some m
        → HasRange xs i r
        → ((j b : ℕ) (s : Range) → HasRange xs j s → Inside b r → Inside b s → j ≡ i)
        → Inside a r
        → c.get m a ≡ some i
    unfolding index_by_addr
    index_by_addr_complete c xs m a i r made has alone within =
        into_rangemap_safe_complete c (valid_entries (indexed 0 xs)) m r i a
          (entries-AllRanges 0 xs) (sym (into_rangemap_safe_agree c (indexed 0 xs)) ∙ made)
          (subst (λ (k : ℕ). In (r, k) (valid_entries (indexed 0 xs))) (omega arith)
            (indexed-In 0 xs r i has))
          (λ b u p covers.
            let (s, stands, q) = In-of_Covers (valid_entries (indexed 0 xs)) b u covers in
            let (j, e, has2) = In-indexed 0 xs s u stands in
            e ∙ omega (arith, alone j b s has2 p q))
          within

    -- What is answered for an address: nothing, or an element whose range holds it.
    abbrev pub Answers : List A → ℕ → Option A → Type 0
    Answers xs a none = Unit
    Answers xs a (some x) = In x xs × ((r : Range) × (range x ≡ some r) × Inside a r)

    pub element_at_sound :
        (c : RangeCrate) (xs : List A) (m : c.RangeMap ℕ) (a : ℕ)
        → index_by_addr c xs ≡ some m
        → (o : Option A) × (element_at c xs m a ≡ some o) × Answers xs a o
    unfolding element_at
    element_at_sound c xs m a made =
        go (c.get m a) (λ i found. index_by_addr_sound c xs m a i made found)
      where
        go :
            (o : Option ℕ)
            → ((i : ℕ) → o ≡ some i → (r : Range) × HasRange xs i r × Inside a r)
            → (p : Option A) × (picked xs o ≡ some p) × Answers xs a p
        go none h = (none, refl, tt)
        go (some i) h =
            let (r, (x, e, has), within) = h i refl in
            (some x, ap present e, (In-of_get_elem? xs i x e, (r, has, within)))

    pub element_at_complete :
        (c : RangeCrate) (xs : List A) (m : c.RangeMap ℕ) (a i : ℕ) (x : A) (r : Range)
        → index_by_addr c xs ≡ some m
        → get_elem? xs i ≡ some x
        → range x ≡ some r
        → ((j b : ℕ) (s : Range) → HasRange xs j s → Inside b r → Inside b s → j ≡ i)
        → Inside a r
        → element_at c xs m a ≡ some (some x)
    unfolding element_at
    element_at_complete c xs m a i x r made e has alone within =
        ap (picked xs) (index_by_addr_complete c xs m a i r made (x, e, has) alone within)
        ∙ ap present e
