-- ===== src/SymFile/Queries/Publics.antt =====
-- Which PUBLIC symbol an address without a FUNC gets.
use rust_minidump.Base.{
  ℕ, zero, suc, ◌<◌, ◌≤◌, ◌≡◌, ◌↔◌, refl, sym, subst, ap, ◌∙◌, Option, none, some, some_inj, [],
  ◌∷◌, get_elem?, All, All-get, Pairs, Pairs-get, arith, inl, inr, trichotomy,
}
use rust_minidump.Ranges.{Range, IsRange, Inside, Entries, IsNormal, RangeCrate}
use rust_minidump.SymFile.Search.{
  SearchResult, found, insert_at, BinarySearch, Located, get_elem?-lt,
}
use rust_minidump.SymFile.Types.{PublicSymbol, Function, SymbolFile}
use rust_minidump.SymFile.Queries.{
  find_nearest_public, compare_start, before, prev_func, unless_truncated, public_for,
}
use rust_minidump.SymFile.Queries.Nearest.{
  IsSortedPublics, IsNearest, find_nearest_public_cases, find_nearest_public_iff,
}
use rust_minidump.SymFile.Queries.Starts.{
  StartLe, starts_ascend, All-ranges, Ascends-compare_start, find_entry-none,
}

module _ {c : RangeCrate} (search : BinarySearch) (file : SymbolFile c) (addr : ℕ) where
  -- No FUNC starts between the symbol and the address.
  abbrev pub IsUncut : PublicSymbol → Entries (Function c) → Type 0
  IsUncut p = All (λ x. p.address ≤ x.1.address → addr < x.1.address)

  abbrev pub StartsRight : Range × Function c → Type 0
  StartsRight x = x.0.start ≡ x.1.address

  IsUncut-by_index :
      (p : PublicSymbol) (l : Entries (Function c))
      → ((j : ℕ) (x : Range × Function c)
          → get_elem? l j ≡ some x
          → p.address ≤ x.1.address
          → addr < x.1.address)
      → IsUncut p l
  IsUncut-by_index p [] h = tt
  IsUncut-by_index p (x ∷ xs) h = (h zero x refl, IsUncut-by_index p xs (λ j y e. h (suc j) y e))

  -- A FUNC that does not start after `y` does not reach a symbol that is after `y`.
  not_after :
      (p : PublicSymbol) (y x : Range × Function c)
      → unless_truncated search file p (some y) ≡ some p
      → x.0.start ≤ y.0.start
      → y.0.start ≡ y.1.address
      → x.0.start ≡ x.1.address
      → p.address ≤ x.1.address
      → ⊥
  not_after p y x e le starts_y starts_x k = ground arith

  no_later :
      (i j : ℕ) (y x : Range × Function c)
      → Pairs StartLe (c.ranges_values file.functions)
      → j ≤ i
      → get_elem? (c.ranges_values file.functions) i ≡ some y
      → get_elem? (c.ranges_values file.functions) j ≡ some x
      → x.0.start ≤ y.0.start
  no_later i j y x pairs le d f = elim (trichotomy j i) [
    | inl lt ↦ Pairs-get StartLe (c.ranges_values file.functions) j i x y pairs lt f d
    | inr (inl same) ↦
        ap_start (some_inj (sym f ∙ ap (get_elem? (c.ranges_values file.functions)) same ∙ d))
    | inr (inr gt) ↦ absurd (omega arith)
  ]
    where
      ap_start : x ≡ y → x.0.start ≤ y.0.start
      ap_start e = subst (λ z. x.0.start ≤ z.0.start) e (omega arith)

  truncated_iff :
      (p : PublicSymbol) (r : SearchResult)
      → p.address ≤ addr
      → Pairs StartLe (c.ranges_values file.functions)
      → All (λ x. IsRange x.0) (c.ranges_values file.functions)
      → All StartsRight (c.ranges_values file.functions)
      → All (λ x. Inside addr x.0 → ⊥) (c.ranges_values file.functions)
      → Located (compare_start addr) (c.ranges_values file.functions) r
      → (unless_truncated search file p (before search file r) ≡ some p)
        ↔ IsUncut p (c.ranges_values file.functions)
  truncated_iff p (found i) le pairs ranges right free (x, d, eq) = absurd (
      All-get (λ x. Inside addr x.0 → ⊥) (c.ranges_values file.functions) i x free d
        (
          ground arith,
          ground (
            arith,
            (All-get (λ x. IsRange x.0) (c.ranges_values file.functions) i x ranges d).ordered,
          ),
        ))
  truncated_iff p (insert_at zero) le pairs ranges right free (_, lows, highs) = (
    λ e. IsUncut-by_index p (c.ranges_values file.functions) (λ j x d k. ground (
      arith,
      highs j x d (omega arith),
      All-get StartsRight (c.ranges_values file.functions) j x right d,
    )),
    λ u. refl,
  )
  truncated_iff p (insert_at (suc i)) le pairs ranges right free (lt, lows, highs) =
      let l = c.ranges_values file.functions in
      let (y, d) = get_elem?-lt l i (omega arith) in
      let starts_at_y : y.0.start ≡ y.1.address = All-get StartsRight l i y right d in
      let low : y.0.start < addr = ground (arith, lows i y d (omega arith)) in
      rw d (
        λ e. IsUncut-by_index p l (λ j x f k. elim (trichotomy j (suc i)) [
          | inl lt' ↦ absurd (
              not_after p y x e (no_later i j y x pairs (omega arith) d f) starts_at_y
                (All-get StartsRight l j x right f) k)
          | inr ge ↦ ground (arith, highs j x f (ground arith), All-get StartsRight l j x right f)
        ]),
        λ u. ground (arith, All-get (λ x. p.address ≤ x.1.address → addr < x.1.address) l i y u d),
      )

  kept :
      (q p : PublicSymbol) (o : Option (Range × Function c))
      → unless_truncated search file q o ≡ some p
      → q ≡ p
  kept q p none h = some_inj h
  kept q p (some (r, f)) h = ground arith

  prev_func_iff :
      c.get file.functions addr ≡ none
      → IsNormal (c.ranges_values file.functions)
      → All StartsRight (c.ranges_values file.functions)
      → (q : PublicSymbol) → q.address ≤ addr
      → (unless_truncated search file q (prev_func search file addr) ≡ some q)
        ↔ IsUncut q (c.ranges_values file.functions)
  unfolding prev_func
  prev_func_iff uncovered normal right q le =
      let l = c.ranges_values file.functions in
      truncated_iff q (search.binary_search_by (compare_start addr) l) le (starts_ascend l normal)
        (All-ranges l normal) right
        (find_entry-none addr l (sym (c.get-ranges_values file.functions addr) ∙ uncovered))
        (search.located (compare_start addr) l
          (Ascends-compare_start addr l (starts_ascend l normal)))

  public_for_as :
      {o : Option PublicSymbol}
      → find_nearest_public file.publics addr ≡ o
      → public_for search file addr ≡ elim o [
        | some q ↦ unless_truncated search file q (prev_func search file addr)
        | none ↦ none
      ]
  unfolding public_for
  public_for_as e =
      ap
        (λ (o : Option PublicSymbol). elim o [
          | some q ↦ unless_truncated search file q (prev_func search file addr)
          | none ↦ none
        ])
        e

  public_for-found :
      (p : PublicSymbol)
      → c.get file.functions addr ≡ none
      → IsNormal (c.ranges_values file.functions)
      → All StartsRight (c.ranges_values file.functions)
      → IsSortedPublics file.publics
      → (public_for search file addr ≡ some p) ↔ (
          (find_nearest_public file.publics addr ≡ some p)
          × IsUncut p (c.ranges_values file.functions))
  public_for-found p uncovered normal right sorted =
      elim (find_nearest_public_cases file.publics addr sorted) [
        | inr (e, all) ↦ rw (public_for_as e, e) (λ h. cc, λ h. cc)
        | inl (q, e, (b, a, split, le, lows, highs)) ↦
            rw (public_for_as e, e)
              (
                λ h.
                    let same : q ≡ p = kept q p (prev_func search file addr) h in
                    (
                      ap some same,
                      subst (λ x. IsUncut x (c.ranges_values file.functions)) same
                          ((prev_func_iff uncovered normal right q le).0 (h ∙ ap some (sym same))),
                    ),
                λ h.
                    let same : p ≡ q = some_inj (sym h.0) in
                    (prev_func_iff uncovered normal right q le).1
                      (subst (λ x. IsUncut x (c.ranges_values file.functions)) same h.1)
                    ∙ ap some (sym same),
              )
      ]

  -- An address that no FUNC covers is given a PUBLIC symbol exactly when the symbol is the nearest one
  -- (it starts at or before the address, none before it in the list starts later than it, and all
  -- after it start after the address) and no FUNC starts between its start and the address. The
  -- PUBLIC symbols are sorted by address, and the FUNC ranges are in order and start at the addresses
  -- of their FUNCs.
  pub public_for_iff :
      (p : PublicSymbol)
      → c.get file.functions addr ≡ none
      → IsNormal (c.ranges_values file.functions)
      → All StartsRight (c.ranges_values file.functions)
      → IsSortedPublics file.publics
      → (public_for search file addr ≡ some p)
        ↔ (IsNearest file.publics addr p × IsUncut p (c.ranges_values file.functions))
  public_for_iff p uncovered normal right sorted =
      let found = public_for-found p uncovered normal right sorted in
      let nearest = find_nearest_public_iff file.publics addr p sorted in
      (λ h. (nearest.0 (found.0 h).0, (found.0 h).1), λ h. found.1 (nearest.1 h.0, h.1))
