-- ===== src/RangeMapSafe/Finished.antt =====
-- What the two functions return: a map, never a panic, and which addresses it answers.
use rust_minidump.Base.{
  ℕ, ◌≤◌, ◌≡◌, ◌↔◌, refl, sym, ap, ◌∙◌, Option, none, some, List, [], ◌∷◌, PartialEq, arith, All,
  In, All-In, some_inj, inl, inr,
}
use rust_minidump.Ranges.{Range, IsRange, Inside, Entries, IsNormal, RangeCrate, find_entry}
use rust_minidump.RangeMapSafe.{push_all, rev_onto, into_rangemap_safe}
use rust_minidump.RangeMapSafe.Sort.{
  IsAscending, sort_by_key, sort_by_key-In, sort_by_key-IsAscending,
}
use rust_minidump.RangeMapSafe.Disjoint.{AllRanges, push_all-IsStack, rev_onto-IsNormal}
use rust_minidump.RangeMapSafe.Covers.{Covers, Agrees, push_all_sound, push_all_complete}
use rust_minidump.RangeMapSafe.Lookup.{
  Covers-of_In, In-of_Covers, Covers-rev_onto, Covers-of_find_entry, find_entry_of_Covers,
}

pub All-of_In : {A : Type 0} (P : A → Type 0) (xs : List A) → ((a : A) → In a xs → P a) → All P xs
All-of_In P [] h = tt
All-of_In P (x ∷ xs) h = (h x (inl refl), All-of_In P xs (λ a i. h a (inr i)))

-- The entries that have a range.
abbrev pub valid_entries : {V : Type 0} → List (Option Range × V) → Entries V
valid_entries [] = []
valid_entries ((none, v) ∷ l) = valid_entries l
valid_entries ((some r, v) ∷ l) = (r, v) ∷ valid_entries l

module _ {V : Type 0} ⦃e : PartialEq V⦄ (c : RangeCrate) where
  open c use {
    RangeMap, try_from_iter, get, ranges_values, try_from_iter-IsNormal, get-ranges_values,
  }

  abbrev finished : Entries V → Option (RangeMap V)
  finished sorted = try_from_iter (rev_onto (push_all sorted []) [])

  -- `sorted` is `input` in another order.
  abbrev SameEntries : Entries V → Entries V → Type 0
  SameEntries sorted input = (r : Range) (v : V) → In (r, v) sorted ↔ In (r, v) input

  SameEntries-Covers :
      (xs ys : Entries V) → SameEntries xs ys → (a : ℕ) (v : V) → Covers xs a v → Covers ys a v
  SameEntries-Covers xs ys same a v h =
      let (r, i, p) = In-of_Covers xs a v h in Covers-of_In ys r v a ((same r v).0 i) p

  SameEntries-AllRanges :
      (sorted input : Entries V) → SameEntries sorted input → AllRanges input → AllRanges sorted
  SameEntries-AllRanges sorted input same h =
      All-of_In (λ x. IsRange x.0) sorted
        (λ x i. All-In (λ x. IsRange x.0) x input h ((same x.0 x.1).0 i))

  abbrev built : Entries V → Entries V
  built sorted = rev_onto (push_all sorted []) []

  built-IsNormal : (sorted : Entries V) → AllRanges sorted → IsNormal (built sorted)
  built-IsNormal sorted h = rev_onto-IsNormal (push_all sorted []) (push_all-IsStack sorted [] h tt)

  built_sound : (sorted : Entries V) (a : ℕ) (v : V) → Covers (built sorted) a v → Covers sorted a v
  built_sound sorted a v h =
      ground
        (arith, (Covers-rev_onto (push_all sorted []) [] a v).0 h, push_all_sound sorted [] a v)

  -- The crate takes the vector as it is.
  values-finished :
      (sorted : Entries V) (m : RangeMap V)
      → AllRanges sorted
      → finished sorted ≡ some m
      → ranges_values m ≡ built sorted
  values-finished sorted m h made =
      let (m', made', same) = try_from_iter-IsNormal (built sorted) (built-IsNormal sorted h) in
      ap ranges_values (some_inj (sym made ∙ made')) ∙ same

  finish_sound :
      (sorted : Entries V) (m : RangeMap V) (a : ℕ) (v : V)
      → AllRanges sorted
      → finished sorted ≡ some m
      → get m a ≡ some v
      → Covers sorted a v
  finish_sound sorted m a v h made found = built_sound sorted a v (
      Covers-of_find_entry (built sorted) a v (
        ap (λ (l : Entries V). find_entry l a) (sym (values-finished sorted m h made))
        ∙ sym (get-ranges_values m a)
        ∙ found))

  finish_complete :
      (sorted : Entries V) (m : RangeMap V) (r : Range) (v : V) (a : ℕ)
      → AllRanges sorted
      → IsAscending (λ x. x.0.start) sorted
      → finished sorted ≡ some m
      → In (r, v) sorted
      → Agrees r v sorted
      → Inside a r
      → get m a ≡ some v
  finish_complete sorted m r v a h asc made i agrees p =
      get-ranges_values m a
      ∙ ap (λ (l : Entries V). find_entry l a) (values-finished sorted m h made)
      ∙ find_entry_of_Covers (built sorted) a v (built-IsNormal sorted h) (
          (Covers-rev_onto (push_all sorted []) [] a v).1 (
            inl (
              push_all_complete 0 sorted [] r v a h asc (above sorted) tt agrees
                (λ b u q d. absurd d) i p)))
    where
      above : (l : Entries V) → All (λ (x : Range × V). 0 ≤ x.0.start) l
      above l = All-of_In (λ (x : Range × V). 0 ≤ x.0.start) l (λ x j. omega arith)

  same_sorted : (input : Entries V) → SameEntries (sort_by_key c.range_le (λ x. x.0) input) input
  same_sorted input r v = sort_by_key-In c.range_le (λ x. x.0) input (r, v)

  sorted-IsAscending :
      (input : Entries V) → IsAscending (λ x. x.0.start) (sort_by_key c.range_le (λ x. x.0) input)
  sorted-IsAscending input =
      sort_by_key-IsAscending c.range_le (λ x. x.0) (λ r. r.start) c.range_le-start c.range_le-false
        input

  sorted-AllRanges :
      (input : Entries V) → AllRanges input → AllRanges (sort_by_key c.range_le (λ x. x.0) input)
  sorted-AllRanges input =
      SameEntries-AllRanges (sort_by_key c.range_le (λ x. x.0) input) input (same_sorted input)

  -- On ranges that `Range::new` accepts, whatever their order and however they overlap,
  -- `into_rangemap_safe` never panics, and its map holds ascending, disjoint ranges.
  pub into_rangemap_safe_total :
      (input : Entries V)
      → AllRanges input
      → (m : RangeMap V) × (into_rangemap_safe c input ≡ some m) × IsNormal (ranges_values m)
  unfolding into_rangemap_safe
  into_rangemap_safe_total input h =
      let sorted = sort_by_key c.range_le (λ x. x.0) input in
      let normal = built-IsNormal sorted (sorted-AllRanges input h) in
      let (m, made, same) = try_from_iter-IsNormal (built sorted) normal in
      (m, made, rw same normal)

  -- A value that the map gives for an address is the value of a range of the input that holds it.
  pub into_rangemap_safe_sound :
      (input : Entries V) (m : RangeMap V) (a : ℕ) (v : V)
      → AllRanges input
      → into_rangemap_safe c input ≡ some m
      → get m a ≡ some v
      → Covers input a v
  unfolding into_rangemap_safe
  into_rangemap_safe_sound input m a v h made found =
      SameEntries-Covers (sort_by_key c.range_le (λ x. x.0) input) input (same_sorted input) a v
        (finish_sound _ m a v (sorted-AllRanges input h) made found)

  -- A range that no range with another value meets is in the map whole, with its value.
  pub into_rangemap_safe_complete :
      (input : Entries V) (m : RangeMap V) (r : Range) (v : V) (a : ℕ)
      → AllRanges input
      → into_rangemap_safe c input ≡ some m
      → In (r, v) input
      → Agrees r v input
      → Inside a r
      → get m a ≡ some v
  unfolding into_rangemap_safe
  into_rangemap_safe_complete input m r v a h made i agrees p =
      let sorted = sort_by_key c.range_le (λ x. x.0) input in
      finish_complete sorted m r v a (sorted-AllRanges input h) (sorted-IsAscending input) made
        ((same_sorted input r v).1 i)
        (λ b u q d. agrees b u q (SameEntries-Covers sorted input (same_sorted input) b u d)) p
