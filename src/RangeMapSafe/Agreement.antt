-- ===== src/RangeMapSafe/Agreement.antt =====
-- The trait's method and its copy in the symbol parser build the same map.
use rust_minidump.Base.{◌≡◌, refl, ◌∙◌, ap, Option, none, some, List, [], ◌∷◌, PartialEq, arith}
use rust_minidump.Ranges.{Range, Entries, RangeCrate}
use rust_minidump.RangeMapSafe.{
  push_all, push_valid, rev_onto, option_le, into_rangemap_safe, into_rangemap_safe_opt,
}
use rust_minidump.RangeMapSafe.Sort.{insert_by, sort_by_key}
use rust_minidump.RangeMapSafe.Finished.{valid_entries}

module _ {V : Type 0} (c : RangeCrate) where
  abbrev sort_opt : List (Option Range × V) → List (Option Range × V)
  sort_opt = sort_by_key (option_le c) (λ x. x.0)

  abbrev insert_opt : Option Range × V → List (Option Range × V) → List (Option Range × V)
  insert_opt = insert_by (option_le c) (λ x. x.0)

  valid_entries-insert_none :
      (v : V) (l : List (Option Range × V))
      → valid_entries (insert_opt (none, v) l) ≡ valid_entries l
  unfolding insert_by
  valid_entries-insert_none v [] = refl
  valid_entries-insert_none v (x ∷ l) = refl

  valid_entries-insert_some :
      (r : Range) (v : V) (l : List (Option Range × V))
      → valid_entries (insert_opt (some r, v) l)
        ≡ insert_by c.range_le (λ x. x.0) (r, v) (valid_entries l)
  unfolding insert_by
  valid_entries-insert_some r v [] = refl
  valid_entries-insert_some r v ((none, w) ∷ l) = valid_entries-insert_some r v l
  valid_entries-insert_some r v ((some s, w) ∷ l) = ground (arith, valid_entries-insert_some r v l)

  valid_entries-sort :
      (l : List (Option Range × V))
      → valid_entries (sort_opt l) ≡ sort_by_key c.range_le (λ x. x.0) (valid_entries l)
  unfolding sort_by_key
  valid_entries-sort [] = refl
  valid_entries-sort ((none, v) ∷ l) =
      valid_entries-insert_none v (sort_opt l) ∙ valid_entries-sort l
  valid_entries-sort ((some r, v) ∷ l) =
      valid_entries-insert_some r v (sort_opt l)
      ∙ ap (insert_by c.range_le (λ x. x.0) (r, v)) (valid_entries-sort l)

module _ {V : Type 0} ⦃e : PartialEq V⦄ where
  push_valid-eq-push_all :
      (input : List (Option Range × V)) (vec : Entries V)
      → push_valid input vec ≡ push_all (valid_entries input) vec
  unfolding push_valid push_all
  push_valid-eq-push_all [] vec = refl
  push_valid-eq-push_all ((none, v) ∷ input) vec = push_valid-eq-push_all input vec
  push_valid-eq-push_all ((some r, v) ∷ input) vec = push_valid-eq-push_all input _

  -- On any input the trait's `into_rangemap_safe` returns what the parser's copy of it returns on
  -- the entries that have a range.
  pub into_rangemap_safe_agree :
      (c : RangeCrate) (input : List (Option Range × V))
      → into_rangemap_safe_opt c input ≡ into_rangemap_safe c (valid_entries input)
  unfolding into_rangemap_safe into_rangemap_safe_opt
  into_rangemap_safe_agree c input =
      ap (λ (l : Entries V). c.try_from_iter (rev_onto l []))
        (push_valid-eq-push_all (sort_by_key (option_le c) (λ x. x.0) input) []
          ∙ ap (λ (l : Entries V). push_all l []) (valid_entries-sort c input))
