-- ===== src/RangeMapSafe.antt =====
-- minidump-common/src/traits.rs `IntoRangeMapSafe::into_rangemap_safe`, and its copy
-- `into_rangemap_safe` in breakpad-symbols/src/sym_file/parser.rs.
-- The vector under construction is kept last element first; `none` stands for a panic of `unwrap`.
pub mod Sort
pub mod Disjoint
pub mod Covers
pub mod Lookup
pub mod Finished
pub mod Agreement
use rust_minidump.Base.{
  ℕ, ◌+◌, ◌-◌, min, max, ◌^◌, Bool, true, false, not, ◌&&◌, Option, none, some, List, [], ◌∷◌,
  PartialEq, ◌==◌, leb, if◌then◌else◌, u64_mod,
}
use rust_minidump.Ranges.{Range, RangeCrate, Entries}
use Sort.{sort_by_key}

-- The finished vector, first element first, before what is already out.
unfoldable pub rev_onto : {A : Type 0} → List A → List A → List A
rev_onto [] out = out
rev_onto (x ∷ xs) out = rev_onto xs (x ∷ out)

-- `u64::saturating_add`
abbrev pub saturating_add : ℕ → ℕ → ℕ
saturating_add a b = min (a + b) (u64_mod - 1)

-- `Option`'s order puts `None` first.
abbrev pub option_le : RangeCrate → Option Range → Option Range → Bool
option_le c none s = true
option_le c (some r) none = false
option_le c (some r) (some s) = c.range_le r s

module _ {V : Type 0} ⦃e : PartialEq V⦄ where
  -- One round of the loop: skip, widen the last range, or push.
  unfoldable pub push_range : Range → V → Entries V → Entries V
  push_range range val [] = (range, val) ∷ []
  push_range range val ((last_range, last_val) ∷ vec) =
      if leb range.start last_range.end && not (val == last_val)
      then (last_range, last_val) ∷ vec
      else if leb range.start (saturating_add last_range.end 1) && (val == last_val)
      then (record last_range { end = max range.end last_range.end }, last_val) ∷ vec
      else (range, val) ∷ (last_range, last_val) ∷ vec

  unfoldable pub push_all : Entries V → Entries V → Entries V
  push_all [] vec = vec
  push_all ((range, val) ∷ input) vec = push_all input (push_range range val vec)

  -- The trait's loop also drops the entries without a range.
  unfoldable pub push_valid : List (Option Range × V) → Entries V → Entries V
  push_valid [] vec = vec
  push_valid ((none, val) ∷ input) vec = push_valid input vec
  push_valid ((some range, val) ∷ input) vec = push_valid input (push_range range val vec)

  module _ (c : RangeCrate) where
    open c use {range_le, RangeMap, try_from_iter}

    -- The function of parser.rs.
    unfoldable pub into_rangemap_safe : Entries V → Option (RangeMap V)
    into_rangemap_safe input =
        try_from_iter (rev_onto (push_all (sort_by_key range_le (λ x. x.0) input) []) [])

    -- The trait's method.
    unfoldable pub into_rangemap_safe_opt : List (Option Range × V) → Option (RangeMap V)
    into_rangemap_safe_opt input =
        try_from_iter (rev_onto (push_valid (sort_by_key (option_le c) (λ x. x.0) input) []) [])
