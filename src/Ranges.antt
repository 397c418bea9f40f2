-- ===== src/Ranges.antt =====
-- The `range_map` crate as the program sees it: ranges with two inclusive ends, their order and
-- their intersection test, and maps from ranges to values. The crate is not part of the
-- repository, so its operations are a parameter with the behaviour that its documentation states.
use rust_minidump.Base.{
  ℕ, ◌≤◌, ◌<◌, ◌+◌, ◌≡◌, ◌↔◌, Bool, true, false, Option, none, some, List, [], ◌∷◌, leb,
  if◌then◌else◌, ◌&&◌, u64_mod,
}

-- `Range<u64>`: `start` and `end` are both inside.
pub record Range : Type 0 where
  pub start : ℕ
  pub end : ℕ

-- What `Range::new` asserts, for 64-bit ends.
pub record IsRange (r : Range) : Type 0 where
  pub ordered : r.start ≤ r.end
  pub end_fits : r.end < u64_mod

abbrev pub Inside : ℕ → Range → Type 0
Inside a r = (r.start ≤ a) × (a ≤ r.end)

abbrev pub inside : ℕ → Range → Bool
inside a r = leb r.start a && leb a r.end

abbrev pub Entries : Type 0 → Type 0
Entries V = List (Range × V)

-- The value of the first entry whose range holds `a`.
abbrev pub find_entry : {V : Type 0} → Entries V → ℕ → Option V
find_entry [] a = none
find_entry ((r, v) ∷ l) a = if inside a r then some v else find_entry l a

-- Ascending, disjoint, and no two adjacent ranges with one value.
abbrev pub IsNormal : {V : Type 0} → Entries V → Type 0
IsNormal [] = Unit
IsNormal ((r, v) ∷ []) = IsRange r
IsNormal ((r, v) ∷ (s, w) ∷ l) =
    IsRange r × (r.end < s.start) × (v ≡ w → r.end + 1 < s.start) × IsNormal ((s, w) ∷ l)

pub record RangeCrate : Type 1 where
  -- `Ord` of `Range`, as the sorts use it
  pub range_le : Range → Range → Bool
  pub range_le-start : (r s : Range) → range_le r s ≡ true → r.start ≤ s.start
  pub range_le-false : (r s : Range) → range_le r s ≡ false → s.start ≤ r.start
  -- `Range::intersects`
  pub intersects : Range → Range → Bool
  pub intersects_iff :
      (r s : Range) → (intersects r s ≡ true) ↔ ((r.start ≤ s.end) × (s.start ≤ r.end))
  -- `RangeMap`; `none` is the error of `try_from_iter`
  pub RangeMap : Type 0 → Type 0
  pub try_from_iter : {V : Type 0} → Entries V → Option (RangeMap V)
  pub get : {V : Type 0} → RangeMap V → ℕ → Option V
  pub ranges_values : {V : Type 0} → RangeMap V → Entries V
  pub try_from_iter-IsNormal :
      {V : Type 0} (l : Entries V)
      → IsNormal l
      → (m : RangeMap V) × (try_from_iter l ≡ some m) × (ranges_values m ≡ l)
  pub get-ranges_values :
      {V : Type 0} (m : RangeMap V) (a : ℕ) → get m a ≡ find_entry (ranges_values m) a
