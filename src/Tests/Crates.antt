-- ===== src/Tests/Crates.antt =====
-- A concrete range map and a concrete search, which meet what is assumed of them.
use rust_minidump.Base.{
  ℕ, zero, suc, ◌<◌, ◌≤◌, ◌≡◌, ◌↔◌, refl, Bool, true, false, ◌&&◌, Option, none, some, List, [],
  ◌∷◌, All, All-get, arith, leb, ltb, if◌then◌else◌, get_elem?,
}
use rust_minidump.Ranges.{Range, RangeCrate, Entries, IsNormal, find_entry}
use rust_minidump.SymFile.Search.{
  Side, less, equal, greater, SearchResult, found, insert_at, Ascends, Located, BinarySearch,
}

abbrev pub overlaps : {V : Type 0} → Range → Entries V → Bool
overlaps r [] = false
overlaps r ((s, w) ∷ l) = leb s.start r.end

-- `true` if each range ends before the next one starts.
abbrev pub disjoint : {V : Type 0} → Entries V → Bool
disjoint [] = true
disjoint ((r, v) ∷ l) = (if overlaps r l then false else true) && disjoint l

disjoint_of_IsNormal : {V : Type 0} (l : Entries V) → IsNormal l → disjoint l ≡ true
disjoint_of_IsNormal [] h = refl
disjoint_of_IsNormal ((r, v) ∷ []) h = refl
disjoint_of_IsNormal ((r, v) ∷ (s, w) ∷ l) h = ground (arith, disjoint_of_IsNormal ((s, w) ∷ l) h.3)

abbrev pub list_try : {V : Type 0} → Entries V → Option (Entries V)
list_try l = if disjoint l then some l else none

pub list_try-IsNormal :
    {V : Type 0} (l : Entries V) → IsNormal l → (m : Entries V) × (list_try l ≡ some m) × (m ≡ l)
list_try-IsNormal l h = (l, rw (disjoint_of_IsNormal l h), refl)

abbrev pub range_le : Range → Range → Bool
range_le r s = if ltb r.start s.start then true else leb r.start s.start && leb r.end s.end

pub range_le_start : (r s : Range) → range_le r s ≡ true → r.start ≤ s.start
range_le_start r s h = ground arith

pub range_le_false : (r s : Range) → range_le r s ≡ false → s.start ≤ r.start
range_le_false r s h = ground arith

abbrev pub meets : Range → Range → Bool
meets r s = leb r.start s.end && leb s.start r.end

pub meets_iff : (r s : Range) → (meets r s ≡ true) ↔ ((r.start ≤ s.end) × (s.start ≤ r.end))
meets_iff r s = (λ h. ground arith, λ h. ground arith)

abbrev pub list_crate : RangeCrate
list_crate = record {
  range_le = range_le;
  range_le-start = range_le_start;
  range_le-false = range_le_false;
  intersects = meets;
  intersects_iff = meets_iff;
  RangeMap = Entries;
  try_from_iter = list_try;
  get = find_entry;
  ranges_values = λ l. l;
  try_from_iter-IsNormal = list_try-IsNormal;
  get-ranges_values = λ m a. refl;
}

abbrev pub bump : SearchResult → SearchResult
bump (found i) = found (suc i)
bump (insert_at i) = insert_at (suc i)

abbrev pub pick : Side → SearchResult → SearchResult
pick less r = bump r
pick equal r = found 0
pick greater r = insert_at 0

-- The leftmost match.
abbrev pub linear : {A : Type 0} → (A → Side) → List A → SearchResult
linear f [] = insert_at 0
linear f (x ∷ xs) = pick (f x) (linear f xs)

Located-bump :
    {A : Type 0} (f : A → Side) (x : A) (xs : List A) (r : SearchResult)
    → f x ≡ less
    → Located f xs r
    → Located f (x ∷ xs) (bump r)
Located-bump f x xs (found i) e h = h
Located-bump {A} f x xs (insert_at i) e (fits, before, after) = (omega arith, before', after')
  where
    before' : (j : ℕ) (y : A) → get_elem? (x ∷ xs) j ≡ some y → j < suc i → f y ≡ less
    before' zero y d lt = ground arith
    before' (suc j) y d lt = before j y d (omega arith)

    after' : (j : ℕ) (y : A) → get_elem? (x ∷ xs) j ≡ some y → suc i ≤ j → f y ≡ greater
    after' zero y d le = absurd (omega arith)
    after' (suc j) y d le = after j y d (omega arith)

Located-greater :
    {A : Type 0} (f : A → Side) (xs : List A)
    → All (λ y. f y ≡ greater) xs
    → Located f xs (insert_at 0)
Located-greater f xs h = (
  omega arith,
  λ j y d lt. absurd (omega arith),
  λ j y d le. All-get (λ y. f y ≡ greater) xs j y h d,
)

pub linear-Located :
    {A : Type 0} (f : A → Side) (xs : List A) → Ascends f xs → Located f xs (linear f xs)
linear-Located f [] h = Located-greater f [] tt
linear-Located f (x ∷ xs) h = go (f x) refl (linear-Located f xs h.2)
  where
    go :
        (s : Side)
        → f x ≡ s
        → Located f xs (linear f xs)
        → Located f (x ∷ xs) (pick s (linear f xs))
    go less e ih = Located-bump f x xs (linear f xs) e ih
    go equal e ih = (x, refl, e)
    go greater e ih = Located-greater f (x ∷ xs) (e, h.1 e)

abbrev pub linear_search : BinarySearch
linear_search = record { binary_search_by = linear; located = linear-Located }
