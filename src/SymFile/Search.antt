-- ===== src/SymFile/Search.antt =====
-- `slice::binary_search_by_key` as its documentation states it: on an ascending slice it gives the
-- index of some match, or the index that keeps the order. Which match is not specified.
use rust_minidump.Base.{
  ℕ, zero, suc, ◌<◌, ◌≤◌, ◌≡◌, ◌≢◌, refl, some, List, [], ◌∷◌, All, get_elem?, length, arith,
}

pub data Side : Type 0 where
  less equal greater : Side

pub data SearchResult : Type 0 where
  found : ℕ → SearchResult
  insert_at : ℕ → SearchResult

-- Elements that compare `less`, then `equal`, then `greater`.
abbrev pub Ascends : {A : Type 0} → (A → Side) → List A → Type 0
Ascends f [] = Unit
Ascends f (x ∷ xs) =
    (f x ≡ equal → All (λ y. f y ≢ less) xs)
    × (f x ≡ greater → All (λ y. f y ≡ greater) xs)
    × Ascends f xs

-- What the result says of the slice.
abbrev pub Located : {A : Type 0} → (A → Side) → List A → SearchResult → Type 0
Located {A} f xs (found i) = (x : A) × (get_elem? xs i ≡ some x) × (f x ≡ equal)
Located {A} f xs (insert_at i) =
    (i ≤ length xs)
    × ((j : ℕ) (x : A) → get_elem? xs j ≡ some x → j < i → f x ≡ less)
    × ((j : ℕ) (x : A) → get_elem? xs j ≡ some x → i ≤ j → f x ≡ greater)

pub record BinarySearch : Type 1 where
  pub binary_search_by : {A : Type 0} → (A → Side) → List A → SearchResult
  pub located :
      {A : Type 0} (f : A → Side) (xs : List A)
      → Ascends f xs
      → Located f xs (binary_search_by f xs)

pub get_elem?-lt :
    {A : Type 0} (xs : List A) (i : ℕ) → i < length xs → (x : A) × (get_elem? xs i ≡ some x)
get_elem?-lt [] i h = absurd (omega arith)
get_elem?-lt (x ∷ xs) zero h = (x, refl)
get_elem?-lt (x ∷ xs) (suc i) h = get_elem?-lt xs i (omega arith)
