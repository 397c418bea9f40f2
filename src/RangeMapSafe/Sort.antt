-- ===== src/RangeMapSafe/Sort.antt =====
-- `slice::sort_by_key`: a stable sort by a key. It keeps the elements, and sorts them by any
-- measure that the order of the keys respects.
use rust_minidump.Base.{
  ℕ, ◌≤◌, ◌≡◌, ◌↔◌, Bool, true, false, List, [], ◌∷◌, if◌then◌else◌, In, All, Pairs, arith, inl,
  inr, Bool-cases,
}

-- Ascending by a measure.
abbrev pub IsAscending : {A : Type 0} → (A → ℕ) → List A → Type 0
IsAscending f [] = Unit
IsAscending f (x ∷ xs) = All (λ y. f x ≤ f y) xs × IsAscending f xs

module _ {K A : Type 0} (le : K → K → Bool) (key : A → K) where
  unfoldable pub insert_by : A → List A → List A
  insert_by x [] = x ∷ []
  insert_by x (y ∷ ys) = if le (key x) (key y) then x ∷ y ∷ ys else y ∷ insert_by x ys

  unfoldable pub sort_by_key : List A → List A
  unfolding insert_by
  sort_by_key [] = []
  sort_by_key (x ∷ xs) = insert_by x (sort_by_key xs)

  insert_by-In : (x : A) (ys : List A) (a : A) → In a (insert_by x ys) ↔ In a (x ∷ ys)
  unfolding insert_by
  insert_by-In x [] a = (λ h. h, λ h. h)
  insert_by-In x (y ∷ ys) a =
      (λ h. ground (arith, (insert_by-In x ys a).0), λ h. ground (arith, (insert_by-In x ys a).1))

  -- The sort keeps the elements.
  pub sort_by_key-In : (xs : List A) (a : A) → In a (sort_by_key xs) ↔ In a xs
  unfolding sort_by_key
  sort_by_key-In [] a = (λ h. h, λ h. h)
  sort_by_key-In (x ∷ xs) a = (
    λ h. ground (arith, (insert_by-In x (sort_by_key xs) a).0 h, (sort_by_key-In xs a).0),
    λ h. (insert_by-In x (sort_by_key xs) a).1 (ground (arith, (sort_by_key-In xs a).1)),
  )

  module _ (m : K → ℕ) (le-true : (k l : K) → le k l ≡ true → m k ≤ m l)
      (le-false : (k l : K) → le k l ≡ false → m l ≤ m k) where
    abbrev measure : A → ℕ
    measure x = m (key x)

    insert_by-All :
        (n : ℕ) (x : A) (ys : List A)
        → n ≤ m (key x)
        → All (λ y. n ≤ m (key y)) ys
        → All (λ y. n ≤ m (key y)) (insert_by x ys)
    unfolding insert_by
    insert_by-All n x [] p q = (p, tt)
    insert_by-All n x (y ∷ ys) p q = ground (arith, insert_by-All n x ys p q.1)

    All-le :
        (n k : ℕ) (ys : List A) → n ≤ k → All (λ y. k ≤ m (key y)) ys → All (λ y. n ≤ m (key y)) ys
    All-le n k [] p q = tt
    All-le n k (y ∷ ys) p q = (omega arith, All-le n k ys p q.1)

    insert_by-IsAscending :
        (x : A) (ys : List A) → IsAscending measure ys → IsAscending measure (insert_by x ys)
    unfolding insert_by
    insert_by-IsAscending x [] h = (tt, tt)
    insert_by-IsAscending x (y ∷ ys) h = elim (Bool-cases (le (key x) (key y))) [
      | inl e ↦ rw e (
        (
          le-true (key x) (key y) e,
          All-le (m (key x)) (m (key y)) ys (le-true (key x) (key y) e) h.0,
        ),
        h,
      )
      | inr e ↦ rw e (
        insert_by-All (m (key y)) x ys (le-false (key x) (key y) e) h.0,
        insert_by-IsAscending x ys h.1,
      )
    ]

    pub sort_by_key-IsAscending : (xs : List A) → IsAscending (λ x. m (key x)) (sort_by_key xs)
    unfolding sort_by_key
    sort_by_key-IsAscending [] = tt
    sort_by_key-IsAscending (x ∷ xs) =
        insert_by-IsAscending x (sort_by_key xs) (sort_by_key-IsAscending xs)

-- Sorted by a relation that the comparison decides.
module _ {A : Type 0} (le : A → A → Bool) (R : A → A → Type 0)
    (le-true : (x y : A) → le x y ≡ true → R x y) (le-false : (x y : A) → le x y ≡ false → R y x)
    (R_trans : (x y z : A) → R x y → R y z → R x z) where
  insert_by-All_R :
      (z x : A) (ys : List A) → R z x → All (R z) ys → All (R z) (insert_by le (λ a. a) x ys)
  unfolding insert_by
  insert_by-All_R z x [] p q = (p, tt)
  insert_by-All_R z x (y ∷ ys) p q = elim (Bool-cases (le x y)) [
    | inl e ↦ rw e (p, q)
    | inr e ↦ rw e (q.0, insert_by-All_R z x ys p q.1)
  ]

  All-R-trans : (x y : A) (ys : List A) → R x y → All (R y) ys → All (R x) ys
  All-R-trans x y [] p q = tt
  All-R-trans x y (z ∷ zs) p q = (R_trans x y z p q.0, All-R-trans x y zs p q.1)

  insert_by-Pairs : (x : A) (ys : List A) → Pairs R ys → Pairs R (insert_by le (λ a. a) x ys)
  unfolding insert_by
  insert_by-Pairs x [] h = (tt, tt)
  insert_by-Pairs x (y ∷ ys) h = elim (Bool-cases (le x y)) [
    | inl e ↦ rw e ((le-true x y e, All-R-trans x y ys (le-true x y e) h.0), h)
    | inr e ↦ rw e (insert_by-All_R y x ys (le-false x y e) h.0, insert_by-Pairs x ys h.1)
  ]

  pub sort_by_key-Pairs : (xs : List A) → Pairs R (sort_by_key le (λ a. a) xs)
  unfolding sort_by_key
  sort_by_key-Pairs [] = tt
  sort_by_key-Pairs (x ∷ xs) = insert_by-Pairs x (sort_by_key le (λ a. a) xs) (sort_by_key-Pairs xs)
