-- ===== src/SymFile/Parser/Finish/Sorted.antt =====
-- What the derived orders sort inlined calls and PUBLIC symbols by.
use rust_minidump.Base.{
  ℕ, ◌<◌, ◌≤◌, ◌≡◌, refl, Bool, true, false, List, [], ◌∷◌, In, inl, inr, ◌⊎◌, arith,
}
use rust_minidump.RangeMapSafe.Sort.{sort_by_key, sort_by_key-In, sort_by_key-Pairs}
use rust_minidump.SymFile.Types.{PublicSymbol, Inlinee}
use rust_minidump.SymFile.Types.Inlinees.{KeyLe, IsSortedInlinees}
use rust_minidump.SymFile.Queries.{max_depth}
use rust_minidump.SymFile.Queries.Nearest.{IsSortedPublics}
use rust_minidump.SymFile.Parser.Finish.{lex, inlinee_le, public_le, SourceLine-PartialEq}

inlinee_le-true : (x y : Inlinee) → inlinee_le x y ≡ true → KeyLe x y
inlinee_le-true x y h = key x.depth y.depth x.address y.address _ h
  where
    key :
        (d e a b : ℕ) (rest : Bool) → lex d e (lex a b rest) ≡ true → (d < e) ⊎ ((d ≡ e) × (a ≤ b))
    key d e a b rest h = ground arith

inlinee_le-false : (x y : Inlinee) → inlinee_le x y ≡ false → KeyLe y x
inlinee_le-false x y h = key x.depth y.depth x.address y.address _ h
  where
    key :
        (d e a b : ℕ) (rest : Bool) → lex d e (lex a b rest) ≡ false → (e < d) ⊎ ((e ≡ d) × (b ≤ a))
    key d e a b rest h = ground arith

KeyLe-trans : (x y z : Inlinee) → KeyLe x y → KeyLe y z → KeyLe x z
KeyLe-trans x y z p q = ground arith

pub sorted_inlinees : (l : List Inlinee) → IsSortedInlinees (sort_by_key inlinee_le (λ x. x) l)
sorted_inlinees = sort_by_key-Pairs inlinee_le KeyLe inlinee_le-true inlinee_le-false KeyLe-trans

pub sorted_publics : (l : List PublicSymbol) → IsSortedPublics (sort_by_key public_le (λ x. x) l)
sorted_publics =
    sort_by_key-Pairs public_le (λ x y. x.address ≤ y.address)
      (λ x y h. first x.address y.address _ h) (λ x y h. last x.address y.address _ h)
      (λ x y z p q. omega arith)
  where
    first : (a b : ℕ) (rest : Bool) → lex a b rest ≡ true → a ≤ b
    first a b rest h = ground arith

    last : (a b : ℕ) (rest : Bool) → lex a b rest ≡ false → b ≤ a
    last a b rest h = ground arith

depth_within : (n : ℕ) (l : List Inlinee) → ((x : Inlinee) → In x l → x.depth ≤ n) → max_depth l ≤ n
depth_within n [] h = omega arith
depth_within n (x ∷ xs) h = omega (arith, h x (inl refl), depth_within n xs (λ y i. h y (inr i)))

depth-In : (x : Inlinee) (l : List Inlinee) → In x l → x.depth ≤ max_depth l
depth-In x [] i = absurd i
depth-In x (y ∷ ys) (inl e) = ground arith
depth-In x (y ∷ ys) (inr i) = omega (arith, depth-In x ys i)

pub sorted_depth : (l : List Inlinee) → max_depth (sort_by_key inlinee_le (λ x. x) l) ≤ max_depth l
sorted_depth l =
    depth_within (max_depth l) (sort_by_key inlinee_le (λ x. x) l)
      (λ x i. depth-In x l ((sort_by_key-In inlinee_le (λ x. x) l x).0 i))
