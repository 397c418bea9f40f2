-- ===== src/SymFile/Types/Inlinees.antt =====
-- Looking an inlined call up by its depth.
use rust_minidump.Base.{
  ℕ, zero, suc, ◌+◌, ◌<◌, ◌≤◌, ◌≡◌, ◌≢◌, sym, ◌∙◌, some, List, [], ◌∷◌, get_elem?, In, All, All-get,
  All-In, Pairs, Pairs-get, In-of_get_elem?, get_elem?_of_In, arith, ℕ-PartialEq, inl, inr, ◌⊎◌,
  some_inj, trichotomy, u64_mod, >>=-eq-some,
}
use rust_minidump.Ranges.{RangeCrate}
use rust_minidump.SymFile.Search.{
  less, equal, greater, SearchResult, found, insert_at, BinarySearch, Ascends, Located,
  get_elem?-lt,
}
use rust_minidump.SymFile.Types.{
  Function, Inlinee, CallSite, compare_key, candidate, call_site, get_inlinee_at_depth,
}

-- The order of `(depth, address)`, by which the parser sorts the records of a function.
abbrev pub KeyLe : Inlinee → Inlinee → Type 0
KeyLe x y = (x.depth < y.depth) ⊎ ((x.depth ≡ y.depth) × (x.address ≤ y.address))

abbrev pub IsSortedInlinees : List Inlinee → Type 0
IsSortedInlinees = Pairs KeyLe

-- The record `x` covers the address at the depth.
abbrev pub CoversAt : ℕ → ℕ → Inlinee → Type 0
CoversAt depth addr x = (x.depth ≡ depth) × (x.address ≤ addr) × (addr < x.address + x.size)

abbrev pub site_of : Inlinee → CallSite
site_of x = (x.call_file, x.call_line, x.address, x.origin_id)

module _ (depth addr : ℕ) where
  after_equal :
      (x : Inlinee) (xs : List Inlinee)
      → compare_key depth addr x ≡ equal
      → All (KeyLe x) xs
      → All (λ y. compare_key depth addr y ≢ less) xs
  after_equal x [] e h = tt
  after_equal x (y ∷ ys) e h = (λ l. ground arith, after_equal x ys e h.1)

  after_greater :
      (x : Inlinee) (xs : List Inlinee)
      → compare_key depth addr x ≡ greater
      → All (KeyLe x) xs
      → All (λ y. compare_key depth addr y ≡ greater) xs
  after_greater x [] e h = tt
  after_greater x (y ∷ ys) e h = (ground arith, after_greater x ys e h.1)

  pub Ascends-compare_key :
      (xs : List Inlinee) → IsSortedInlinees xs → Ascends (compare_key depth addr) xs
  Ascends-compare_key [] h = tt
  Ascends-compare_key (x ∷ xs) h =
      (λ e. after_equal x xs e h.0, λ e. after_greater x xs e h.0, Ascends-compare_key xs h.1)

  pub call_site_sound :
      (x : Inlinee) (site : CallSite)
      → call_site x depth addr ≡ some site
      → (x.depth ≡ depth) × (addr < x.address + x.size) × (site ≡ site_of x)
  unfolding call_site
  call_site_sound x site h = (ground arith, ground arith, ground arith)

  pub call_site_complete :
      (x : Inlinee)
      → x.address + x.size < u64_mod
      → CoversAt depth addr x
      → call_site x depth addr ≡ some (site_of x)
  unfolding call_site
  call_site_complete x fits h = ground arith

abbrev NestedPair : Inlinee → Inlinee → Type 0
NestedPair x y = x.depth ≡ y.depth → x.address + x.size ≤ y.address

abbrev Sized : Inlinee → Type 0
Sized x = (0 < x.size) × (x.address + x.size < u64_mod)

-- The records at one depth are disjoint, in the order of their addresses.
abbrev pub IsNested : List Inlinee → Type 0
IsNested = Pairs NestedPair

-- No record is empty, and none wraps round the address space.
abbrev pub AllSized : List Inlinee → Type 0
AllSized = All Sized

module _ {c : RangeCrate} (search : BinarySearch) (f : Function c) (depth addr : ℕ) where
  -- Two records that are both at the depth, one covering the address and one starting at or
  -- before it, stand at one index.
  same_index :
      (i j : ℕ) (y x : Inlinee)
      → IsNested f.inlinees
      → AllSized f.inlinees
      → get_elem? f.inlinees i ≡ some y
      → get_elem? f.inlinees j ≡ some x
      → CoversAt depth addr x
      → y.depth ≡ depth
      → y.address ≤ addr
      → (i < j → addr ≤ y.address)
      → get_elem? f.inlinees i ≡ some x
  same_index i j y x nested sized d e covers at_depth before later = elim (trichotomy i j) [
    | inl lt ↦ absurd (
        ground (
          arith,
          Pairs-get NestedPair f.inlinees i j y x nested lt d e,
          All-get Sized f.inlinees i y sized d,
        ))
    | inr (inl same) ↦ rw same e
    | inr (inr gt) ↦ absurd (ground (arith, Pairs-get NestedPair f.inlinees j i x y nested gt e d))
  ]

  candidate_sound :
      (r : SearchResult) (x : Inlinee)
      → Located (compare_key depth addr) f.inlinees r
      → candidate search f r ≡ some x
      → In x f.inlinees × (x.depth ≡ depth → x.address ≤ addr)
  candidate_sound (found i) x h e =
      (In-of_get_elem? f.inlinees i x e, λ d. ground (arith, some_inj (sym h.1 ∙ e)))
  candidate_sound (insert_at zero) x h e = cc
  candidate_sound (insert_at (suc i)) x h e =
      (In-of_get_elem? f.inlinees i x e, λ d. ground (arith, h.1 i x e (omega arith)))

  -- What `get_inlinee_at_depth` returns is the call of a record at that depth that covers the
  -- address, if the records are sorted by depth and address.
  pub get_inlinee_at_depth_sound :
      (site : CallSite)
      → IsSortedInlinees f.inlinees
      → get_inlinee_at_depth search f depth addr ≡ some site
      → (x : Inlinee) × In x f.inlinees × CoversAt depth addr x × (site ≡ site_of x)
  unfolding get_inlinee_at_depth
  get_inlinee_at_depth_sound site sorted h =
      let r = search.binary_search_by (compare_key depth addr) f.inlinees in
      let located =
        search.located (compare_key depth addr) f.inlinees
          (Ascends-compare_key depth addr f.inlinees sorted) in
      let (x, picked, same) = >>=-eq-some (candidate search f r) (λ x. call_site x depth addr) h in
      let (at_depth, before_end, site_eq) = call_site_sound depth addr x site same in
      let (i, after_start) = candidate_sound r x located picked in
      (x, i, (at_depth, after_start at_depth, before_end), site_eq)

  -- The record that covers the address is the one that the search leads to.
  candidate_complete :
      (r : SearchResult) (x : Inlinee) (j : ℕ)
      → IsSortedInlinees f.inlinees
      → IsNested f.inlinees
      → AllSized f.inlinees
      → Located (compare_key depth addr) f.inlinees r
      → get_elem? f.inlinees j ≡ some x
      → CoversAt depth addr x
      → candidate search f r ≡ some x
  candidate_complete (found i) x j sorted nested sized (y, d, eq) e covers =
      same_index i j y x nested sized d e covers (ground arith) (ground arith) (λ lt. ground arith)
  candidate_complete (insert_at zero) x j sorted nested sized h e covers =
      absurd (ground (arith, h.2 j x e (omega arith)))
  candidate_complete (insert_at (suc i)) x j sorted nested sized h e covers =
      elim (trichotomy i j) [
        | inl lt ↦ absurd (ground (arith, h.2 j x e (omega arith)))
        | inr (inl same) ↦ rw same e
        | inr (inr gt) ↦
            let (y, d) = get_elem?-lt f.inlinees i (omega arith) in
            same_index i j y x nested sized d e covers
              (ground
                (arith, h.1 i y d (omega arith), Pairs-get KeyLe f.inlinees j i x y sorted gt e d))
              (ground
                (arith, h.1 i y d (omega arith), Pairs-get KeyLe f.inlinees j i x y sorted gt e d))
              (λ lt. absurd (omega arith))
      ]

  -- A record at the depth that covers the address is found, if the records are sorted by depth and
  -- address, are disjoint at each depth, and each has a size that is not 0 and an end, its address
  -- and size together, below 2 ^ 64.
  pub get_inlinee_at_depth_complete :
      (x : Inlinee)
      → IsSortedInlinees f.inlinees
      → IsNested f.inlinees
      → AllSized f.inlinees
      → In x f.inlinees
      → CoversAt depth addr x
      → get_inlinee_at_depth search f depth addr ≡ some (site_of x)
  unfolding get_inlinee_at_depth
  get_inlinee_at_depth_complete x sorted nested sized i covers =
      let r = search.binary_search_by (compare_key depth addr) f.inlinees in
      let located =
        search.located (compare_key depth addr) f.inlinees
          (Ascends-compare_key depth addr f.inlinees sorted) in
      let (j, e) = get_elem?_of_In f.inlinees x i in
      rw (candidate_complete r x j sorted nested sized located e covers)
        (call_site_complete depth addr x (All-In Sized x f.inlinees sized i).1 covers)
