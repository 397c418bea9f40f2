-- ===== src/SymFile/Queries/Starts.antt =====
-- The starts of a map's ranges ascend, so that they can be searched.
use rust_minidump.Base.{ℕ, ◌<◌, ◌≤◌, ◌≡◌, ◌≢◌, none, [], ◌∷◌, All, Pairs, arith}
use rust_minidump.Ranges.{Range, IsRange, Inside, Entries, IsNormal, find_entry}
use rust_minidump.SymFile.Search.{less, greater, Ascends}
use rust_minidump.SymFile.Queries.{compare_start}

module _ {V : Type 0} where
  abbrev pub StartLe : Range × V → Range × V → Type 0
  StartLe x y = x.0.start ≤ y.0.start

  starts_after : (x : Range × V) (l : Entries V) → IsNormal (x ∷ l) → All (StartLe x) l
  starts_after x [] n = tt
  starts_after (r, v) ((s, w) ∷ l) n = ground (arith, below r.start s l (starts_after (s, w) l n.3))
    where
      below :
          (a : ℕ) (s : Range) (l : Entries V)
          → All (λ y. s.start ≤ y.0.start) l
          → a ≤ s.start
          → All (λ y. a ≤ y.0.start) l
      below a s [] h le = tt
      below a s (y ∷ ys) h le = (omega (arith, h.0), below a s ys h.1 le)

  pub starts_ascend : (l : Entries V) → IsNormal l → Pairs StartLe l
  starts_ascend [] n = tt
  starts_ascend ((r, v) ∷ []) n = (tt, tt)
  starts_ascend ((r, v) ∷ (s, w) ∷ l) n =
      (starts_after (r, v) ((s, w) ∷ l) n, starts_ascend ((s, w) ∷ l) n.3)

  pub All-ranges : (l : Entries V) → IsNormal l → All (λ x. IsRange x.0) l
  All-ranges [] n = tt
  All-ranges ((r, v) ∷ []) n = (n, tt)
  All-ranges ((r, v) ∷ (s, w) ∷ l) n = (n.0, All-ranges ((s, w) ∷ l) n.3)

  module _ (addr : ℕ) where
    after_greater :
        (a : ℕ) (l : Entries V)
        → addr < a
        → All (λ y. a ≤ y.0.start) l
        → All (λ y. compare_start addr y ≡ greater) l
    after_greater a [] lt h = tt
    after_greater a (y ∷ ys) lt h = (ground (arith, h.0), after_greater a ys lt h.1)

    after_equal :
        (a : ℕ) (l : Entries V)
        → addr ≡ a
        → All (λ y. a ≤ y.0.start) l
        → All (λ y. compare_start addr y ≢ less) l
    after_equal a [] e h = tt
    after_equal a (y ∷ ys) e h = (λ k. ground (arith, h.0), after_equal a ys e h.1)

    pub Ascends-compare_start : (l : Entries V) → Pairs StartLe l → Ascends (compare_start addr) l
    Ascends-compare_start [] h = tt
    Ascends-compare_start (x ∷ xs) h = (
      λ e. after_equal x.0.start xs (ground arith) h.0,
      λ e. after_greater x.0.start xs (ground arith) h.0,
      Ascends-compare_start xs h.1,
    )

    pub find_entry-none :
        (l : Entries V) → find_entry l addr ≡ none → All (λ x. Inside addr x.0 → ⊥) l
    find_entry-none [] h = tt
    find_entry-none ((r, v) ∷ l) h = (λ i. ground arith, find_entry-none l (ground arith))
