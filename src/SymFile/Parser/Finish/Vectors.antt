-- ===== src/SymFile/Parser/Finish/Vectors.antt =====
-- The vectors of entries that the parser turns into maps.
use rust_minidump.Base.{
  ℕ, ◌-◌, ◌<◌, ◌≤◌, ◌≡◌, refl, sym, subst, Bool-cases, Option, none, some, List, [], ◌∷◌, map, All,
  ltb, if◌then◌else◌, PartialEq, u64_mod, checked_add, inl, inr, arith,
}
use rust_minidump.Ranges.{Range, IsRange, Inside, RangeCrate, Entries}
use rust_minidump.RangeMapSafe.{rev_onto, into_rangemap_safe}
use rust_minidump.RangeMapSafe.Disjoint.{AllRanges}
use rust_minidump.RangeMapSafe.Covers.{Covers}
use rust_minidump.RangeMapSafe.Finished.{
  valid_entries, into_rangemap_safe_total, into_rangemap_safe_sound,
}
use rust_minidump.SymFile.Types.{SourceLine}
use rust_minidump.SymFile.Parser.Finish.{
  SourceLine-PartialEq, sized_lines, up_to, line_entry, push_ranged,
}

-- The ranges of the lines.
pub line_ranges : (l : List SourceLine) → AllRanges (valid_entries (map line_entry (sized_lines l)))
line_ranges [] = tt
line_ranges (l ∷ ls) = elim (Bool-cases (ltb 0 l.size)) [
  | inl e ↦
      rw e (
        go (checked_add u64_mod l.address (l.size - 1)) (λ end made. ground arith) (line_ranges ls))
  | inr e ↦ rw e (line_ranges ls)
]
  where
    go :
        (o : Option ℕ)
        → ((end : ℕ) → o ≡ some end → (l.address ≤ end) × (end < u64_mod))
        → AllRanges (valid_entries (map line_entry (sized_lines ls)))
        → AllRanges (valid_entries ((up_to l.address o, l) ∷ map line_entry (sized_lines ls)))
    go none spec ih = ih
    go (some end) spec ih =
        (record { ordered = (spec end refl).0; end_fits = (spec end refl).1 }, ih)

pub Covers-line :
    (l : List SourceLine) (a : ℕ) (v : SourceLine)
    → Covers (valid_entries (map line_entry (sized_lines l))) a v
    → v.address ≤ a
Covers-line [] a v h = absurd h
Covers-line (l ∷ ls) a v h = elim (Bool-cases (ltb 0 l.size)) [
  | inl e ↦ go (checked_add u64_mod l.address (l.size - 1)) (Covers-line ls a v) (
      subst
        (λ b.
          Covers (valid_entries (map line_entry (if b then l ∷ sized_lines ls else sized_lines ls)))
            a v)
        e h)
  | inr e ↦ Covers-line ls a v (
      subst
        (λ b.
          Covers (valid_entries (map line_entry (if b then l ∷ sized_lines ls else sized_lines ls)))
            a v)
        e h)
]
  where
    go :
        (o : Option ℕ)
        → (Covers (valid_entries (map line_entry (sized_lines ls))) a v → v.address ≤ a)
        → Covers (valid_entries ((up_to l.address o, l) ∷ map line_entry (sized_lines ls))) a v
        → v.address ≤ a
    go none ih k = ih k
    go (some end) ih (inl k) = subst (λ (x : SourceLine). x.address ≤ a) (sym k.0) k.1.0
    go (some end) ih (inr k) = ih k

pub push_ranged-All :
    {V : Type 0} (P : Range × V → Type 0) (range : Option Range) (v : V) (vec : Entries V)
    → ((r : Range) → range ≡ some r → P (r, v))
    → All P vec
    → All P (push_ranged range v vec)
push_ranged-All P none v vec h all = all
push_ranged-All P (some r) v vec h all = (h r refl, all)

pub rev_onto-All :
    {A : Type 0} (P : A → Type 0) (l out : List A) → All P l → All P out → All P (rev_onto l out)
unfolding rev_onto
rev_onto-All P [] out h k = k
rev_onto-All P (x ∷ xs) out h k = rev_onto-All P xs (x ∷ out) h.1 (h.0, k)

pub map_All :
    {A : Type 0} (P Q : A → Type 0) (l : List A) → ((x : A) → P x → Q x) → All P l → All Q l
map_All P Q [] f h = tt
map_All P Q (x ∷ xs) f h = (f x h.0, map_All P Q xs f h.1)

pub Covers-entry :
    {V : Type 0} (P : Range × V → Type 0) (l : Entries V) (a : ℕ) (v : V)
    → All P l
    → Covers l a v
    → (r : Range) × Inside a r × P (r, v)
Covers-entry P [] a v h k = absurd k
Covers-entry P ((r, w) ∷ l) a v h (inl k) = (r, k.1, subst (λ u. P (r, u)) (sym k.0) h.0)
Covers-entry P ((r, w) ∷ l) a v h (inr k) = Covers-entry P l a v h.1 k

-- The map of a vector whose entries have their records' ranges.
module _ (c : RangeCrate) {V : Type 0} ⦃v_eq : PartialEq V⦄ (P : Range × V → Type 0)
    (P-IsRange : (x : Range × V) → P x → IsRange x.0) where
  pub into_rangemap_safe_vec :
      (vec : Entries V)
      → All P vec
      → (m : c.RangeMap V) × (into_rangemap_safe c (rev_onto vec []) ≡ some m)
        × ((addr : ℕ) (v : V) → c.get m addr ≡ some v → (r : Range) × Inside addr r × P (r, v))
  into_rangemap_safe_vec vec h =
      let all = rev_onto-All P vec [] h tt in
      let ranges = map_All P (λ x. IsRange x.0) (rev_onto vec []) P-IsRange all in
      let (m, made, normal) = into_rangemap_safe_total c (rev_onto vec []) ranges in
      (
        m,
        made,
        λ addr v e.
            Covers-entry P (rev_onto vec []) addr v all
              (into_rangemap_safe_sound c (rev_onto vec []) m addr v ranges made e),
      )
