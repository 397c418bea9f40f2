-- ===== src/SymFile/Queries/Loops.antt =====
-- The loop over inlined calls ends, and what is found does not start after the address.
use rust_minidump.Base.{
  ℕ, zero, suc, ◌+◌, ◌<◌, ◌≤◌, ◌≡◌, refl, Bool, true, false, Bool-cases, ltb, ◌%◌, Option, none,
  some, List, [], ◌∷◌, In, get, ℕ-PartialEq, Bytes, u32_mod, u64_mod, arith, inl, inr, >>=-eq-some,
}
use rust_minidump.Ranges.{Range, RangeCrate}
use rust_minidump.SymFile.Search.{BinarySearch}
use rust_minidump.SymFile.Types.{
  PublicSymbol, SourceLine, Function, Inlinee, CallSite, SymbolFile, get_inlinee_at_depth,
  outermost, get_outermost_sourceloc,
}
use rust_minidump.SymFile.Types.Inlinees.{IsSortedInlinees, get_inlinee_at_depth_sound}
use rust_minidump.SymFile.Win.Walks.{plain_add}
use rust_minidump.SymFile.Win.Fpo.{plain_add-eq-some}
use rust_minidump.SymFile.Queries.{
  FrameSymbolizer, Run, finished, overflowed, exhausted, and_then, plain, max_depth,
  find_nearest_public, unless_truncated, prev_func, public_for, add_named, fill_inlines, set_source,
}

-- The run ends with a value.
abbrev pub Ends : {A : Type 0} → Run A → Type 0
Ends {A} r = (a : A) × (r ≡ finished a)

pub Ends-and_then :
    {A B : Type 0} (r : Run A) (k : A → Run B)
    → Ends r
    → ((a : A) → Ends (k a))
    → Ends (and_then r k)
Ends-and_then (finished a) k h ih = ih a
Ends-and_then overflowed k (a, e) ih = cc
Ends-and_then exhausted k (a, e) ih = cc

-- An addition ends unless it is checked and overflows.
pub Ends-plain_add :
    (checks : Bool) (m a b : ℕ)
    → (checks ≡ true → a + b < m)
    → Ends (plain (plain_add checks m a b))
Ends-plain_add true m a b h = rw (plain_add-eq-some true m a b (h refl)) (a + b, refl)
Ends-plain_add false m a b h = elim (Bool-cases (ltb (a + b) m)) [
  | inl e ↦ rw e (a + b, refl)
  | inr e ↦ rw e ((a + b) % m, refl)
]

depth-max_depth : (x : Inlinee) (xs : List Inlinee) → In x xs → x.depth ≤ max_depth xs
depth-max_depth x [] i = absurd i
depth-max_depth x (y ∷ ys) (inl e) = ground arith
depth-max_depth x (y ∷ ys) (inr i) = omega (arith, depth-max_depth x ys i)

-- A line that is found does not start after the address.
abbrev pub LinesOk : {c : RangeCrate} → Function c → Type 0
LinesOk {c} f =
    (addr : ℕ) (line : SourceLine) → c.get f.lines addr ≡ some line → line.address ≤ addr

-- A function's inlined calls are sorted, at depths that fit, and its lines are in place.
abbrev pub FunctionOk : {c : RangeCrate} → Function c → Type 0
FunctionOk f = IsSortedInlinees f.inlinees × (max_depth f.inlinees + 2 < u32_mod) × LinesOk f

-- A function that is found does not start after the address.
abbrev pub FileOk : {c : RangeCrate} → SymbolFile c → Type 0
FileOk {c} file =
    (addr : ℕ) (f : Function c)
    → c.get file.functions addr ≡ some f
    → (f.address ≤ addr) × FunctionOk f

module _ {c : RangeCrate} where
  module _ (search : BinarySearch) (file : SymbolFile c) {S : Type 0} (fs : FrameSymbolizer S)
      (checks : Bool) (base : ℕ) where
    pub fill_inlines-Ends :
        (f : Function c) (addr fuel depth origin : ℕ) (s : S)
        → IsSortedInlinees f.inlinees
        → max_depth f.inlinees + 2 < u32_mod
        → max_depth f.inlinees + 2 ≤ fuel + depth
        → 0 < fuel
        → depth ≤ max_depth f.inlinees + 1
        → Ends (fill_inlines search file fs checks base f addr fuel depth origin s)
    unfolding fill_inlines
    fill_inlines-Ends f addr zero depth origin s sorted small enough some_fuel low =
        absurd (omega arith)
    fill_inlines-Ends f addr (suc fuel) depth origin s sorted small enough some_fuel low =
        rw (plain_add-eq-some checks u32_mod depth 1 (omega arith)) (
          go (get_inlinee_at_depth search f depth addr) (λ site e.
            let (x, i, covers, same) =
              get_inlinee_at_depth_sound search f depth addr site sorted e in
            let reached : depth ≤ max_depth f.inlinees =
              ground (arith, depth-max_depth x f.inlinees i) in
            λ o t.
              fill_inlines-Ends f addr fuel (depth + 1) o t sorted small (omega arith) (omega arith)
                (omega arith)))
      where
        go :
            (site : Option CallSite)
            → ((x : CallSite)
                → site ≡ some x
                → (o : ℕ) (t : S)
                → Ends (fill_inlines search file fs checks base f addr fuel (depth + 1) o t))
            → Ends {A = ℕ × S} (elim site [
              | some (call_file, call_line, address, next_origin) ↦
                  fill_inlines search file fs checks base f addr fuel (depth + 1) next_origin (
                    add_named search file fs checks base origin
                      (get file.files call_file)
                      (some call_line)
                      s)
              | none ↦ finished (origin, s)
            ])
        go none ih = ((origin, s), refl)
        go (some (call_file, call_line, address, next_origin)) ih =
            ih (call_file, call_line, address, next_origin) refl next_origin _

    pub set_source-Ends :
        (file_id line address : ℕ) (s : S)
        → (checks ≡ true → address + base < u64_mod)
        → Ends (set_source search file fs checks base file_id line address s)
    unfolding set_source
    set_source-Ends file_id line address s h = go (get file.files file_id)
      where
        go :
            (o : Option Bytes)
            → Ends {A = S} (elim o [
              | some name ↦
                  and_then
                    (plain (plain_add checks u64_mod address base))
                    λ a. finished (fs.set_source_file name line a s)
              | none ↦ finished s
            ])
        go none = (s, refl)
        go (some name) =
            Ends-and_then _ _ (Ends-plain_add checks u64_mod address base h) (λ a. (_, refl))

    pub public_for-In :
        (addr : ℕ) (p : PublicSymbol)
        → public_for search file addr ≡ some p
        → find_nearest_public file.publics addr ≡ some p
    unfolding public_for
    public_for-In addr p = go (find_nearest_public file.publics addr) (prev_func search file addr)
      where
        go :
            (o : Option PublicSymbol) (prev : Option (Range × Function c))
            → elim o [ some q ↦ unless_truncated search file q prev | none ↦ none ] ≡ some p
            → o ≡ some p
        go none prev h = cc
        go (some q) none h = h
        go (some q) (some (r, f)) h = ground arith

    pub outermost_bound :
        (f : Function c) (addr file_id line address : ℕ) (origin : Option ℕ)
        → IsSortedInlinees f.inlinees
        → LinesOk f
        → get_outermost_sourceloc search f addr ≡ some (file_id, line, address, origin)
        → address ≤ addr
    unfolding get_outermost_sourceloc
    outermost_bound f addr file_id line address origin sorted lines =
        go (get_inlinee_at_depth search f 0 addr)
          (λ site e.
            let (x, i, covers, same) = get_inlinee_at_depth_sound search f 0 addr site sorted e in
            ground arith)
          (lines addr)
      where
        go :
            (site : Option CallSite)
            → ((x : CallSite) → site ≡ some x → x.2 ≤ addr)
            → ((x : SourceLine) → c.get f.lines addr ≡ some x → x.address ≤ addr)
            → outermost search f site addr ≡ some (file_id, line, address, origin)
            → address ≤ addr
        go none from_site from_line h =
            let (v, e, eq) = >>=-eq-some (c.get f.lines addr) _ h in
            ground (arith, from_line v e, eq)
        go (some (call_file, call_line, start, o)) from_site from_line h =
            ground (arith, from_site (call_file, call_line, start, o) refl, h)
