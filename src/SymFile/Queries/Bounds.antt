-- ===== src/SymFile/Queries/Bounds.antt =====
-- `fill_symbol` ends, and its additions stay within their widths.
use rust_minidump.Base.{
  ℕ, suc, ◌+◌, ◌-◌, ◌<◌, ◌≤◌, ◌≡◌, refl, Bool, true, Option, none, some, List, [], ◌∷◌, ℕ-PartialEq,
  leb, ltb, if◌then◌else◌, u32_mod, u64_mod, arith, inl, inr, Bool-cases,
}
use rust_minidump.Ranges.{RangeCrate}
use rust_minidump.SymFile.Search.{BinarySearch}
use rust_minidump.SymFile.Types.{PublicSymbol, Function, SymbolFile, get_outermost_sourceloc}
use rust_minidump.SymFile.Types.Inlinees.{IsSortedInlinees}
use rust_minidump.SymFile.Win.Walks.{plain_add}
use rust_minidump.SymFile.Queries.{
  FrameSymbolizer, finished, and_then, plain, max_depth, find_nearest_public, public_for,
  fill_inlines, add_innermost, set_source, fill_lines, fill_function, fill_public, fill_symbol,
}
use rust_minidump.SymFile.Queries.Loops.{
  LinesOk, FileOk, Ends, Ends-and_then, Ends-plain_add, set_source-Ends, fill_inlines-Ends,
  outermost_bound, public_for-In,
}

module _ {c : RangeCrate} where
  module _ (search : BinarySearch) (file : SymbolFile c) {S : Type 0} (fs : FrameSymbolizer S)
      (checks : Bool) (base : ℕ) where
    fill_lines-Ends :
        (f : Function c) (addr : ℕ) (s : S)
        → IsSortedInlinees f.inlinees
        → max_depth f.inlinees + 2 < u32_mod
        → LinesOk f
        → (checks ≡ true → addr + base < u64_mod)
        → Ends (fill_lines search file fs checks base f addr s)
    unfolding fill_lines
    fill_lines-Ends f addr s sorted small lines fits =
        go (get_outermost_sourceloc search f addr) (λ file_id line address origin e.
          outermost_bound search file fs checks base f addr file_id line address origin sorted lines
            e)
      where
        go :
            (o : Option (ℕ × ℕ × ℕ × Option ℕ))
            → ((file_id line address : ℕ) (origin : Option ℕ)
                → o ≡ some (file_id, line, address, origin)
                → address ≤ addr)
            → Ends {A = S} (elim o [
              | some (file_id, line, address, some origin) ↦
                  and_then (set_source search file fs checks base file_id line address s) λ s1.
                    and_then
                      (fill_inlines search file fs checks base f addr
                        (suc (max_depth f.inlinees))
                        1
                        origin
                        s1)
                      λ r. finished (add_innermost search file fs checks base f addr r.0 r.1)
              | some (file_id, line, address, none) ↦
                  set_source search file fs checks base file_id line address s
              | none ↦ finished s
            ])
        go none bound = (s, refl)
        go (some (file_id, line, address, none)) bound =
            set_source-Ends search file fs checks base file_id line address s
              (λ on. omega (arith, fits on, bound file_id line address none refl))
        go (some (file_id, line, address, some origin)) bound =
            Ends-and_then (set_source search file fs checks base file_id line address s) _
              (set_source-Ends search file fs checks base file_id line address s
                (λ on. omega (arith, fits on, bound file_id line address (some origin) refl)))
              (λ s1.
                Ends-and_then
                  (fill_inlines search file fs checks base f addr (suc (max_depth f.inlinees)) 1
                    origin s1)
                  _
                  (fill_inlines-Ends search file fs checks base f addr (suc (max_depth f.inlinees))
                    1 origin s1 sorted small (omega arith) (omega arith) (omega arith))
                  (λ r. (_, refl)))

    fill_function-Ends :
        (f : Function c) (addr : ℕ) (s : S)
        → c.get file.functions addr ≡ some f
        → FileOk file
        → (checks ≡ true → addr + base < u64_mod)
        → Ends (fill_function search file fs checks base f addr s)
    unfolding fill_function
    fill_function-Ends f addr s e ok fits =
        let (at_most, (sorted, small, lines)) = ok addr f e in
        Ends-and_then (plain (plain_add checks u64_mod f.address base)) _
          (Ends-plain_add checks u64_mod f.address base (λ on. omega (arith, fits on)))
          (λ a. fill_lines-Ends f addr _ sorted small lines fits)

    nearest_bound :
        (publics : List PublicSymbol) (addr : ℕ) (p : PublicSymbol)
        → find_nearest_public publics addr ≡ some p
        → p.address ≤ addr
    unfolding find_nearest_public
    nearest_bound [] addr p = λ h. cc
    nearest_bound (x ∷ xs) addr p = go (find_nearest_public xs addr) (nearest_bound xs addr p)
      where
        go :
            (o : Option PublicSymbol)
            → (o ≡ some p → p.address ≤ addr)
            → elim o [ some q ↦ some q | none ↦ if leb x.address addr then some x else none ]
              ≡ some p
            → p.address ≤ addr
        go (some q) ih h = ih h
        go none ih h = ground arith

    fill_public-Ends :
        (addr : ℕ) (s : S)
        → (checks ≡ true → addr + base < u64_mod)
        → Ends (fill_public search file fs checks base addr s)
    unfolding fill_public
    fill_public-Ends addr s fits = go (public_for search file addr) (λ p e.
        nearest_bound file.publics addr p (public_for-In search file fs checks base addr p e))
      where
        go :
            (o : Option PublicSymbol)
            → ((p : PublicSymbol) → o ≡ some p → p.address ≤ addr)
            → Ends {A = S} (elim o [
              | some public ↦
                  and_then
                    (plain (plain_add checks u64_mod public.address base))
                    λ a. finished (fs.set_function public.name a public.parameter_size s)
              | none ↦ finished s
            ])
        go none bound = (s, refl)
        go (some public) bound =
            Ends-and_then (plain (plain_add checks u64_mod public.address base)) _
              (Ends-plain_add checks u64_mod public.address base
                (λ on. omega (arith, fits on, bound public refl)))
              (λ a. (_, refl))

    -- The addresses need no bound where additions wrap.
    pub fill_symbol-Ends :
        (s : S)
        → (checks ≡ true → fs.get_instruction s < u64_mod)
        → FileOk file
        → Ends (fill_symbol search file fs checks base s)
    unfolding fill_symbol
    fill_symbol-Ends s fits ok = elim (Bool-cases (ltb (fs.get_instruction s) base)) [
      | inl e ↦ rw e (s, refl)
      | inr e ↦ rw e (
          go (c.get file.functions (fs.get_instruction s - base))
            (λ f e'.
              fill_function-Ends f (fs.get_instruction s - base) s e' ok
                (λ on. ground (arith, fits on)))
            (fill_public-Ends (fs.get_instruction s - base) s (λ on. ground (arith, fits on))))
    ]
      where
        go :
            (o : Option (Function c))
            → ((f : Function c)
                → o ≡ some f
                → Ends (fill_function search file fs checks base f (fs.get_instruction s - base) s))
            → Ends (fill_public search file fs checks base (fs.get_instruction s - base) s)
            → Ends {A = S} (elim o [
              | some func ↦
                  fill_function search file fs checks base func (fs.get_instruction s - base) s
              | none ↦ fill_public search file fs checks base (fs.get_instruction s - base) s
            ])
        go none by_function by_public = by_public
        go (some f) by_function by_public = by_function f refl

    -- Filling a symbol in ends with a result, without an overflow and within the depths of the
    -- inlined calls, if the instruction is a 64-bit value, and the file is in order (`FileOk`): what is
    -- found at an address does not start after it, and inlined calls are sorted, at depths that fit
    -- 32 bits.
    pub fill_symbol_ends :
        (s : S)
        → fs.get_instruction s < u64_mod
        → FileOk file
        → (t : S) × (fill_symbol search file fs checks base s ≡ finished t)
    fill_symbol_ends s fits ok = fill_symbol-Ends s (λ on. fits) ok
