-- ===== src/SymFile/Queries/Fills/Lines.antt =====
-- Functions, public symbols and whole look-ups.
use rust_minidump.Base.{
  ℕ, suc, ◌-◌, Bool, true, false, Option, none, some, ℕ-PartialEq, ltb, if◌then◌else◌, u64_mod,
}
use rust_minidump.Ranges.{RangeCrate}
use rust_minidump.SymFile.Search.{BinarySearch}
use rust_minidump.SymFile.Types.{Function, PublicSymbol, SymbolFile, get_outermost_sourceloc}
use rust_minidump.SymFile.Win.Walks.{plain_add}
use rust_minidump.SymFile.Queries.{
  FrameSymbolizer, finished, and_then, plain, max_depth, public_for, parameter_size_at,
  fill_inlines, add_innermost, set_source, fill_lines, fill_function, fill_public, fill_symbol,
}
use rust_minidump.SymFile.Queries.Fills.{
  HoldsOf, and_then-HoldsOf, plain-HoldsOf, IsFilled, fill_inlines-HoldsOf, add_innermost-kept,
  set_source-HoldsOf,
}

module _ {S : Type 0} (P : S → Type 0) where
  module _ {c : RangeCrate} (search : BinarySearch) (file : SymbolFile c) (fs : FrameSymbolizer S)
      (filled : IsFilled P fs) (checks : Bool) (base : ℕ) where
    open filled use {function_kept}

    fill_lines-HoldsOf :
        (func : Function c) (addr : ℕ) (s : S)
        → P s
        → HoldsOf P (fill_lines search file fs checks base func addr s)
    unfolding fill_lines
    fill_lines-HoldsOf func addr s p = go (get_outermost_sourceloc search func addr)
      where
        go :
            (o : Option (ℕ × ℕ × ℕ × Option ℕ))
            → HoldsOf P (elim o [
              | some (file_id, line, address, some origin) ↦
                  and_then (set_source search file fs checks base file_id line address s) λ s1.
                    and_then
                      (fill_inlines search file fs checks base func addr
                        (suc (max_depth func.inlinees))
                        1
                        origin
                        s1)
                      λ r. finished (add_innermost search file fs checks base func addr r.0 r.1)
              | some (file_id, line, address, none) ↦
                  set_source search file fs checks base file_id line address s
              | none ↦ finished s
            ])
        go (some (file_id, line, address, some origin)) =
            and_then-HoldsOf P P (set_source search file fs checks base file_id line address s) _
              (set_source-HoldsOf P search file fs filled checks base file_id line address s p)
              λ s1 p1.
                and_then-HoldsOf (λ (r : ℕ × S). P r.1) P
                  (fill_inlines search file fs checks base func addr (suc (max_depth func.inlinees))
                    1 origin s1)
                  _
                  (fill_inlines-HoldsOf P search file fs filled checks base func addr
                    (suc (max_depth func.inlinees)) 1 origin s1 p1)
                  λ r q. add_innermost-kept P search file fs filled checks base func addr r.0 r.1 q
        go (some (file_id, line, address, none)) =
            set_source-HoldsOf P search file fs filled checks base file_id line address s p
        go none = p

    fill_public-HoldsOf :
        (addr : ℕ) (s : S) → P s → HoldsOf P (fill_public search file fs checks base addr s)
    unfolding fill_public
    fill_public-HoldsOf addr s p = go (public_for search file addr)
      where
        go :
            (o : Option PublicSymbol)
            → HoldsOf P (elim o [
              | some public ↦
                  and_then
                    (plain (plain_add checks u64_mod public.address base))
                    λ a. finished (fs.set_function public.name a public.parameter_size s)
              | none ↦ finished s
            ])
        go (some public) =
            plain-HoldsOf P (plain_add checks u64_mod public.address base) _
              λ a. function_kept public.name a public.parameter_size s p
        go none = p

    fill_function-HoldsOf :
        (func : Function c) (addr : ℕ) (s : S)
        → P s
        → HoldsOf P (fill_function search file fs checks base func addr s)
    unfolding fill_function
    fill_function-HoldsOf func addr s p =
        plain-HoldsOf P (plain_add checks u64_mod func.address base) _ λ a.
          fill_lines-HoldsOf func addr _
            (function_kept func.name a (parameter_size_at search file func addr) s p)

    -- However fill_symbol ends, what every method of the symbolizer keeps holds of its value.
    pub fill_symbol-HoldsOf : (s : S) → P s → HoldsOf P (fill_symbol search file fs checks base s)
    unfolding fill_symbol
    fill_symbol-HoldsOf s p = go (ltb (fs.get_instruction s) base)
      where
        found_or_public :
            (addr : ℕ) (o : Option (Function c))
            → HoldsOf P (elim o [
              | some func ↦ fill_function search file fs checks base func addr s
              | none ↦ fill_public search file fs checks base addr s
            ])
        found_or_public addr (some func) = fill_function-HoldsOf func addr s p
        found_or_public addr none = fill_public-HoldsOf addr s p

        go :
            (b : Bool)
            → HoldsOf P (
                if b
                then finished s
                else (let addr = fs.get_instruction s - base in
                    elim (c.get file.functions addr) [
                      | some func ↦ fill_function search file fs checks base func addr s
                      | none ↦ fill_public search file fs checks base addr s
                    ]))
        go true = p
        go false =
            let addr = fs.get_instruction s - base in
            found_or_public addr (c.get file.functions addr)
