-- ===== src/SymFile/Queries/Fills.antt =====
-- What every method of a symbolizer keeps, fill_symbol keeps.
pub mod Lines
use rust_minidump.Base.{
  ℕ, zero, suc, ◌-◌, Bool, true, false, Option, none, some, Bytes, get, ℕ-PartialEq, ltb,
  if◌then◌else◌, u32_mod, u64_mod,
}
use rust_minidump.Ranges.{RangeCrate}
use rust_minidump.SymFile.Search.{BinarySearch}
use rust_minidump.SymFile.Types.{
  CallSite, Function, PublicSymbol, SymbolFile, get_inlinee_at_depth, get_outermost_sourceloc,
  get_innermost_sourceloc,
}
use rust_minidump.SymFile.Win.Walks.{plain_add}
use rust_minidump.SymFile.Queries.{
  FrameSymbolizer, Run, finished, overflowed, exhausted, and_then, plain, max_depth, public_for,
  parameter_size_at, add_named, fill_inlines, nonzero, add_innermost, set_source, fill_lines,
  fill_function, fill_public, fill_symbol,
}

-- However a run ends, its value has the property.
abbrev pub HoldsOf : {A : Type 0} → (A → Type 0) → Run A → Type 0
HoldsOf P (finished a) = P a
HoldsOf P overflowed = Unit
HoldsOf P exhausted = Unit

pub and_then-HoldsOf :
    {A B : Type 0} (P : A → Type 0) (Q : B → Type 0) (m : Run A) (k : A → Run B)
    → HoldsOf P m
    → ((a : A) → P a → HoldsOf Q (k a))
    → HoldsOf Q (and_then m k)
and_then-HoldsOf P Q (finished a) k p h = h a p
and_then-HoldsOf P Q overflowed k p h = tt
and_then-HoldsOf P Q exhausted k p h = tt

pub plain-HoldsOf :
    {A B : Type 0} (Q : B → Type 0) (o : Option A) (k : A → Run B)
    → ((a : A) → HoldsOf Q (k a))
    → HoldsOf Q (and_then (plain o) k)
plain-HoldsOf Q (some a) k h = h a
plain-HoldsOf Q none k h = tt

module _ {S : Type 0} (P : S → Type 0) where
  pub record IsFilled (fs : FrameSymbolizer S) : Type 0 where
    pub function_kept :
        (name : Bytes) (base size : ℕ) (s : S) → P s → P (fs.set_function name base size s)
    pub source_kept :
        (name : Bytes) (line base : ℕ) (s : S) → P s → P (fs.set_source_file name line base s)
    pub inline_kept :
        (name : Bytes) (file : Option Bytes) (line : Option ℕ) (s : S)
        → P s
        → P (fs.add_inline_frame name file line s)

  module _ {c : RangeCrate} (search : BinarySearch) (file : SymbolFile c) (fs : FrameSymbolizer S)
      (filled : IsFilled fs) (checks : Bool) (base : ℕ) where
    open filled use {function_kept, source_kept, inline_kept}

    add_named-kept :
        (origin : ℕ) (name : Option Bytes) (line : Option ℕ) (s : S)
        → P s
        → P (add_named search file fs checks base origin name line s)
    add_named-kept origin name line s p = go (get file.inline_origins origin)
      where
        go :
            (o : Option Bytes)
            → P (elim o [ some n ↦ fs.add_inline_frame n name line s | none ↦ s ])
        go (some n) = inline_kept n name line s p
        go none = p

    pub fill_inlines-HoldsOf :
        (func : Function c) (addr fuel depth origin : ℕ) (s : S)
        → P s
        → HoldsOf
            (λ (r : ℕ × S). P r.1)
            (fill_inlines search file fs checks base func addr fuel depth origin s)
    unfolding fill_inlines
    fill_inlines-HoldsOf func addr zero depth origin s p = tt
    fill_inlines-HoldsOf func addr (suc fuel) depth origin s p =
        plain-HoldsOf (λ (r : ℕ × S). P r.1) (plain_add checks u32_mod depth 1) _
          λ next.
            go (get_inlinee_at_depth search func depth addr) next
              (λ origin' s'. fill_inlines-HoldsOf func addr fuel next origin' s')
      where
        go :
            (o : Option CallSite) (next : ℕ)
            → ((origin' : ℕ) (s' : S)
                → P s'
                → HoldsOf
                    (λ (r : ℕ × S). P r.1)
                    (fill_inlines search file fs checks base func addr fuel next origin' s'))
            → HoldsOf
                (λ (r : ℕ × S). P r.1)
                (elim o [
                  | some (call_file, call_line, address, next_origin) ↦
                      fill_inlines search file fs checks base func addr fuel next next_origin (
                        add_named search file fs checks base origin
                          (get file.files call_file)
                          (some call_line)
                          s)
                  | none ↦ finished (origin, s)
                ])
        go (some (call_file, call_line, address, next_origin)) next rest =
            rest next_origin _
              (add_named-kept origin (get file.files call_file) (some call_line) s p)
        go none next rest = p

    pub add_innermost-kept :
        (func : Function c) (addr origin : ℕ) (s : S)
        → P s
        → P (add_innermost search file fs checks base func addr origin s)
    unfolding add_innermost
    add_innermost-kept func addr origin s p = go (get_innermost_sourceloc search func addr)
      where
        go :
            (o : Option (ℕ × ℕ × ℕ))
            → P (elim o [
              | some (file_id, line, address) ↦
                  add_named search file fs checks base origin
                    (get file.files file_id)
                    (nonzero search file fs checks base line)
                    s
              | none ↦ add_named search file fs checks base origin none none s
            ])
        go (some (file_id, line, address)) =
            add_named-kept origin (get file.files file_id) (nonzero search file fs checks base line)
              s p
        go none = add_named-kept origin none none s p

    pub set_source-HoldsOf :
        (file_id line address : ℕ) (s : S)
        → P s
        → HoldsOf P (set_source search file fs checks base file_id line address s)
    unfolding set_source
    set_source-HoldsOf file_id line address s p = go (get file.files file_id)
      where
        go :
            (o : Option Bytes)
            → HoldsOf P (elim o [
              | some name ↦
                  and_then
                    (plain (plain_add checks u64_mod address base))
                    λ a. finished (fs.set_source_file name line a s)
              | none ↦ finished s
            ])
        go (some name) =
            plain-HoldsOf P (plain_add checks u64_mod address base) _
              λ a. source_kept name line a s p
        go none = p
