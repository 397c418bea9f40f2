-- ===== src/SymFile/Parser/Lines/Ready.antt =====
-- The file that is parsed is in the order that its queries rely on.
use rust_minidump.Base.{◌≡◌, ◌⊎◌, inl, inr, refl, List, All, PartialEq}
use rust_minidump.Ranges.{RangeCrate}
use rust_minidump.SymFile.Types.{Function, StackInfoCfi, StackInfoWin, SymbolFile}
use rust_minidump.SymFile.Queries.Loops.{FileOk}
use rust_minidump.SymFile.Queries.Nearest.{IsSortedPublics}
use rust_minidump.SymFile.Queries.Unchecked.{WinOk}
use rust_minidump.SymFile.Parser.Finish.{SymbolParser, finish}
use rust_minidump.SymFile.Parser.Finish.Ready.{finish_ok}
use rust_minidump.SymFile.Parser.Lines.{
  Parse, parsed, rejected, crashed, then_parse, unless_crash, RawLine, new_parser, parse_more,
  parse_file,
}
use rust_minidump.SymFile.Parser.Lines.Invariant.{RawOk, IsReading, Leaves}
use rust_minidump.SymFile.Parser.Lines.Kept.{parse_more-IsReading}

module _ {c : RangeCrate} ⦃function_eq : PartialEq (Function c)⦄ ⦃cfi_eq : PartialEq StackInfoCfi⦄
    ⦃win_eq : PartialEq StackInfoWin⦄ where
  new_parser-IsReading : IsReading {c = c} new_parser
  new_parser-IsReading = record {
    entries = record {
      functions_ok = tt;
      cfis_ok = tt;
      framedatas_ok = tt;
      fpos_ok = tt;
      programs = tt;
      base_pointers = tt;
    };
    pending = tt;
  }

  -- Parsing a file of lines never panics, and a file that it gives is in the order that unwinding and
  -- symbolication rely on. What is found at an address does not start after it, and inlined calls are
  -- sorted, at depths that fit 32 bits (`FileOk`); framedata records have programs and fpo records
  -- have none (`WinOk`); and PUBLIC symbols are sorted by address. Of the lines it is assumed that
  -- each is what the line parsers give (`RawOk`): a FUNC comes without inlined calls, the depths of
  -- INLINE are below 2 ^ 32 - 2, the sizes of STACK WIN fit 32 bits, and a STACK WIN record has a
  -- program if it is framedata and none if it is fpo.
  pub parse_file_ok :
      (raws : List (RawLine c))
      → All RawOk raws
      → ((out : SymbolFile c) × (parse_file raws ≡ parsed out)
          × FileOk out
          × WinOk out
          × IsSortedPublics out.publics)
        ⊎ (parse_file raws ≡ rejected)
  unfolding parse_file
  parse_file_ok raws ok =
      go (parse_more raws new_parser) (parse_more-IsReading raws new_parser new_parser-IsReading ok)
    where
      go :
          (r : Parse (SymbolParser c))
          → Leaves IsReading r
          → ((out : SymbolFile c) × (then_parse r (λ p. unless_crash (finish p)) ≡ parsed out)
              × FileOk out
              × WinOk out
              × IsSortedPublics out.publics)
            ⊎ (then_parse r (λ p. unless_crash (finish p)) ≡ rejected)
      go (parsed p) h =
          let (out, made, ready, kinds, sorted) = finish_ok p h.pending h.entries in
          inl (out, rw made refl, ready, kinds, sorted)
      go rejected h = inr refl
      go crashed h = absurd h
