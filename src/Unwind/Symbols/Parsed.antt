-- ===== src/Unwind/Symbols/Parsed.antt =====
-- Symbol files that the parser made are what unwinding asks for.
use rust_minidump.Base.{◌≡◌, sym, subst, ◌∙◌, Option, some, List, All, PartialEq, inl, inr}
use rust_minidump.Ranges.{RangeCrate}
use rust_minidump.SymFile.Types.{Function, StackInfoCfi, StackInfoWin, SymbolFile}
use rust_minidump.SymFile.Queries.Loops.{FileOk}
use rust_minidump.SymFile.Queries.Unchecked.{WinOk}
use rust_minidump.SymFile.Parser.Lines.{parsed, RawLine, parse_file}
use rust_minidump.SymFile.Parser.Lines.Invariant.{RawOk}
use rust_minidump.SymFile.Parser.Lines.Ready.{parse_file_ok}
use rust_minidump.Minidump.CodeViews.{DebugCrate}
use rust_minidump.Minidump.Modules.{MinidumpModule}
use rust_minidump.Unwind.Symbols.Unchecked.{FilesOk}

module _ {c : RangeCrate} ⦃function_eq : PartialEq (Function c)⦄ ⦃cfi_eq : PartialEq StackInfoCfi⦄
    ⦃win_eq : PartialEq StackInfoWin⦄ where
  -- A file that is parsed from lines as the line parsers give them.
  abbrev pub IsParsedFile : SymbolFile c → Type 0
  IsParsedFile file = (raws : List (RawLine c)) × All RawOk raws × (parse_file raws ≡ parsed file)

  parsed_inj : (x y : SymbolFile c) → parsed x ≡ parsed y → x ≡ y
  parsed_inj x y h = cc

  IsParsedFile-ok : (file : SymbolFile c) → IsParsedFile file → FileOk file × WinOk file
  IsParsedFile-ok file (raws, ok, made) = elim (parse_file_ok raws ok) [
    | inl (out, e, ready, kinds, sorted) ↦
        subst (λ x. FileOk x × WinOk x) (parsed_inj out file (sym e ∙ made)) (ready, kinds)
    | inr e ↦ cc
  ]

  -- If every symbol file is a parsed one, the files are in order, and their records of their kinds.
  pub FilesOk-parsed :
      (d : DebugCrate) (get_symbols : MinidumpModule d → Option (SymbolFile c))
      → ((m : MinidumpModule d) (file : SymbolFile c)
          → get_symbols m ≡ some file
          → IsParsedFile file)
      → FilesOk d get_symbols
  FilesOk-parsed d get_symbols h = record {
    ordered = λ m file e. (IsParsedFile-ok file (h m file e)).0;
    kinds = λ m file e. (IsParsedFile-ok file (h m file e)).1;
  }
