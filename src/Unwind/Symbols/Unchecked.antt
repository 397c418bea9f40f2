-- ===== src/Unwind/Symbols/Unchecked.antt =====
-- In a build without overflow checks no call of the symbol code panics.
use rust_minidump.Base.{ℕ, ◌≡◌, ◌≢◌, refl, false, Option, none, some, List}
use rust_minidump.Ranges.{RangeCrate}
use rust_minidump.SymFile.Search.{BinarySearch}
use rust_minidump.SymFile.Types.{SymbolFile}
use rust_minidump.SymFile.Cfi.Walk.{panicked}
use rust_minidump.SymFile.Queries
use rust_minidump.SymFile.Queries.{FrameSymbolizer, Run, finished, overflowed, exhausted, and_then}
use rust_minidump.SymFile.Queries.Loops.{FileOk, Ends, Ends-and_then}
use rust_minidump.SymFile.Queries.Bounds.{fill_symbol-Ends}
use rust_minidump.SymFile.Queries.Unchecked.{WinOk, walk_frame-unchecked}
use rust_minidump.Minidump.CodeViews.{DebugCrate}
use rust_minidump.Minidump.Modules.{
  MinidumpModule, MinidumpModuleList, from_modules, module_at_address,
}
use rust_minidump.Minidump.Modules.Lookup.{made_at_address}
use rust_minidump.Unwind.Contexts.{CpuContext}
use rust_minidump.Unwind.Walker.{CfiStackWalker, cfi_stack_walker}
use rust_minidump.Unwind.Frames.{Provider}
use rust_minidump.Unwind.Symbols.{
  stack_frame_symbolizer, dummy_frame_symbolizer, Completes, walk_by, fill_by,
  symbolizer_walk_frame, symbolizer_fill_symbol, dummy_has_name, NeverPanics, symbol_provider,
}

Completes-of_Ends : {A : Type 0} (r : Run A) → Ends r → Completes r
Completes-of_Ends (finished a) h = (λ e. cc, λ e. cc)
Completes-of_Ends overflowed (a, e) = cc
Completes-of_Ends exhausted (a, e) = cc

-- The symbol files are in order (`FileOk`), and their records are of their kinds (`WinOk`).
pub record FilesOk {c : RangeCrate} (d : DebugCrate)
    (get_symbols : MinidumpModule d → Option (SymbolFile c)) : Type 0 where
  pub ordered :
      (m : MinidumpModule d) (file : SymbolFile c) → get_symbols m ≡ some file → FileOk file
  pub kinds : (m : MinidumpModule d) (file : SymbolFile c) → get_symbols m ≡ some file → WinOk file

module _ {C : Type 0} (cpu : CpuContext C) (c : RangeCrate) (search : BinarySearch) (d : DebugCrate)
    (get_symbols : MinidumpModule d → Option (SymbolFile c)) (memory : ℕ → Option ℕ) where
  walk_by-unchecked :
      (o : Option (SymbolFile c)) (m : MinidumpModule d) (s : CfiStackWalker C)
      → ((file : SymbolFile c) → o ≡ some file → WinOk file)
      → walk_by cpu c search d get_symbols false memory o m s ≢ panicked
  walk_by-unchecked none m s kinds = λ e. cc
  walk_by-unchecked (some file) m s kinds =
      walk_frame-unchecked file (kinds file refl) (cfi_stack_walker cpu memory) m.raw.base_of_image
        s

  fill_by-Ends :
      {S : Type 0} (fs : FrameSymbolizer S) (o : Option (SymbolFile c)) (m : MinidumpModule d)
      (s : S)
      → ((file : SymbolFile c) → o ≡ some file → FileOk file)
      → Ends (fill_by cpu c search d get_symbols false memory fs o m s)
  fill_by-Ends fs none m s ordered = (none, refl)
  fill_by-Ends fs (some file) m s ordered =
      Ends-and_then (Queries.fill_symbol search file fs false m.raw.base_of_image s) _
        (fill_symbol-Ends search file fs false m.raw.base_of_image s (λ on. cc) (ordered file refl))
        (λ t. (_, refl))

  pub NeverPanics-unchecked :
      (l : MinidumpModuleList c d)
      → ((address : ℕ) → module_at_address d c l address ≢ none)
      → FilesOk d get_symbols
      → NeverPanics cpu c search d get_symbols false memory l
  unfolding symbolizer_walk_frame symbolizer_fill_symbol dummy_has_name
  NeverPanics-unchecked l found ok = record {
    modules = found;
    walks = λ m s. walk_by-unchecked (get_symbols m) m s (ok.kinds m);
    fills = λ m f.
        Completes-of_Ends _
          (fill_by-Ends stack_frame_symbolizer (get_symbols m) m f (ok.ordered m));
    names = λ m i. Completes-of_Ends _ (
        Ends-and_then _ _ (fill_by-Ends dummy_frame_symbolizer (get_symbols m) m _ (ok.ordered m))
          (λ f. (_, refl)));
  }

  -- The provider of a build without overflow checks, of a module list that `from_modules` makes.
  unfoldable pub release_provider :
      (modules : List (MinidumpModule d)) (l : MinidumpModuleList c d)
      → from_modules d c modules ≡ some l
      → FilesOk d get_symbols
      → Provider C
  unfolding symbol_provider
  release_provider modules l made ok =
      symbol_provider cpu c search d get_symbols false memory l
        (NeverPanics-unchecked l (made_at_address d c modules l made) ok)
