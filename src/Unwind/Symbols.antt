-- ===== src/Unwind/Symbols.antt =====
-- The symbol provider of the unwinder, made of a module list and of parsed symbol files:
-- breakpad-symbols/src/lib.rs Symbolizer::walk_frame and fill_symbol, and minidump-unwind/src/lib.rs,
-- the implementations of FrameSymbolizer. Which file a module has is the symbol supplier's, a
-- parameter. Each function tells a panic from a failure. The unwinder has no case for a panic, so that
-- the provider takes proofs that there is none.
pub mod Unchecked
pub mod Parsed
pub mod Sound
pub mod Ends
use rust_minidump.Base.{
  ℕ, Bool, true, false, not, Option, none, some, List, [], ◌∷◌, Bytes, ◌≢◌, refl,
}
use rust_minidump.Ranges.{RangeCrate}
use rust_minidump.SymFile.Search.{BinarySearch}
use rust_minidump.SymFile.Types.{SymbolFile}
use rust_minidump.SymFile.Cfi.Walk.{Outcome, done, failed, panicked}
use rust_minidump.SymFile.Queries
use rust_minidump.SymFile.Queries.{FrameSymbolizer, Run, finished, overflowed, exhausted, and_then}
use rust_minidump.Minidump.CodeViews.{DebugCrate}
use rust_minidump.Minidump.Modules.{MinidumpModule, MinidumpModuleList}
use rust_minidump.Minidump.Modules
use rust_minidump.Unwind.Contexts.{CpuContext}
use rust_minidump.Unwind.Walker.{CfiStackWalker, cfi_stack_walker}
use rust_minidump.Unwind.Frames.{StackFrame, Provider}

-- `impl FrameSymbolizer for StackFrame`, on the fields of the model's frames.
unfoldable pub stack_frame_symbolizer : {C : Type 0} → FrameSymbolizer (StackFrame C)
stack_frame_symbolizer = record {
  get_instruction = λ f. f.instruction;
  set_function = λ name base parameter_size f. record f { parameter_size = some parameter_size };
  set_source_file = λ file line base f. f;
  add_inline_frame = λ name file line f. f;
}

abbrev pub is_empty : Bytes → Bool
is_empty [] = true
is_empty (b ∷ bs) = false

-- An address, and whether it has been given a name.
pub record DummyFrame : Type 0 where
  pub instruction : ℕ
  pub has_name : Bool

unfoldable pub dummy_frame_symbolizer : FrameSymbolizer DummyFrame
dummy_frame_symbolizer = record {
  get_instruction = λ f. f.instruction;
  set_function = λ name base parameter_size f. record f { has_name = not (is_empty name) };
  set_source_file = λ file line base f. f;
  add_inline_frame = λ name file line f. f;
}

-- The outcome of a walk that does not panic.
abbrev pub returned : {S : Type 0} (o : Outcome S) → o ≢ panicked → Option S
returned (done s) safe = some s
returned (failed s) safe = none
returned panicked safe = absurd (safe refl)

-- A run that neither panics nor needs more fuel, and its value.
abbrev pub Completes : {A : Type 0} → Run A → Type 0
Completes r = (r ≢ overflowed) × (r ≢ exhausted)

abbrev pub completed : {A : Type 0} (r : Run A) → Completes r → A
completed (finished a) safe = a
completed overflowed safe = absurd (safe.0 refl)
completed exhausted safe = absurd (safe.1 refl)

-- What is found without an index panic.
abbrev pub found_module : {M : Type 0} (o : Option (Option M)) → o ≢ none → Option M
found_module none safe = absurd (safe refl)
found_module (some o) safe = o

-- A frame keeps what it has when the provider has no symbols.
abbrev pub filled_or : {S : Type 0} → S → Option S → S
filled_or s none = s
filled_or s (some t) = t

abbrev pub name_of : Option DummyFrame → Option Bool
name_of none = none
name_of (some f) = some f.has_name

module _ {C : Type 0} (cpu : CpuContext C) (c : RangeCrate) (search : BinarySearch) (d : DebugCrate)
    (get_symbols : MinidumpModule d → Option (SymbolFile c)) (checks : Bool)
    (get_memory_at_address : ℕ → Option ℕ) where
  abbrev pub walk_by :
      Option (SymbolFile c) → MinidumpModule d → CfiStackWalker C → Outcome (CfiStackWalker C)
  walk_by none m s = failed s
  walk_by (some file) m s =
      Queries.walk_frame file (cfi_stack_walker cpu get_memory_at_address) checks
        m.raw.base_of_image s

  unfoldable pub symbolizer_walk_frame :
      MinidumpModule d → CfiStackWalker C → Outcome (CfiStackWalker C)
  symbolizer_walk_frame m s = walk_by (get_symbols m) m s

  abbrev pub fill_by :
      {S : Type 0}
      → FrameSymbolizer S
      → Option (SymbolFile c)
      → MinidumpModule d
      → S
      → Run (Option S)
  fill_by fs none m s = finished none
  fill_by fs (some file) m s =
      and_then (Queries.fill_symbol search file fs checks m.raw.base_of_image s)
        λ t. finished (some t)

  -- `none` is the error that there are no symbols.
  unfoldable pub symbolizer_fill_symbol :
      {S : Type 0} → FrameSymbolizer S → MinidumpModule d → S → Run (Option S)
  symbolizer_fill_symbol fs m s = fill_by fs (get_symbols m) m s

  unfoldable pub dummy_has_name : MinidumpModule d → ℕ → Run (Option Bool)
  unfolding dummy_frame_symbolizer symbolizer_fill_symbol
  dummy_has_name m instruction =
      and_then
        (symbolizer_fill_symbol dummy_frame_symbolizer m
          (record { instruction = instruction; has_name = false }))
        λ f. finished (name_of f)

  -- No call of the symbol code panics, and its loops have enough fuel.
  pub record NeverPanics (l : MinidumpModuleList c d) : Type 0 where
    pub modules : (address : ℕ) → Modules.module_at_address d c l address ≢ none
    pub walks : (m : MinidumpModule d) (s : CfiStackWalker C) → symbolizer_walk_frame m s ≢ panicked
    pub fills :
        (m : MinidumpModule d) (f : StackFrame C)
        → Completes (symbolizer_fill_symbol stack_frame_symbolizer m f)
    pub names : (m : MinidumpModule d) (instruction : ℕ) → Completes (dummy_has_name m instruction)

  unfoldable pub symbol_provider : (l : MinidumpModuleList c d) → NeverPanics l → Provider C
  unfolding symbolizer_walk_frame symbolizer_fill_symbol dummy_has_name stack_frame_symbolizer
  symbol_provider l safe = record {
    Module = MinidumpModule d;
    module_at_address =
        λ address. found_module (Modules.module_at_address d c l address) (safe.modules address);
    get_memory_at_address = get_memory_at_address;
    walk_frame = λ m s. returned (symbolizer_walk_frame m s) (safe.walks m s);
    fill_symbol_name = λ m i. completed (dummy_has_name m i) (safe.names m i);
    fill_symbol = λ m f.
        filled_or f
          (completed (symbolizer_fill_symbol stack_frame_symbolizer m f) (safe.fills m f));
  }
