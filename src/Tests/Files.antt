-- ===== src/Tests/Files.antt =====
-- A symbol file with two functions, a line, inlined calls and public symbols, and what is asked of it.
use rust_minidump.Base.{
  get, ℕ, ◌≤◌, ◌≡◌, ◌≢◌, ◌↔◌, refl, subst, true, false, Option, none, some, some_inj, List, [], ◌∷◌,
  Bytes, text, arith,
}
use rust_minidump.Ranges.{Range, find_entry}
use rust_minidump.SymFile.Types.{
  PublicSymbol, SourceLine, Function, SymbolFile, get_outermost_sourceloc, get_inlinee_at_depth,
  get_innermost_sourceloc,
}
use rust_minidump.SymFile.Cfi.Walk.{panicked}
use rust_minidump.SymFile.Queries.{FrameSymbolizer, finished, public_for, fill_symbol, walk_frame}
use rust_minidump.SymFile.Queries.Publics.{IsUncut, public_for_iff}
use rust_minidump.SymFile.Queries.Loops.{FileOk, FunctionOk}
use rust_minidump.SymFile.Queries.Bounds.{fill_symbol_ends}
use rust_minidump.SymFile.Queries.Nearest.{IsNearest}
use rust_minidump.SymFile.Queries.Walks.{FpoOk, walk_frame_returns}
use rust_minidump.SymFile.FrameWalker.{FrameWalker}
use rust_minidump.SymFile.Win.Walks.{clear_stack_win_caller_registers}
use rust_minidump.Unwind.Contexts.{
  ContextX86, x86_context, all, no_names, register_is_valid, memoize_register, get_register_always,
  register_named,
}
use rust_minidump.Unwind.Walker.{CfiStackWalker, cfi_stack_walker}
use rust_minidump.Unwind.X86.{context_of}
use rust_minidump.Tests.Crates.{list_crate, linear_search}
use rust_minidump.Tests.Inlines.{caller}
use rust_minidump.Tests.Wins.{with_program, omitted, high_enough}
use rust_minidump.Tests.Cfis.{init, after_push}

abbrev early : PublicSymbol
early = record { address = 20; name = text "early"; parameter_size = 0 }

abbrev late : PublicSymbol
late = record { address = 200; name = text "late"; parameter_size = 4 }

abbrev file : SymbolFile list_crate
file = record {
  module_id = [];
  debug_file = [];
  files = (1, text "a.c") ∷ (2, text "b.c") ∷ (3, text "c.c") ∷ [];
  publics = early ∷ late ∷ [];
  functions = (record { start = 100; end = 159 }, caller) ∷ [];
  inline_origins = (7, text "f") ∷ (8, text "g") ∷ (9, text "h") ∷ [];
  cfi_stack_info =
      (
        record { start = 0; end = 99 },
        record { init = init; size = 100; add_rules = after_push ∷ [] },
      )
      ∷ [];
  win_stack_framedata_info = (record { start = 16; end = 79 }, with_program) ∷ [];
  win_stack_fpo_info = (record { start = 80; end = 90 }, omitted) ∷ [];
  url = none;
}

-- A log of what the frame is told.
data Event : Type 0 where
  function : Bytes → ℕ → ℕ → Event
  source : Bytes → ℕ → ℕ → Event
  inline_frame : Bytes → Option Bytes → Option ℕ → Event

abbrev log_frame : ℕ → FrameSymbolizer (List Event)
log_frame instruction = record {
  get_instruction = λ s. instruction;
  set_function = λ name base size s. function name base size ∷ s;
  set_source_file = λ name line base s. source name line base ∷ s;
  add_inline_frame = λ name f line s. inline_frame name f line ∷ s;
}

run_fill :
    fill_symbol linear_search file (log_frame 1112) true 1000 []
    ≡ finished (
        inline_frame (text "g") (some (text "c.c")) (some 40)
        ∷ inline_frame (text "f") (some (text "b.c")) (some 20)
        ∷ source (text "a.c") 10 1100
        ∷ function [] 1100 0
        ∷ [])
unfolding fill_symbol get_outermost_sourceloc get_inlinee_at_depth get get_innermost_sourceloc
run_fill = refl

-- What a map with one entry gives is its value.
only_value :
    {V : Type 0} (r : Range) (v : V) (addr : ℕ) (x : V)
    → find_entry ((r, v) ∷ []) addr ≡ some x
    → v ≡ x
only_value r v addr x h = ground arith

file-FileOk : FileOk file
file-FileOk addr f h =
    subst (λ (g : Function list_crate). (g.address ≤ addr) × FunctionOk g)
      (only_value (record { start = 100; end = 159 }) caller addr f h)
      (ground arith, (grind arith, omega arith, λ a line e. started a line e))
  where
    started : (a : ℕ) (line : SourceLine) → find_entry caller.lines a ≡ some line → line.address ≤ a
    started a line e = ground arith

fill_symbol_ends_example :
    (t : List Event) × (fill_symbol linear_search file (log_frame 1112) true 1000 [] ≡ finished t)
fill_symbol_ends_example =
    fill_symbol_ends linear_search file (log_frame 1112) true 1000 [] (omega arith) file-FileOk

public_for_iff_example :
    (public_for linear_search file 250 ≡ some late)
    ↔ (IsNearest (early ∷ late ∷ []) 250 late × IsUncut linear_search file 250 late file.functions)
public_for_iff_example =
    public_for_iff linear_search file 250 late refl
      (record { ordered = omega arith; end_fits = omega arith }) (refl, tt)
      ((omega arith, tt), (tt, tt))

-- The callee of a real x86 walker, at the address 85 of the module; its `esp` is 1000.
abbrev x86_callee : CfiStackWalker ContextX86
x86_callee = record {
  instruction = 1085;
  has_grand_callee = false;
  grand_callee_parameter_size = 0;
  callee_ctx = context_of 1085 1000 1016;
  callee_validity = all;
  caller_ctx = context_of 1085 1000 1016;
  caller_validity = no_names;
}

abbrev x86_reader : FrameWalker (CfiStackWalker ContextX86)
x86_reader = cfi_stack_walker x86_context (λ a. some 12)

walk_frame_returns_example : walk_frame file x86_reader true 1000 x86_callee ≢ panicked
unfolding cfi_stack_walker clear_stack_win_caller_registers register_is_valid get_register_always
    memoize_register register_named
walk_frame_returns_example =
    walk_frame_returns file x86_reader true 1000 x86_callee (λ info e. cc)
      (λ info free e.
        subst (FpoOk file x86_reader true x86_callee) (some_inj e)
          (true, refl, omega arith, λ esp h. high_enough esp (some_inj h)))
