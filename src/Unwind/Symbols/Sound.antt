-- ===== src/Unwind/Symbols/Sound.antt =====
-- The provider is what the unwinder asks for.
use rust_minidump.Base.{
  ℕ, ◌<◌, ◌≡◌, ◌≢◌, refl, subst, Bool, false, Option, none, some, some_inj, List, [], ◌∷◌, Bytes,
  ltb, Bool-cases, inl, inr, u32_mod, >>=-eq-some, arith,
}
use rust_minidump.Ranges.{RangeCrate}
use rust_minidump.SymFile.Search.{BinarySearch}
use rust_minidump.SymFile.Types.{SymbolFile}
use rust_minidump.SymFile.Cfi.Walk.{Outcome, done, failed, panicked}
use rust_minidump.SymFile.Queries
use rust_minidump.SymFile.Queries.{Run, finished, overflowed, exhausted, and_then}
use rust_minidump.SymFile.Queries.Keeps.{Keeps, IsKept}
use rust_minidump.SymFile.Queries.Keeps.Frames.{walk_frame-Keeps}
use rust_minidump.SymFile.Queries.Fills.{HoldsOf, IsFilled}
use rust_minidump.SymFile.Queries.Fills.Lines.{fill_symbol-HoldsOf}
use rust_minidump.Minidump.CodeViews.{DebugCrate}
use rust_minidump.Minidump.Modules.{MinidumpModule, MinidumpModuleList, from_modules}
use rust_minidump.Unwind.Contexts.{
  CpuContext, ContextX86, esp, x86_context, register_named, with_name, set_register,
}
use rust_minidump.Unwind.Walker.{
  CfiStackWalker, cfi_stack_walker, set_caller_register, clear_caller_register, set_named,
  set_memoized, written,
}
use rust_minidump.Unwind.Frames.{StackFrame}
use rust_minidump.Unwind.Frames.Stack.{walk_stack}
use rust_minidump.Unwind.Frames.Progress.{IsSound}
use rust_minidump.Unwind.Frames.Ends.{Rises}
use rust_minidump.Unwind.X86.{get_caller_frame}
use rust_minidump.Unwind.X86.Progress.{Fits}
use rust_minidump.Unwind.X86.Ends.{walk_stack_ends}
use rust_minidump.Unwind.Symbols.{
  stack_frame_symbolizer, returned, Completes, completed, filled_or, symbolizer_walk_frame, walk_by,
  fill_by, symbolizer_fill_symbol, NeverPanics, symbol_provider,
}
use rust_minidump.Unwind.Symbols.Unchecked.{FilesOk, release_provider}

module _ {C : Type 0} (cpu : CpuContext C) (sp : C → ℕ)
    (writes : (name : Bytes) (val : ℕ) (ctx ctx' : C)
      → val < cpu.register_mod
      → cpu.write name val ctx ≡ some ctx'
      → sp ctx < cpu.register_mod
      → sp ctx' < cpu.register_mod) where
  abbrev SpFits : CfiStackWalker C → Type 0
  SpFits s = sp s.caller_ctx < cpu.register_mod

  set_named-SpFits :
      (name : Bytes) (val : ℕ) (s : CfiStackWalker C)
      → SpFits s
      → SpFits (set_named cpu name val s).1
  unfolding set_named
  set_named-SpFits name val s p = elim (Bool-cases (ltb val cpu.register_mod)) [
    | inl fits ↦ rw fits (
        go (cpu.write name val s.caller_ctx)
          (λ ctx' h. writes name val s.caller_ctx ctx' (ground arith) h p))
    | inr too_large ↦ rw too_large p
  ]
    where
      go :
          (o : Option C)
          → ((ctx' : C) → o ≡ some ctx' → sp ctx' < cpu.register_mod)
          → SpFits
              (written cpu (record s { caller_validity = with_name name s.caller_validity }) o).1
      go (some ctx') h = h ctx' refl
      go none h = p

  set_caller_register-SpFits :
      (name : Bytes) (val : ℕ) (s : CfiStackWalker C)
      → SpFits s
      → SpFits (set_caller_register cpu name val s).1
  unfolding set_caller_register
  set_caller_register-SpFits name val s p = go (cpu.memoize name)
    where
      go : (o : Option Bytes) → SpFits (set_memoized cpu o val s).1
      go (some memoized) = set_named-SpFits memoized val s p
      go none = p

  cfi_stack_walker-IsKept : (memory : ℕ → Option ℕ) → IsKept SpFits (cfi_stack_walker cpu memory)
  unfolding cfi_stack_walker clear_caller_register
  cfi_stack_walker-IsKept memory = record {
    set_kept = set_caller_register-SpFits;
    clear_kept = λ name s p. p;
    cfa_kept = λ val s p. set_named-SpFits cpu.stack_pointer_register_name val s p;
    ra_kept = λ val s p. set_named-SpFits cpu.instruction_pointer_register_name val s p;
  }

  returned-eq-some :
      (o : Outcome (CfiStackWalker C)) (safe : o ≢ panicked) (t : CfiStackWalker C)
      → Keeps SpFits o
      → returned o safe ≡ some t
      → SpFits t
  returned-eq-some (done s) safe t p h = subst SpFits (some_inj h) p
  returned-eq-some (failed s) safe t p h = cc
  returned-eq-some panicked safe t p h = absurd (safe refl)

  -- Symbolication changes neither the registers of a frame nor its trust.
  abbrev Same : StackFrame C → StackFrame C → Type 0
  Same f g = (g.ctx ≡ f.ctx) × (g.trust ≡ f.trust)

  stack_frame_symbolizer-IsFilled :
      (f : StackFrame C) → IsFilled (Same f) (stack_frame_symbolizer {C = C})
  unfolding stack_frame_symbolizer
  stack_frame_symbolizer-IsFilled f = record {
    function_kept = λ name base size g p. p;
    source_kept = λ name line base g p. p;
    inline_kept = λ name file line g p. p;
  }

  filled_or-Same :
      (f : StackFrame C) (r : Run (StackFrame C))
      (safe : Completes (and_then r (λ t. finished (some t))))
      → HoldsOf (Same f) r
      → Same f (filled_or f (completed (and_then r (λ t. finished (some t))) safe))
  filled_or-Same f (finished g) safe h = h
  filled_or-Same f overflowed safe h = absurd (safe.0 refl)
  filled_or-Same f exhausted safe h = absurd (safe.1 refl)

  module _ (c : RangeCrate) (search : BinarySearch) (d : DebugCrate)
      (get_symbols : MinidumpModule d → Option (SymbolFile c)) (checks : Bool)
      (memory : ℕ → Option ℕ) where
    fill_by-Same :
        (o : Option (SymbolFile c)) (m : MinidumpModule d) (f : StackFrame C)
        (safe : Completes
          (fill_by cpu c search d get_symbols checks memory stack_frame_symbolizer o m f))
        → Same f (
            filled_or f (
              completed
                (fill_by cpu c search d get_symbols checks memory stack_frame_symbolizer o m f)
                safe))
    fill_by-Same none m f safe = (refl, refl)
    fill_by-Same (some file) m f safe =
        filled_or-Same f
          (Queries.fill_symbol search file stack_frame_symbolizer checks m.raw.base_of_image f) safe
          (fill_symbol-HoldsOf (Same f) search file stack_frame_symbolizer
            (stack_frame_symbolizer-IsFilled f) checks m.raw.base_of_image f (refl, refl))

    walk_by-SpFits :
        (o : Option (SymbolFile c)) (m : MinidumpModule d) (s t : CfiStackWalker C)
        (safe : walk_by cpu c search d get_symbols checks memory o m s ≢ panicked)
        → returned (walk_by cpu c search d get_symbols checks memory o m s) safe ≡ some t
        → SpFits s
        → SpFits t
    walk_by-SpFits none m s t safe h p = cc
    walk_by-SpFits (some file) m s t safe h p =
        returned-eq-some
          (Queries.walk_frame file (cfi_stack_walker cpu memory) checks m.raw.base_of_image s) safe
          t
          (walk_frame-Keeps SpFits (cfi_stack_walker cpu memory) (cfi_stack_walker-IsKept memory)
            file checks m.raw.base_of_image s p)
          h

    -- Whatever the symbol files hold, the provider that is made of them keeps the registers of the
    -- frames that it symbolicates, and leaves stack pointers that fit their register, if no write to
    -- the context spoils that.
    pub symbol_provider-IsSound :
        (l : MinidumpModuleList c d) (safe : NeverPanics cpu c search d get_symbols checks memory l)
        → IsSound sp cpu.register_mod
            (symbol_provider cpu c search d get_symbols checks memory l safe)
    unfolding symbol_provider symbolizer_walk_frame symbolizer_fill_symbol
    symbol_provider-IsSound l safe = record {
      fill_symbol-ctx = λ m f. (fill_by-Same (get_symbols m) m f (safe.fills m f)).0;
      fill_symbol-trust = λ m f. (fill_by-Same (get_symbols m) m f (safe.fills m f)).1;
      walk_frame-sp = λ m s t h p. walk_by-SpFits (get_symbols m) m s t (safe.walks m s) h p;
    }

  -- So does the provider of a build without overflow checks.
  pub release_provider-IsSound :
      (c : RangeCrate) (search : BinarySearch) (d : DebugCrate)
      (get_symbols : MinidumpModule d → Option (SymbolFile c)) (memory : ℕ → Option ℕ)
      (modules : List (MinidumpModule d)) (l : MinidumpModuleList c d)
      (made : from_modules d c modules ≡ some l) (ok : FilesOk d get_symbols)
      → IsSound sp cpu.register_mod
          (release_provider cpu c search d get_symbols memory modules l made ok)
  unfolding release_provider
  release_provider-IsSound c search d get_symbols memory modules l made ok =
      symbol_provider-IsSound c search d get_symbols false memory l _

x86_writes :
    (name : Bytes) (val : ℕ) (ctx ctx' : ContextX86)
    → val < u32_mod
    → x86_context.write name val ctx ≡ some ctx'
    → ctx esp < u32_mod
    → ctx' esp < u32_mod
unfolding set_register
x86_writes name val ctx ctx' fits h p =
    let (r, found, made) = >>=-eq-some (register_named name) _ h in
    subst (λ (x : ContextX86). x esp < u32_mod) (some_inj made) (ground arith)

-- Unwinding an x86 stack from one context frame, in a build without overflow checks, ends within
-- 2 ^ 32 rounds without a panic in the symbol code, and the stack pointers of the frames grow from each
-- callee to its caller, whatever the stack memory holds. It does if the module list is one that
-- `from_modules` makes, every symbol file is in order (`FileOk`) and has framedata records with
-- programs and fpo records without them (`WinOk`), and the frame's stack pointer is a 32-bit value.
pub walk_stack-symbol_provider :
    (c : RangeCrate) (search : BinarySearch) (d : DebugCrate)
    (get_symbols : MinidumpModule d → Option (SymbolFile c)) (memory : ℕ → Option ℕ)
    (modules : List (MinidumpModule d)) (l : MinidumpModuleList c d)
    (made : from_modules d c modules ≡ some l) (ok : FilesOk d get_symbols) (has_memory : Bool)
    (frame : StackFrame ContextX86)
    → Fits frame
    → (frames : List (StackFrame ContextX86)) × (walk_stack
          (release_provider x86_context c search d get_symbols memory modules l made ok)
          (get_caller_frame
            (release_provider x86_context c search d get_symbols memory modules l made ok))
          has_memory
          u32_mod
          (frame ∷ [])
        ≡ some frames)
      × Rises (λ f. f.ctx esp) frames
walk_stack-symbol_provider c search d get_symbols memory modules l made ok has_memory frame fits =
    walk_stack_ends (release_provider x86_context c search d get_symbols memory modules l made ok)
      (release_provider-IsSound x86_context (λ (ctx : ContextX86). ctx esp) x86_writes c search d
        get_symbols memory modules l made ok)
      has_memory frame fits
