-- ===== src/Unwind/Symbols/Ends.antt =====
-- Unwinding by module lists and symbol files ends on amd64, arm and arm64 too.
use rust_minidump.Base.{
  ℕ, ◌*◌, ◌<◌, ◌≡◌, subst, Bool, Option, some, some_inj, List, [], ◌∷◌, Bytes, u32_mod, u64_mod,
  >>=-eq-some, arith,
}
use rust_minidump.Ranges.{RangeCrate}
use rust_minidump.SymFile.Search.{BinarySearch}
use rust_minidump.SymFile.Types.{SymbolFile}
use rust_minidump.Minidump.CodeViews.{DebugCrate}
use rust_minidump.Minidump.Modules.{MinidumpModule, MinidumpModuleList, from_modules}
use rust_minidump.Unwind.Contexts.Fields.{field_named, write_field}
use rust_minidump.Unwind.Contexts.Amd64.{
  ContextAmd64, rsp, amd64_index, amd64_fields, amd64_context,
}
use rust_minidump.Unwind.Contexts.Arm.{ContextArm, ireg, arm_index, arm_fields, arm_context}
use rust_minidump.Unwind.Contexts.Arm64.{ContextArm64, sp, arm64_index, arm64_fields, arm64_context}
use rust_minidump.Unwind.Frames.{StackFrame}
use rust_minidump.Unwind.Frames.Stack.{walk_stack}
use rust_minidump.Unwind.Frames.Ends.{Rises}
use rust_minidump.Unwind.Frames.Leaves.{leaf_rank}
use rust_minidump.Unwind.Amd64
use rust_minidump.Unwind.Amd64.Progress.{Fits}
use rust_minidump.Unwind.Amd64.Ends.{amd64_walk_stack_ends}
use rust_minidump.Unwind.Arm
use rust_minidump.Unwind.Arm.Ends.{arm_walk_stack_ends}
use rust_minidump.Unwind.Arm64
use rust_minidump.Unwind.Arm64.Ends.{arm64_walk_stack_ends}
use rust_minidump.Unwind.Symbols.Unchecked.{FilesOk, release_provider}
use rust_minidump.Unwind.Symbols.Sound.{release_provider-IsSound}

-- A value that fits leaves every field that fits with one that fits.
write_field-Fits :
    {R : Type 0} (index : R → ℕ) (fields : List (Bytes × R)) (q : R) (bound : ℕ) (name : Bytes)
    (val : ℕ) (ctx ctx' : R → ℕ)
    → val < bound
    → write_field index fields name val ctx ≡ some ctx'
    → ctx q < bound
    → ctx' q < bound
write_field-Fits {R} index fields q bound name val ctx ctx' fits h p =
    let (r, found, made) = >>=-eq-some (field_named fields name) _ h in
    subst (λ (x : R → ℕ). x q < bound) (some_inj made) (ground arith)

module _ (c : RangeCrate) (search : BinarySearch) (d : DebugCrate)
    (get_symbols : MinidumpModule d → Option (SymbolFile c)) (memory : ℕ → Option ℕ)
    (modules : List (MinidumpModule d)) (l : MinidumpModuleList c d)
    (made : from_modules d c modules ≡ some l) (ok : FilesOk d get_symbols) where
  -- Unwinding an amd64 stack from one context frame, in a build without overflow checks, ends within
  -- 2 ^ 64 rounds without a panic in the symbol code, and the stack pointers of the frames grow from
  -- each callee to its caller, whatever the stack memory holds. It does if the module list is one
  -- that `from_modules` makes, every symbol file is in order (`FileOk`) and has framedata records
  -- with programs and fpo records without them (`WinOk`), and the frame's stack pointer is a 64-bit
  -- value.
  pub amd64_walk_stack-symbol_provider :
      (is_windows has_memory : Bool) (frame : StackFrame ContextAmd64)
      → Fits frame
      → (frames : List (StackFrame ContextAmd64)) × (walk_stack
            (release_provider amd64_context c search d get_symbols memory modules l made ok)
            (Amd64.get_caller_frame is_windows
              (release_provider amd64_context c search d get_symbols memory modules l made ok))
            has_memory
            u64_mod
            (frame ∷ [])
          ≡ some frames)
        × Rises (λ f. f.ctx rsp) frames
  amd64_walk_stack-symbol_provider is_windows has_memory frame fits =
      amd64_walk_stack_ends is_windows
        (release_provider amd64_context c search d get_symbols memory modules l made ok)
        (release_provider-IsSound amd64_context (λ (ctx : ContextAmd64). ctx rsp)
          (write_field-Fits amd64_index amd64_fields rsp u64_mod) c search d get_symbols memory
          modules l made ok)
        has_memory frame fits

  -- Unwinding an arm64 stack from one context frame, in a build without overflow checks, ends within
  -- 2 ^ 65 rounds without a panic in the symbol code, and every frame ranks above its callee (its
  -- stack pointer is greater, or the callee is the frame of the context and the stack pointers are
  -- equal), whatever the stack memory holds. It does if the module list is one that `from_modules`
  -- makes, every symbol file is in order (`FileOk`) and has framedata records with programs and fpo
  -- records without them (`WinOk`), and the frame's stack pointer is a 64-bit value.
  pub arm64_walk_stack-symbol_provider :
      (last_module : Option (ℕ × ℕ)) (has_memory : Bool) (frame : StackFrame ContextArm64)
      → frame.ctx sp < u64_mod
      → (frames : List (StackFrame ContextArm64)) × (walk_stack
            (release_provider arm64_context c search d get_symbols memory modules l made ok)
            (Arm64.get_caller_frame last_module
              (release_provider arm64_context c search d get_symbols memory modules l made ok))
            has_memory
            (2 * u64_mod)
            (frame ∷ [])
          ≡ some frames)
        × Rises (leaf_rank Arm64.arm64_arch) frames
  arm64_walk_stack-symbol_provider last_module has_memory frame fits =
      arm64_walk_stack_ends last_module
        (release_provider arm64_context c search d get_symbols memory modules l made ok)
        (release_provider-IsSound arm64_context (λ (ctx : ContextArm64). ctx sp)
          (write_field-Fits arm64_index arm64_fields sp u64_mod) c search d get_symbols memory
          modules l made ok)
        has_memory frame fits

  -- Unwinding a 32-bit arm stack from one context frame, in a build without overflow checks, ends
  -- within 2 ^ 33 rounds without a panic in the symbol code, and every frame ranks above its callee
  -- (its stack pointer is greater, or the callee is the frame of the context and the stack pointers
  -- are equal), whatever the stack memory holds. It does if the module list is one that
  -- `from_modules` makes, every symbol file is in order (`FileOk`) and has framedata records with
  -- programs and fpo records without them (`WinOk`), and the frame's stack pointer is a 32-bit
  -- value.
  pub arm_walk_stack-symbol_provider :
      (is_ios has_memory : Bool) (frame : StackFrame ContextArm)
      → frame.ctx (ireg 13) < u32_mod
      → (frames : List (StackFrame ContextArm)) × (walk_stack
            (release_provider arm_context c search d get_symbols memory modules l made ok)
            (Arm.get_caller_frame is_ios
              (release_provider arm_context c search d get_symbols memory modules l made ok))
            has_memory
            (2 * u32_mod)
            (frame ∷ [])
          ≡ some frames)
        × Rises (leaf_rank Arm.arm_arch) frames
  arm_walk_stack-symbol_provider is_ios has_memory frame fits =
      arm_walk_stack_ends is_ios
        (release_provider arm_context c search d get_symbols memory modules l made ok)
        (release_provider-IsSound arm_context (λ (ctx : ContextArm). ctx (ireg 13))
          (write_field-Fits arm_index arm_fields (ireg 13) u32_mod) c search d get_symbols memory
          modules l made ok)
        has_memory frame fits
