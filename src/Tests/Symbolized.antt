-- ===== src/Tests/Symbolized.antt =====
-- A stack unwound by a module list and a parsed symbol file.
use rust_minidump.Base.{
  ℕ, ◌≡◌, refl, true, false, Option, none, some, some_inj, subst, get, insert, remove, List, [],
  ◌∷◌, text, nat_eq, if◌then◌else◌, u32_mod, u64_mod, ◌*◌, arith,
}
use rust_minidump.SymFile.Types.{SymbolFile}
use rust_minidump.SymFile.Tokens.{split_ascii_whitespace}
use rust_minidump.SymFile.Cfi.{eval_cfi_expr, apply_op}
use rust_minidump.SymFile.Cfi.Rules.{parse_cfi_exprs, strip_colon, reg_of, slice}
use rust_minidump.SymFile.Cfi.Walk.{Outcome, done, failed, panicked, walk_with_stack_cfi}
use rust_minidump.SymFile.Queries
use rust_minidump.Minidump.Modules.{linux, MinidumpModule, MinidumpModuleList, from_modules}
use rust_minidump.Unwind.Contexts.{
  ContextX86, esp, eip, x86_context, all, no_names, register_is_valid, memoize_register,
  get_register_always, set_register, register_named,
}
use rust_minidump.Unwind.Walker.{CfiStackWalker, cfi_stack_walker}
use rust_minidump.Unwind.Frames.{StackFrame, context, Provider}
use rust_minidump.Unwind.Frames.Stack.{walk_stack}
use rust_minidump.Unwind.Frames.Ends.{Rises}
use rust_minidump.Unwind.X86.{get_caller_frame, context_of}
use rust_minidump.Unwind.Contexts.{CpuContext}
use rust_minidump.Unwind.Contexts.Amd64.{ContextAmd64, rsp, amd64_context}
use rust_minidump.Unwind.Contexts.Arm.{ContextArm, arm_context}
use rust_minidump.Unwind.Contexts.Arm64.{ContextArm64, arm64_context}
use rust_minidump.Unwind.Frames.Leaves.{leaf_rank}
use rust_minidump.Unwind.Amd64
use rust_minidump.Unwind.Arm
use rust_minidump.Unwind.Arm64
use rust_minidump.Unwind.Symbols.Ends.{
  amd64_walk_stack-symbol_provider, arm64_walk_stack-symbol_provider,
  arm_walk_stack-symbol_provider,
}
use rust_minidump.Unwind.Symbols.{symbolizer_walk_frame}
use rust_minidump.Unwind.Symbols.Unchecked.{FilesOk, release_provider}
use rust_minidump.SymFile.Queries.Loops.{FileOk}
use rust_minidump.SymFile.Queries.Unchecked.{WinOk}
use rust_minidump.RangeMapSafe.{into_rangemap_safe_opt, rev_onto, push_valid, push_range}
use rust_minidump.RangeMapSafe.Sort.{sort_by_key}
use rust_minidump.Minidump.Indexed.{index_by_addr}
use rust_minidump.Unwind.Symbols.Sound.{walk_stack-symbol_provider}
use rust_minidump.Tests.Crates.{list_crate, linear_search}
use rust_minidump.Tests.Modules.{debug_crate, raw_module}

abbrev program : MinidumpModule debug_crate
program = record {
  raw = raw_module 8192 4096 0;
  name = text "a";
  codeview_info = none;
  os = linux;
  debug_id = none;
}

abbrev modules : MinidumpModuleList list_crate debug_crate
modules = record {
  modules = program ∷ [];
  modules_by_addr = (record { start = 8192; end = 12287 }, 0) ∷ [];
}

-- The return address is the word at the stack pointer.
abbrev symbols : SymbolFile list_crate
symbols = record {
  module_id = [];
  debug_file = [];
  files = [];
  publics = [];
  functions = [];
  inline_origins = [];
  cfi_stack_info =
      (
        record { start = 0; end = 99 },
        record {
          init = record { address = 0; rules = text ".cfa: $esp 4 + .ra: .cfa 4 - ^" };
          size = 100;
          add_rules = [];
        },
      )
      ∷ [];
  win_stack_framedata_info = [];
  win_stack_fpo_info = [];
  url = none;
}

abbrev get_symbols : MinidumpModule debug_crate → Option (SymbolFile list_crate)
get_symbols m = some symbols

abbrev stack_word : ℕ → Option ℕ
stack_word a = if nat_eq a 100 then some 9000 else none

abbrev walker : CfiStackWalker ContextX86
walker = record {
  instruction = 8202;
  has_grand_callee = false;
  grand_callee_parameter_size = 0;
  callee_ctx = context_of 8202 100 0;
  callee_validity = all;
  caller_ctx = context_of 8202 100 0;
  caller_validity = no_names;
}

abbrev registers_of : Outcome (CfiStackWalker ContextX86) → Option (ℕ × ℕ)
registers_of (done s) = some (s.caller_ctx eip, s.caller_ctx esp)
registers_of (failed s) = none
registers_of panicked = none

caller_found :
    registers_of (
      symbolizer_walk_frame x86_context list_crate linear_search debug_crate get_symbols true
        stack_word program walker)
    ≡ some (9000, 104)
unfolding symbolizer_walk_frame Queries.walk_frame cfi_stack_walker walk_with_stack_cfi
    parse_cfi_exprs split_ascii_whitespace strip_colon get insert reg_of remove eval_cfi_expr slice
    register_is_valid memoize_register get_register_always apply_op set_register register_named
caller_found = refl

abbrev top_frame : StackFrame ContextX86
top_frame = record {
  instruction = 8202;
  resume_address = 8202;
  parameter_size = none;
  trust = context;
  ctx = context_of 8202 100 0;
  valid = all;
}

modules_made : from_modules debug_crate list_crate (program ∷ []) ≡ some modules
unfolding from_modules index_by_addr into_rangemap_safe_opt rev_onto push_valid sort_by_key
    push_range
modules_made = refl

files_ok : FilesOk debug_crate get_symbols
files_ok = record {
  ordered = λ m file e. subst FileOk (some_inj e) (λ addr f h. cc);
  kinds = λ m file e.
      subst WinOk (some_inj e)
        (record { programs = λ addr info h. cc; base_pointers = λ addr info h. cc });
}

abbrev provider : Provider ContextX86
provider =
    release_provider x86_context list_crate linear_search debug_crate get_symbols stack_word
      (program ∷ []) modules modules_made files_ok

walk_stack-symbol_provider_example :
    (frames : List (StackFrame ContextX86)) × (walk_stack provider
        (get_caller_frame provider)
        true
        u32_mod
        (top_frame ∷ [])
      ≡ some frames)
    × Rises (λ f. f.ctx esp) frames
walk_stack-symbol_provider_example =
    walk_stack-symbol_provider list_crate linear_search debug_crate get_symbols stack_word
      (program ∷ []) modules modules_made files_ok true top_frame (omega arith)

abbrev start_of : {C : Type 0} → C → StackFrame C
start_of ctx = record {
  instruction = 8202;
  resume_address = 8202;
  parameter_size = none;
  trust = context;
  ctx = ctx;
  valid = all;
}

abbrev provider_for : {C : Type 0} → CpuContext C → Provider C
provider_for cpu =
    release_provider cpu list_crate linear_search debug_crate get_symbols stack_word (program ∷ [])
      modules modules_made files_ok

amd64_walk_stack-symbol_provider_example :
    (frames : List (StackFrame ContextAmd64)) × (walk_stack
        (provider_for amd64_context)
        (Amd64.get_caller_frame false (provider_for amd64_context))
        true
        u64_mod
        (start_of (Amd64.context_of 8202 100 0) ∷ [])
      ≡ some frames)
    × Rises (λ f. f.ctx rsp) frames
amd64_walk_stack-symbol_provider_example =
    amd64_walk_stack-symbol_provider list_crate linear_search debug_crate get_symbols stack_word
      (program ∷ []) modules modules_made files_ok false true
      (start_of (Amd64.context_of 8202 100 0)) (omega arith)

arm64_walk_stack-symbol_provider_example :
    (frames : List (StackFrame ContextArm64)) × (walk_stack
        (provider_for arm64_context)
        (Arm64.get_caller_frame none (provider_for arm64_context))
        true
        (2 * u64_mod)
        (start_of (Arm64.context_of 8202 100 0) ∷ [])
      ≡ some frames)
    × Rises (leaf_rank Arm64.arm64_arch) frames
arm64_walk_stack-symbol_provider_example =
    arm64_walk_stack-symbol_provider list_crate linear_search debug_crate get_symbols stack_word
      (program ∷ []) modules modules_made files_ok none true
      (start_of (Arm64.context_of 8202 100 0)) (omega arith)

arm_walk_stack-symbol_provider_example :
    (frames : List (StackFrame ContextArm)) × (walk_stack
        (provider_for arm_context)
        (Arm.get_caller_frame true (provider_for arm_context))
        true
        (2 * u32_mod)
        (start_of (Arm.context_of 8202 100 0) ∷ [])
      ≡ some frames)
    × Rises (leaf_rank Arm.arm_arch) frames
arm_walk_stack-symbol_provider_example =
    arm_walk_stack-symbol_provider list_crate linear_search debug_crate get_symbols stack_word
      (program ∷ []) modules modules_made files_ok true true (start_of (Arm.context_of 8202 100 0))
      (omega arith)
