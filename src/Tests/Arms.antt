-- ===== src/Tests/Arms.antt =====
-- Stacks of arm and arm64 frames.
use rust_minidump.Base.{
  ◌^◌, ◌<◌, ◌⊎◌, ℕ, ◌+◌, ◌*◌, ◌≡◌, refl, Bool, Option, none, some, text, nat_eq, if◌then◌else◌,
  ◌>>=◌,
}
use rust_minidump.Unwind.Contexts.{all, only, get_register}
use rust_minidump.Unwind.Contexts.Arm64.{ContextArm64, arm64_context, arm64_register_is_valid}
use rust_minidump.Unwind.Frames.{StackFrame, context, frame_pointer, Provider, from_context}
use rust_minidump.Unwind.Frames.Stack.{checked_frame}
use rust_minidump.Unwind.Arm64
use rust_minidump.Unwind.Arm64.{max_module_addr, ptr_auth_strip}
use rust_minidump.Unwind.Arm64.Forwarded.{
  LosesFp, get_caller_by_frame_pointer-LosesFp, get_caller_frame-zero_frame_pointer,
}
use rust_minidump.Unwind.Arm64.PtrAuth.{IsHighBit, highest_address, ptr_auth_strip-add}

-- The word at 1000 is the saved frame pointer, and that at 1008 the return address, with
-- authentication bits.
abbrev stack_word : ℕ → Option ℕ
stack_word a =
    if nat_eq a 1000 then some 1040 else if nat_eq a 1008 then some 0x1234000000005678 else none

abbrev provider : (C : Type 0) → Provider C
provider C = record {
  Module = Bool;
  module_at_address = λ a. none;
  get_memory_at_address = stack_word;
  walk_frame = λ m s. none;
  fill_symbol_name = λ m a. none;
  fill_symbol = λ m f. f;
}

abbrev top_frame : {C : Type 0} → C → StackFrame C
top_frame ctx = record {
  instruction = 8192;
  resume_address = 8192;
  parameter_size = none;
  trust = context;
  ctx = ctx;
  valid = all;
}

abbrev pointed_frame : StackFrame ContextArm64
pointed_frame =
    from_context 0x5678 (Arm64.context_of 0x5678 1016 1040) (only Arm64.with_fp) frame_pointer

run_frame_pointer :
    Arm64.get_caller_by_frame_pointer none
      (provider ContextArm64)
      (top_frame (Arm64.context_of 8192 992 1000))
    ≡ some pointed_frame
unfolding Arm64.get_caller_by_frame_pointer
run_frame_pointer = refl

get_caller_by_frame_pointer-LosesFp_example :
    LosesFp none (provider ContextArm64) pointed_frame.valid
get_caller_by_frame_pointer-LosesFp_example =
    get_caller_by_frame_pointer-LosesFp none (provider ContextArm64)
      (top_frame (Arm64.context_of 8192 992 1000)) pointed_frame run_frame_pointer

abbrev bottom_frame : StackFrame ContextArm64
bottom_frame = top_frame (Arm64.context_of 8192 992 0)

no_cfi : Arm64.get_caller_by_cfi none (provider ContextArm64) bottom_frame none ≡ none
unfolding Arm64.get_caller_by_cfi
no_cfi = refl

zero_fp : get_register arm64_context bottom_frame.ctx (text "x29") bottom_frame.valid ≡ some 0
unfolding get_register arm64_register_is_valid
zero_fp = refl

get_caller_frame-zero_frame_pointer_example :
    Arm64.get_caller_frame none (provider ContextArm64) bottom_frame none ≡ (
      Arm64.get_caller_by_scan none (provider ContextArm64) bottom_frame
      >>= checked_frame Arm64.arm64_arch bottom_frame)
get_caller_frame-zero_frame_pointer_example =
    get_caller_frame-zero_frame_pointer none (provider ContextArm64) bottom_frame none zero_fp
      no_cfi

run_strip : ptr_auth_strip none 0x1234000000005678 ≡ 0x5678
unfolding ptr_auth_strip
run_strip = refl

ptr_auth_strip-add_example :
    ((j : ℕ) × IsHighBit (highest_address (some (2 ^ 48, 4096))) j
      × ((address auth : ℕ)
          → address < highest_address (some (2 ^ 48, 4096))
          → ptr_auth_strip (some (2 ^ 48, 4096)) (address + 2 ^ j * auth) ≡ address))
    ⊎ ((2 ^ 63 < highest_address (some (2 ^ 48, 4096)))
        × ((ptr : ℕ) → ptr_auth_strip (some (2 ^ 48, 4096)) ptr ≡ ptr))
ptr_auth_strip-add_example = ptr_auth_strip-add (some (2 ^ 48, 4096))
