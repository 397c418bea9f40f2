-- ===== src/Tests/Amd64s.antt =====
-- A stack of two amd64 frames, the callee's with a frame pointer.
use rust_minidump.Base.{
  ℕ, ◌+◌, ◌<◌, ◌≡◌, refl, Bool, true, false, Option, none, some, text, nat_eq, if◌then◌else◌,
  u64_mod,
}
use rust_minidump.Unwind.Contexts.{all, only, with_name}
use rust_minidump.Unwind.Contexts.Amd64.{ContextAmd64, rsp}
use rust_minidump.Unwind.Frames.{StackFrame, context, frame_pointer, Provider, from_context}
use rust_minidump.Unwind.Amd64.{context_of, ip_and_sp, get_caller_by_frame_pointer}
use rust_minidump.Unwind.Amd64.Progress.{IsPlausible, get_caller_by_frame_pointer_sound}

-- The word at 1000 is the saved frame pointer, and that at 1008 the return address.
abbrev stack_word : ℕ → Option ℕ
stack_word a =
    if nat_eq a 1000
    then some 1040
    else if nat_eq a 1008
    then some 0x7f0000001234
    else if nat_eq a 1016
    then some 5
    else if nat_eq a 1040
    then some 0
    else none

abbrev without_modules : Provider ContextAmd64
without_modules = record {
  Module = Bool;
  module_at_address = λ a. none;
  get_memory_at_address = stack_word;
  walk_frame = λ m s. none;
  fill_symbol_name = λ m a. none;
  fill_symbol = λ m f. f;
}

abbrev top_frame : StackFrame ContextAmd64
top_frame = record {
  instruction = 8192;
  resume_address = 8192;
  parameter_size = none;
  trust = context;
  ctx = context_of 8192 992 1000;
  valid = all;
}

abbrev pointed_frame : StackFrame ContextAmd64
pointed_frame =
    from_context 0x7f0000001234 (context_of 0x7f0000001234 1016 1040)
      (only (with_name (text "rbp") ip_and_sp)) frame_pointer

run_frame_pointer : get_caller_by_frame_pointer false without_modules top_frame ≡ some pointed_frame
unfolding get_caller_by_frame_pointer
run_frame_pointer = refl

run_windows : get_caller_by_frame_pointer true without_modules top_frame ≡ none
unfolding get_caller_by_frame_pointer
run_windows = refl

get_caller_by_frame_pointer_sound_example :
    (◌≡◌ {A = Bool} false false)
    × (pointed_frame.ctx rsp ≡ 1000 + 16)
    × (pointed_frame.ctx rsp < u64_mod)
    × IsPlausible false without_modules 992 pointed_frame
get_caller_by_frame_pointer_sound_example =
    get_caller_by_frame_pointer_sound false without_modules top_frame pointed_frame
      run_frame_pointer
