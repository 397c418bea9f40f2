-- ===== src/Tests/Unwinds.antt =====
-- A stack of two x86 frames, and the theorems on it.
use rust_minidump.Base.{
  ℕ, ◌+◌, ◌<◌, ◌≤◌, ◌≡◌, refl, Bool, true, false, Option, none, some, text, nat_eq, if◌then◌else◌,
}
use rust_minidump.SymFile.Win.Walks.{clear_stack_win_caller_registers}
use rust_minidump.SymFile.Cfi.Walk.Order.{IsIndependent}
use rust_minidump.Unwind.Contexts.{ContextX86, ebp, name_of, all, only, no_names, with_name}
use rust_minidump.Unwind.Walker.{CfiStackWalker, x86_walker}
use rust_minidump.Unwind.Walker.Cleared.{clear_stack_win_caller_registers_idle}
use rust_minidump.Unwind.Walker.Independent.{x86_walker-IsIndependent}
use rust_minidump.Unwind.Frames.{StackFrame, context, scan, Provider, from_context}
use rust_minidump.Unwind.X86.{context_of, get_caller_by_scan, get_caller_frame}
use rust_minidump.Unwind.X86.Progress.{get_caller_frame_progress}
use rust_minidump.Unwind.X86.Scans.{IsFirstWord, get_caller_by_scan_sound}

-- One module at 8192..12287, without symbols; the stack holds a word that points into it.
abbrev stack_word : ℕ → Option ℕ
stack_word a = if nat_eq a 100 then some 1 else if nat_eq a 104 then some 9000 else none

abbrev without_symbols : Provider ContextX86
without_symbols = record {
  Module = Bool;
  module_at_address = λ a. if nat_eq a 8999 then some true else none;
  get_memory_at_address = stack_word;
  walk_frame = λ m s. none;
  fill_symbol_name = λ m a. none;
  fill_symbol = λ m f. f;
}

abbrev top_frame : StackFrame ContextX86
top_frame = record {
  instruction = 8192;
  resume_address = 8192;
  parameter_size = none;
  trust = context;
  ctx = context_of 8192 100 4;
  valid = all;
}

-- What the scan makes of it.
abbrev scanned_caller : StackFrame ContextX86
scanned_caller =
    from_context 9000 (context_of 9000 108 0)
      (only (with_name (text "esp") (with_name (text "eip") no_names))) scan

run_scan : get_caller_by_scan without_symbols top_frame ≡ some scanned_caller
unfolding get_caller_by_scan
run_scan = refl

get_caller_by_scan_sound_example :
    (i : ℕ) × (i < 160) × IsFirstWord without_symbols 100 i scanned_caller
get_caller_by_scan_sound_example =
    get_caller_by_scan_sound without_symbols top_frame scanned_caller run_scan

run_caller :
    get_caller_frame without_symbols top_frame none
    ≡ some (record scanned_caller { instruction = 8999 })
unfolding get_caller_frame from_context
run_caller = refl

get_caller_frame_progress_example : (100 < 108) × (4096 ≤ 9000) × (8999 + 1 ≡ 9000)
unfolding from_context
get_caller_frame_progress_example =
    get_caller_frame_progress without_symbols top_frame
      (record scanned_caller { instruction = 8999 }) none run_caller

abbrev fresh_walker : CfiStackWalker ContextX86
fresh_walker = record {
  instruction = 8192;
  has_grand_callee = false;
  grand_callee_parameter_size = 0;
  callee_ctx = context_of 8192 100 4;
  callee_validity = all;
  caller_ctx = context_of 8192 100 4;
  caller_validity = with_name (text "ebp") no_names;
}

clear_stack_win_caller_registers_idle_example :
    (clear_stack_win_caller_registers (x86_walker stack_word) fresh_walker).caller_validity
      (name_of ebp)
    ≡ true
clear_stack_win_caller_registers_idle_example =
    clear_stack_win_caller_registers_idle stack_word ebp fresh_walker

x86_walker-IsIndependent_example : IsIndependent (x86_walker stack_word)
x86_walker-IsIndependent_example = x86_walker-IsIndependent stack_word
