-- ===== src/Tests/Wins.antt =====
-- STACK WIN records on a 32-bit walker, and the theorems on them.
use rust_minidump.Base.{
  ℕ, ◌≡◌, ◌≢◌, refl, Bool, true, false, Option, none, some, some_inj, u32_mod, ◌<◌, ◌≤◌, ◌+◌, List,
  [], ◌∷◌, Bytes, text, bytes_eq, nat_eq, if◌then◌else◌, get, insert, remove, ◌>>=◌, arith,
}
use rust_minidump.SymFile.FrameWalker.{FrameWalker}
use rust_minidump.SymFile.Types.{StackInfoWin, program_string, allocates_base_pointer}
use rust_minidump.SymFile.Tokens.{words, split_ascii_whitespace, signed_from_str}
use rust_minidump.SymFile.Cfi.{apply_op, add}
use rust_minidump.SymFile.Cfi.Walk.{Outcome, panicked, done, failed}
use rust_minidump.SymFile.Win.{classify, win_tokens, split_assign, win_loop, win_step, Vars}
use rust_minidump.SymFile.Win.Walks.{walk_with_stack_win_framedata, walk_with_stack_win_fpo}
use rust_minidump.SymFile.Win.Operands.{
  Statement, set, unset, name, number, load, node, program_tokens, run_program,
}
use rust_minidump.SymFile.Win.Programs.{win_loop-program_tokens}
use rust_minidump.SymFile.Win.Fpo.{walk_with_stack_win_fpo_returns}
use rust_minidump.Tests.Walkers.{Frame, no_frame, one_frame}

abbrev pub callee32 : Bytes → Option ℕ
callee32 r =
    if bytes_eq r (text "esp")
    then some 1000
    else if bytes_eq r (text "ebp")
    then some 1016
    else if bytes_eq r (text "eip")
    then some 55
    else none

abbrev pub memory32 : ℕ → Option ℕ
memory32 a =
    if nat_eq a 996
    then some 12
    else if nat_eq a 1004
    then some 55
    else if nat_eq a 1008
    then some 4242
    else if nat_eq a 1012
    then some 99
    else none

abbrev pub walker32 : FrameWalker Frame
walker32 = record one_frame {
  has_grand_callee = λ s. false;
  get_register_at_address = λ s a. memory32 a;
  get_callee_register = λ s r. callee32 r;
}

abbrev pub with_program : StackInfoWin
with_program = record {
  address = 16;
  size = 64;
  prologue_size = 1;
  epilogue_size = 0;
  parameter_size = 8;
  saved_register_size = 4;
  local_size = 4;
  max_stack_size = 0;
  program_string_or_base_pointer =
      program_string (text "$T0 .raSearch = $eip $T0 ^ = $esp $T0 4 + = $ebx .undef =");
}

abbrev pub omitted : StackInfoWin
omitted = record with_program {
  local_size = 0;
  program_string_or_base_pointer = allocates_base_pointer true;
}

-- `$T0 .raSearch = $eip $T0 ^ = $esp $T0 4 + = $ebx .undef =`
abbrev program : List Statement
program =
    set (text "$T0") (name (text ".raSearch"))
    ∷ set (text "$eip") (load (name (text "$T0")))
    ∷ set (text "$esp") (node add (name (text "$T0")) (number (text "4") 4))
    ∷ unset (text "$ebx")
    ∷ []

abbrev start_vars : Vars
start_vars = (text ".raSearch", 1008) ∷ (text "$ebx", 3) ∷ []

run_tokens :
    win_tokens (words (text "$T0 .raSearch =$eip $T0 ^ =$esp $T0 4 + = $ebx .undef ="))
    ≡ program_tokens program
unfolding win_tokens split_assign split_ascii_whitespace
run_tokens = refl

win_loop-program_tokens_example :
    win_loop walker32 no_frame (program_tokens program) (start_vars, [])
    ≡ (run_program walker32 no_frame program start_vars >>= λ vars'. some (vars', []))
win_loop-program_tokens_example = win_loop-program_tokens walker32 no_frame program start_vars (
    unfold classify signed_from_str in (refl, refl, (refl, refl, (refl, (refl, refl), (refl, tt)))))

-- Where the caller is, after a walk that succeeds.
abbrev caller_of : Outcome Frame → Option ℕ × Option ℕ × Option ℕ
caller_of (done f) = (f.caller (text "eip"), f.caller (text "esp"), f.caller (text "ebp"))
caller_of (failed f) = (none, none, none)
caller_of panicked = (none, none, none)

-- The return address at 1004 is left over: it is the callee's own `eip`.
run_fpo :
    caller_of (walk_with_stack_win_fpo walker32 true omitted no_frame)
    ≡ (some 4242, some 1012, some 12)
unfolding walk_with_stack_win_fpo
run_fpo = refl

run_framedata :
    caller_of (walk_with_stack_win_framedata walker32 true with_program no_frame)
    ≡ (some 4242, some 1012, some 1016)
unfolding walk_with_stack_win_framedata split_assign split_ascii_whitespace classify apply_op insert
    get remove win_step
run_framedata = refl

pub high_enough :
    (esp : ℕ) → 1000 ≡ esp → (esp < u32_mod) × (◌≡◌ {A = Bool} true true → 8 ≤ esp + 0 + 4)
high_enough esp e = (omega arith, λ _. omega arith)

walk_with_stack_win_fpo_returns_example :
    walk_with_stack_win_fpo walker32 true omitted no_frame ≢ panicked
walk_with_stack_win_fpo_returns_example =
    walk_with_stack_win_fpo_returns walker32 true omitted true no_frame refl (omega arith)
      (λ esp e. high_enough esp (some_inj e))
