-- ===== src/SymFile/Win.antt =====
-- breakpad-symbols/src/sym_file/walker.rs: unwinding by STACK WIN records of 32-bit x86 code.
pub mod Walks
pub mod Operands
pub mod Programs
pub mod Fpo
pub mod Unchecked
use rust_minidump.Base.{
  ℕ, zero, suc, ◌+◌, ◌-◌, ◌%◌, Bool, true, false, not, ◌||◌, ◌&&◌, Option, none, some, List, [],
  ◌∷◌, ◌++◌, nat_eq, ltb, leb, if◌then◌else◌, Bytes, text, bytes_eq, Bytes-PartialEq, HashMap, get,
  insert, remove, u32_mod, u64_mod, checked_add, ◌>>=◌,
}
use rust_minidump.SymFile.FrameWalker.{FrameWalker}
use rust_minidump.SymFile.Types.{StackInfoWin, program_string, allocates_base_pointer}
use rust_minidump.SymFile.Tokens.{words, signed_from_str}
use rust_minidump.SymFile.Cfi.{BinaryOp, add, sub, mul, div, rem, align, apply_op}
use rust_minidump.SymFile.Cfi.Walk.{Outcome, done, failed, panicked, need, proceed}

pub data WinVal : Type 0 where
  var : Bytes → WinVal
  int : ℕ → WinVal
  undef : WinVal

abbrev pub Vars : Type 0
Vars = HashMap Bytes ℕ

unfoldable pub into_var : WinVal → Option Bytes
into_var (var name) = some name
into_var (int n) = none
into_var undef = none

unfoldable pub into_int : Vars → WinVal → Option ℕ
into_int vars (var name) = get vars name
into_int vars (int n) = some n
into_int vars undef = none

-- The arms of the `match` on a token.
pub data WinToken : Type 0 where
  binary : BinaryOp → WinToken
  assign deref undefined unknown : WinToken
  register : Bytes → WinToken
  constant : ℕ → WinToken

abbrev pub starts_with : ℕ → Bytes → Bool
starts_with k [] = false
starts_with k (c ∷ cs) = nat_eq c k

-- Names, then constants.
unfoldable pub classify_rest : Bytes → WinToken
unfolding signed_from_str
classify_rest token =
    if starts_with b'$' token || starts_with b'.' token
    then register token
    else elim (signed_from_str u32_mod token) [ some value ↦ constant value | none ↦ unknown ]

unfoldable pub classify : Bytes → WinToken
unfolding classify_rest
classify token =
    if bytes_eq token (text "+")
    then binary add
    else if bytes_eq token (text "-")
    then binary sub
    else if bytes_eq token (text "*")
    then binary mul
    else if bytes_eq token (text "/")
    then binary div
    else if bytes_eq token (text "%")
    then binary rem
    else if bytes_eq token (text "@")
    then binary align
    else if bytes_eq token (text "=")
    then assign
    else if bytes_eq token (text "^")
    then deref
    else if bytes_eq token (text ".undef")
    then undefined
    else classify_rest token

-- `=NEXT` is read as `= NEXT`.
unfoldable pub split_assign : Bytes → List Bytes
split_assign [] = [] ∷ []
split_assign (c ∷ []) = (c ∷ []) ∷ []
split_assign (c ∷ d ∷ cs) = if nat_eq c b'=' then (c ∷ []) ∷ (d ∷ cs) ∷ [] else (c ∷ d ∷ cs) ∷ []

unfoldable pub win_tokens : List Bytes → List Bytes
win_tokens [] = []
win_tokens (x ∷ xs) = split_assign x ++ win_tokens xs

-- The variables and the stack, whose top stands first.
abbrev pub WinState : Type 0
WinState = Vars × List WinVal

abbrev pub assign_to : Bytes → WinVal → Vars → Option Vars
assign_to name (var other) vars = do
  value ← into_int vars (var other)
  some (insert vars name value)
assign_to name (int n) vars = do value ← into_int vars (int n); some (insert vars name value)
assign_to name undef vars = some (remove vars name)

module _ {S : Type 0} (w : FrameWalker S) (s : S) where
  -- One round of the loop.
  unfoldable pub win_step : WinToken → WinState → Option WinState
  unfolding into_int into_var
  win_step (binary op) (vars, r ∷ l ∷ stack) = do
    rhs ← into_int vars r
    lhs ← into_int vars l
    v ← apply_op 32 op lhs rhs
    some (vars, int v ∷ stack)
  win_step (binary op) (vars, _) = none
  win_step assign (vars, rhs ∷ l ∷ stack) = do
    lhs ← into_var l
    vars' ← assign_to lhs rhs vars
    some (vars', stack)
  win_step assign (vars, _) = none
  win_step deref (vars, p ∷ stack) = do
    ptr ← into_int vars p
    v ← w.get_register_at_address s ptr
    some (vars, int (v % u32_mod) ∷ stack)
  win_step deref (vars, []) = none
  win_step undefined (vars, stack) = some (vars, undef ∷ stack)
  win_step unknown (vars, stack) = none
  win_step (register name) (vars, stack) = some (vars, var name ∷ stack)
  win_step (constant n) (vars, stack) = some (vars, int n ∷ stack)

  unfoldable pub win_loop : List Bytes → WinState → Option WinState
  win_loop [] st = some st
  win_loop (token ∷ tokens) st = do st' ← win_step (classify token) st; win_loop tokens st'
