-- ===== src/SymFile/Cfi.antt =====
-- breakpad-symbols/src/sym_file/walker.rs: the evaluator of STACK CFI expressions.
pub mod Trees
pub mod Recovered
pub mod Rules
pub mod Walk
use Prim.Native.Nat.{bit_and, bit_xor}
use rust_minidump.Base.{
  ℕ, zero, suc, ◌+◌, ◌-◌, ◌*◌, ◌/◌, ◌%◌, ◌^◌, Bool, true, false, not, ◌||◌, Option, none, some,
  List, [], ◌∷◌, nat_eq, if◌then◌else◌, Bytes, text, bytes_eq, u64_mod, wrapping_add, wrapping_sub,
  wrapping_mul, ◌>>=◌,
}
use rust_minidump.SymFile.FrameWalker.{FrameWalker}
use rust_minidump.SymFile.Tokens.{words, after_dollar, signed_from_str}

pub data BinaryOp : Type 0 where
  add sub mul div rem align : BinaryOp

-- The arms of the `match` on a token.
pub data CfiToken : Type 0 where
  binary : BinaryOp → CfiToken
  deref cfa_value undef : CfiToken
  other : Bytes → CfiToken

unfoldable pub classify : Bytes → CfiToken
classify token =
    if bytes_eq token (text "+")
    then binary add
    else if bytes_eq token (text "-")
    then binary sub
    else if bytes_eq token (text "*")
    then binary mul
    else if bytes_eq token (text "/")
    then binary div
    else if bytes_eq token (text "%")
    then binary rem
    else if bytes_eq token (text "@")
    then binary align
    else if bytes_eq token (text "^")
    then deref
    else if bytes_eq token (text ".cfa")
    then cfa_value
    else if bytes_eq token (text ".undef")
    then undef
    else other token

-- The number of ones among the lowest `n` binary digits.
abbrev pub count_ones : ℕ → ℕ → ℕ
count_ones zero x = 0
count_ones (suc n) x = x % 2 + count_ones n (x / 2)

-- `is_power_of_two` of an integer of `w` bits.
unfoldable pub is_power_of_two : ℕ → ℕ → Bool
is_power_of_two w x = nat_eq (count_ones w x) 1

-- `lhs & (-1 ^ (rhs - 1))` at the width `w`.
unfoldable pub align_down : ℕ → ℕ → ℕ → ℕ
align_down w lhs rhs = bit_and lhs (bit_xor (2 ^ w - 1) (rhs - 1))

-- The operators of both evaluators, on unsigned integers of `w` bits.
unfoldable pub apply_op : ℕ → BinaryOp → ℕ → ℕ → Option ℕ
unfolding is_power_of_two align_down
apply_op w add lhs rhs = some (wrapping_add (2 ^ w) lhs rhs)
apply_op w sub lhs rhs = some (wrapping_sub (2 ^ w) lhs rhs)
apply_op w mul lhs rhs = some (wrapping_mul (2 ^ w) lhs rhs)
apply_op w div lhs rhs = if nat_eq rhs 0 then none else some (lhs / rhs)
apply_op w rem lhs rhs = if nat_eq rhs 0 then none else some (lhs % rhs)
apply_op w align lhs rhs =
    if nat_eq rhs 0 || not (is_power_of_two w rhs) then none else some (align_down w lhs rhs)

module _ {S : Type 0} (w : FrameWalker S) (s : S) (cfa : Option ℕ) where
  -- Registers with `$`, then constants, then registers without.
  unfoldable pub value_of : Bytes → Option ℕ
  unfolding after_dollar signed_from_str
  value_of token = elim (after_dollar token) [
    | some reg ↦ w.get_callee_register s reg
    | none ↦ elim (signed_from_str u64_mod token) [
      | some value ↦ some value
      | none ↦ w.get_callee_register s token
    ]
  ]

  -- One round of the loop. The top of the stack stands first.
  unfoldable pub eval_step : CfiToken → List ℕ → Option (List ℕ)
  eval_step (binary op) (rhs ∷ lhs ∷ stack) = do v ← apply_op 64 op lhs rhs; some (v ∷ stack)
  eval_step (binary op) _ = none
  eval_step deref (ptr ∷ stack) = do v ← w.get_register_at_address s ptr; some (v ∷ stack)
  eval_step deref [] = none
  eval_step cfa_value stack = do v ← cfa; some (v ∷ stack)
  eval_step undef stack = none
  eval_step (other token) stack = do v ← value_of token; some (v ∷ stack)

  unfoldable pub eval_tokens : List Bytes → List ℕ → Option (List ℕ)
  eval_tokens [] stack = some stack
  eval_tokens (token ∷ tokens) stack = do
    stack' ← eval_step (classify token) stack
    eval_tokens tokens stack'

  -- The stack must hold one value at the end.
  abbrev pub single_value : List ℕ → Option ℕ
  single_value (v ∷ []) = some v
  single_value _ = none

  unfoldable pub eval_cfi_expr : Bytes → Option ℕ
  unfolding eval_tokens eval_step value_of classify
  eval_cfi_expr expr = do stack ← eval_tokens (words expr) []; single_value stack
