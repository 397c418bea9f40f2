-- ===== src/SymFile/Tokens.antt =====
-- What the evaluators use of `str`: words, affixes and signed decimal numbers.
pub mod Words
use rust_minidump.Base.{
  ℕ, ◌+◌, ◌-◌, ◌*◌, ◌/◌, ◌%◌, Bool, true, false, ◌&&◌, ◌||◌, Option, none, some, List, [], ◌∷◌,
  ◌++◌, map, length, nat_eq, ltb, leb, if◌then◌else◌, Bytes, ◌>>=◌,
}

abbrev pub is_ascii_whitespace : ℕ → Bool
is_ascii_whitespace c = nat_eq c 32 || nat_eq c 9 || nat_eq c 10 || nat_eq c 12 || nat_eq c 13

-- A word and where it starts in the text.
pub record Token : Type 0 where
  pub start : ℕ
  pub word : Bytes

-- An empty word is no word; `pos` is where the word ends.
abbrev pub flush : ℕ → Bytes → List Token → List Token
flush pos [] rest = rest
flush pos (c ∷ cs) rest = record { start = pos - length (c ∷ cs); word = c ∷ cs } ∷ rest

-- `cur` is the word that has been read up to `pos`.
unfoldable pub split_from : ℕ → Bytes → Bytes → List Token
split_from pos cur [] = flush pos cur []
split_from pos cur (c ∷ r) = elim (is_ascii_whitespace c) [
  | true ↦ flush pos cur (split_from (pos + 1) [] r)
  | false ↦ split_from (pos + 1) (cur ++ c ∷ []) r
]

unfoldable pub split_ascii_whitespace : Bytes → List Token
unfolding split_from
split_ascii_whitespace input = split_from 0 [] input

abbrev pub words : Bytes → List Bytes
words input = map (λ t. t.word) (split_ascii_whitespace input)

-- `token.split_once('$')`, of which only the second part is used.
unfoldable pub after_dollar : Bytes → Option Bytes
after_dollar [] = none
after_dollar (c ∷ cs) = if nat_eq c b'$' then some cs else after_dollar cs

-- The value of a run of decimal digits.
unfoldable pub digits_value : ℕ → Bytes → Option ℕ
digits_value acc [] = some acc
digits_value acc (c ∷ cs) = elim (leb b'0' c && leb c b'9') [
  | true ↦ digits_value (acc * 10 + (c - b'0')) cs
  | false ↦ none
]

-- Digits, at least one.
abbrev pub magnitude : Bytes → Option ℕ
magnitude [] = none
magnitude (c ∷ cs) = digits_value 0 (c ∷ cs)

abbrev pub at_most : ℕ → ℕ → Option ℕ
at_most bound n = if leb n bound then some n else none

-- `from_str` of the signed integers of modulus `m`, as the bit pattern that `as u32`, `as u64` give.
unfoldable pub signed_from_str : ℕ → Bytes → Option ℕ
unfolding digits_value
signed_from_str m [] = none
signed_from_str m (c ∷ cs) =
    if nat_eq c b'-'
    then (do n ← magnitude cs; k ← at_most (m / 2) n; some ((m - k) % m))
    else if nat_eq c b'+'
    then (do n ← magnitude cs; at_most (m / 2 - 1) n)
    else (do n ← magnitude (c ∷ cs); at_most (m / 2 - 1) n)
