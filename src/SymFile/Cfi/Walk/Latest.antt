-- ===== src/SymFile/Cfi/Walk/Latest.antt =====
-- Which rule of a register is used, when several lines have one.
use rust_minidump.Base.{
  ◌≡◌, refl, ◌∙◌, ap, Option, none, some, List, [], ◌∷◌, Bytes, HashMap, get, ◌>>=◌,
}
use rust_minidump.SymFile.Types.{CfiRules}
use rust_minidump.SymFile.Cfi.Rules.{CfiReg, CfiReg-PartialEq, parse_cfi_exprs}
use rust_minidump.SymFile.Cfi.Rules.Latest.{
  or_else, BothRules, parsed, malformed, parse_cfi_exprs-BothRules,
}
use rust_minidump.SymFile.Cfi.Walk.{parse_lines}

-- The rule that a line has for a register.
abbrev pub rule_in : CfiRules → CfiReg → Option Bytes
rule_in line reg = parse_cfi_exprs line.rules [] >>= λ m. get m reg

-- The rule of the last line that has one.
abbrev pub latest : List CfiRules → CfiReg → Option Bytes
latest [] reg = none
latest (line ∷ lines) reg = or_else (latest lines reg) (rule_in line reg)

or_else_assoc : (a b c : Option Bytes) → or_else a (or_else b c) ≡ or_else (or_else a b) c
or_else_assoc (some a) b c = refl
or_else_assoc none b c = refl

over_latest :
    (lines : List CfiRules) (old out : HashMap CfiReg Bytes) (reg : CfiReg)
    → parse_lines lines old ≡ some out
    → get out reg ≡ or_else (latest lines reg) (get old reg)
unfolding parse_lines
over_latest [] old out reg h = cc
over_latest (line ∷ lines) old out reg h =
    go (parse_cfi_exprs-BothRules old line.rules) (λ mid. over_latest lines mid out reg) h
  where
    go :
        {m n : Option (HashMap CfiReg Bytes)}
        → BothRules old m n
        → ((mid : HashMap CfiReg Bytes)
            → parse_lines lines mid ≡ some out
            → get out reg ≡ or_else (latest lines reg) (get mid reg))
        → (m >>= λ exprs. parse_lines lines exprs) ≡ some out
        → get out reg ≡ or_else (or_else (latest lines reg) (n >>= λ k. get k reg)) (get old reg)
    go malformed ih e = cc
    go (parsed {out = mid} {new = new} over) ih e =
        ih mid e
        ∙ ap (or_else (latest lines reg)) (over reg)
        ∙ or_else_assoc (latest lines reg) (get new reg) (get old reg)

-- The map that the lines are read into holds, for every register, the rule of the last line that
-- has one for it.
pub parse_lines-latest :
    (lines : List CfiRules) (out : HashMap CfiReg Bytes) (reg : CfiReg)
    → parse_lines lines [] ≡ some out
    → get out reg ≡ latest lines reg
unfolding get
parse_lines-latest lines out reg h =
    over_latest lines [] out reg h ∙ or_else_none (latest lines reg)
  where
    or_else_none : (a : Option Bytes) → or_else a none ≡ a
    or_else_none (some a) = refl
    or_else_none none = refl
