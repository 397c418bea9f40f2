-- ===== src/SymFile/Cfi/Rules/Latest.antt =====
-- Later lines and rules overwrite earlier ones.
use rust_minidump.Base.{
  ◌≡◌, refl, Option, none, some, List, [], ◌∷◌, Bytes, HashMap, get, insert, get-insert, ◌>>=◌,
  arith,
}
use rust_minidump.SymFile.Tokens.{Token, split_ascii_whitespace}
use rust_minidump.SymFile.Cfi.Rules.{
  CfiReg, CfiReg-PartialEq, RuleState, begin_reg, extend_expr, expr_text, rule_step, rule_loop,
  finish_rules, parse_cfi_exprs, strip_colon, reg_of,
}

-- The rule of `new` for a register if there is one, else that of `old`.
abbrev pub or_else : Option Bytes → Option Bytes → Option Bytes
or_else (some e) old = some e
or_else none old = old

module _ (old : HashMap CfiReg Bytes) where
  -- `out` is `new` laid over `old`.
  abbrev pub Over : HashMap CfiReg Bytes → HashMap CfiReg Bytes → Type 0
  Over out new = (reg : CfiReg) → get out reg ≡ or_else (get new reg) (get old reg)

  Over-insert :
      (out new : HashMap CfiReg Bytes) (reg : CfiReg) (e : Bytes)
      → Over out new
      → Over (insert out reg e) (insert new reg e)
  Over-insert out new reg e h j =
      ground (arith, h j, get-insert out reg e j, get-insert new reg e j)

  abbrev at_place : Option CfiReg → Option Token → Option Token → HashMap CfiReg Bytes → RuleState
  at_place cur_reg first last out = record {
    cur_reg = cur_reg;
    expr_first = first;
    expr_last = last;
    output = out;
  }

  -- Two runs stop together, or are at one place, the first with rules over those of the second.
  data Both : Option RuleState → Option RuleState → Type 0 where
    stopped : Both none none
    going :
        (cur_reg : Option CfiReg) (first last : Option Token) {out new : HashMap CfiReg Bytes}
        → Over out new
        → Both (some (at_place cur_reg first last out)) (some (at_place cur_reg first last new))

  abbrev step_as : Bytes → Token → Option Bytes → RuleState → Option RuleState
  step_as input token o s = elim o [
    | some name ↦ begin_reg input name s
    | none ↦ extend_expr token s
  ]

  commit-Over :
      (expr : Option Bytes) (out new : HashMap CfiReg Bytes) (reg : CfiReg) (next : Option CfiReg)
      → Over out new
      → Both
          (expr >>= λ e. some (at_place next none none (insert out reg e)))
          (expr >>= λ e. some (at_place next none none (insert new reg e)))
  commit-Over none out new reg next h = stopped
  commit-Over (some e) out new reg next h = going next none none (Over-insert out new reg e h)

  rule_step-Over :
      (input : Bytes) (token : Token) (cur_reg : Option CfiReg) (first last : Option Token)
      (out new : HashMap CfiReg Bytes)
      → Over out new
      → Both
          (rule_step input token (at_place cur_reg first last out))
          (rule_step input token (at_place cur_reg first last new))
  unfolding rule_step begin_reg extend_expr
  rule_step-Over input token cur_reg first last out new h = go (strip_colon token.word) cur_reg
    where
      go :
          (o : Option Bytes) (cur : Option CfiReg)
          → Both
              (step_as input token o (at_place cur first last out))
              (step_as input token o (at_place cur first last new))
      go none none = stopped
      go none (some reg) = going (some reg) _ _ h
      go (some name) none = going (some (reg_of name)) first last h
      go (some name) (some reg) =
          commit-Over (expr_text input first last) out new reg (some (reg_of name)) h

  rule_loop-Over :
      (input : Bytes) (tokens : List Token) (cur_reg : Option CfiReg) (first last : Option Token)
      (out new : HashMap CfiReg Bytes)
      → Over out new
      → Both
          (rule_loop input tokens (at_place cur_reg first last out))
          (rule_loop input tokens (at_place cur_reg first last new))
  unfolding rule_loop
  rule_loop-Over input [] cur_reg first last out new h = going cur_reg first last h
  rule_loop-Over input (token ∷ tokens) cur_reg first last out new h =
      after (rule_step-Over input token cur_reg first last out new h) (rule_loop-Over input tokens)
    where
      after :
          {m n : Option RuleState}
          → Both m n
          → ((c : Option CfiReg) (f l : Option Token) (o k : HashMap CfiReg Bytes)
              → Over o k
              → Both
                  (rule_loop input tokens (at_place c f l o))
                  (rule_loop input tokens (at_place c f l k)))
          → Both (m >>= λ s. rule_loop input tokens s) (n >>= λ s. rule_loop input tokens s)
      after stopped ih = stopped
      after (going c f l k) ih = ih c f l _ _ k

  -- The same of the maps that the parser returns.
  pub data BothRules : Option (HashMap CfiReg Bytes) → Option (HashMap CfiReg Bytes) → Type 0 where
    malformed : BothRules none none
    parsed : {out new : HashMap CfiReg Bytes} → Over out new → BothRules (some out) (some new)

  finish_over :
      (input : Bytes) {m n : Option RuleState}
      → Both m n
      → BothRules (m >>= λ s. finish_rules input s) (n >>= λ s. finish_rules input s)
  unfolding finish_rules
  finish_over input stopped = malformed
  finish_over input (going cur_reg first last {out} {new} h) =
      go (expr_text input first last) cur_reg
    where
      go :
          (expr : Option Bytes) (cur : Option CfiReg)
          → BothRules
              (expr >>= λ e. cur >>= λ reg. some (insert out reg e))
              (expr >>= λ e. cur >>= λ reg. some (insert new reg e))
      go none cur = malformed
      go (some e) none = malformed
      go (some e) (some reg) = parsed (Over-insert out new reg e h)

  -- Reading rules into a map that has some, and reading them into an empty one: both fail, or
  -- the first map is the second laid over the old rules.
  pub parse_cfi_exprs-BothRules :
      (input : Bytes) → BothRules (parse_cfi_exprs input old) (parse_cfi_exprs input [])
  unfolding parse_cfi_exprs get
  parse_cfi_exprs-BothRules input =
      finish_over input
        (rule_loop-Over input (split_ascii_whitespace input) none none none old [] (λ reg. refl))
