-- ===== src/SymFile/Cfi/Rules.antt =====
-- walker.rs `parse_cfi_exprs`: the pairs `REG: EXPR` of a STACK CFI line.
pub mod Latest
use rust_minidump.Base.{
  ℕ, ◌+◌, ◌-◌, ◌≡◌, ◌↔◌, refl, ap, Bool, true, false, Option, none, some, List, [], ◌∷◌, nat_eq,
  if◌then◌else◌, Bytes, text, bytes_eq, bytes_eq_iff, PartialEq, HashMap, insert, length, take,
  drop, ◌>>=◌, ◌>>◌, arith,
}
use rust_minidump.SymFile.Tokens.{Token, split_ascii_whitespace}

pub data CfiReg : Type 0 where
  cfa ra : CfiReg
  other : Bytes → CfiReg

abbrev pub reg_eq : CfiReg → CfiReg → Bool
reg_eq cfa cfa = true
reg_eq ra ra = true
reg_eq (other a) (other b) = bytes_eq a b
reg_eq _ _ = false

pub reg_eq_iff : (a b : CfiReg) → (reg_eq a b ≡ true) ↔ (a ≡ b)
reg_eq_iff cfa cfa = (λ h. refl, λ h. refl)
reg_eq_iff ra ra = (λ h. refl, λ h. refl)
reg_eq_iff (other a) (other b) =
    (λ h. ap other ((bytes_eq_iff a b).0 h), λ h. (bytes_eq_iff a b).1 (cc))
reg_eq_iff cfa ra = (λ h. cc, λ h. cc)
reg_eq_iff cfa (other b) = (λ h. cc, λ h. cc)
reg_eq_iff ra cfa = (λ h. cc, λ h. cc)
reg_eq_iff ra (other b) = (λ h. cc, λ h. cc)
reg_eq_iff (other a) cfa = (λ h. cc, λ h. cc)
reg_eq_iff (other a) ra = (λ h. cc, λ h. cc)

instance abbrev pub CfiReg-PartialEq : PartialEq CfiReg
CfiReg-PartialEq = record { eq_iff = reg_eq_iff; eq = reg_eq }

-- `token.strip_suffix(':')`
unfoldable pub strip_colon : Bytes → Option Bytes
strip_colon [] = none
strip_colon (c ∷ []) = if nat_eq c b':' then some [] else none
strip_colon (c ∷ d ∷ cs) = do rest ← strip_colon (d ∷ cs); some (c ∷ rest)

abbrev pub without_dollar : Bytes → Bytes
without_dollar [] = []
without_dollar (c ∷ cs) = if nat_eq c b'$' then cs else c ∷ cs

unfoldable pub reg_of : Bytes → CfiReg
reg_of token =
    if bytes_eq token (text ".cfa")
    then cfa
    else if bytes_eq token (text ".ra")
    then ra
    else other (without_dollar token)

-- The variables of the loop.
pub record RuleState : Type 0 where
  pub cur_reg : Option CfiReg
  pub expr_first : Option Token
  pub expr_last : Option Token
  pub output : HashMap CfiReg Bytes

-- `&input[min_addr - base_addr..max_addr - base_addr]`
unfoldable pub slice : Bytes → Token → Token → Bytes
slice input first last = take (last.start + length last.word - first.start) (drop first.start input)

-- The text of the expression that has been read, if there is one.
abbrev pub expr_text : Bytes → Option Token → Option Token → Option Bytes
expr_text input expr_first expr_last = do
  first ← expr_first
  last ← expr_last
  some (slice input first last)

-- A token `REG:` commits the register before it, and begins its own.
unfoldable pub begin_reg : Bytes → Bytes → RuleState → Option RuleState
begin_reg input name s = elim s.cur_reg [
  | none ↦ some (record s { cur_reg = some (reg_of name) })
  | some reg ↦ do
    expr ← expr_text input s.expr_first s.expr_last
    some (record {
      cur_reg = some (reg_of name);
      expr_first = none;
      expr_last = none;
      output = insert s.output reg expr;
    })
]

-- Any other token is part of the current expression; the first must be a register.
unfoldable pub extend_expr : Token → RuleState → Option RuleState
extend_expr token s = do
  s.cur_reg
  some (record s {
    expr_first = elim s.expr_first [ none ↦ some token | some t ↦ some t ];
    expr_last = some token;
  })

unfoldable pub rule_step : Bytes → Token → RuleState → Option RuleState
unfolding begin_reg extend_expr
rule_step input token s = elim (strip_colon token.word) [
  | some name ↦ begin_reg input name s
  | none ↦ extend_expr token s
]

unfoldable pub rule_loop : Bytes → List Token → RuleState → Option RuleState
rule_loop input [] s = some s
rule_loop input (token ∷ tokens) s = do s' ← rule_step input token s; rule_loop input tokens s'

-- The last rule is committed at the end; there must be one.
unfoldable pub finish_rules : Bytes → RuleState → Option (HashMap CfiReg Bytes)
finish_rules input s = do
  expr ← expr_text input s.expr_first s.expr_last
  reg ← s.cur_reg
  some (insert s.output reg expr)

abbrev pub start_rules : HashMap CfiReg Bytes → RuleState
start_rules output = record { cur_reg = none; expr_first = none; expr_last = none; output = output }

unfoldable pub parse_cfi_exprs : Bytes → HashMap CfiReg Bytes → Option (HashMap CfiReg Bytes)
unfolding rule_loop rule_step finish_rules
parse_cfi_exprs input output = do
  s ← rule_loop input (split_ascii_whitespace input) (start_rules output)
  finish_rules input s
