-- ===== src/Tests/Cfis.antt =====
-- STACK CFI rules on the walker of `Walkers`, and the theorems on them.
use mathlib.Core.List.{Permᴰ}
use rust_minidump.Base.{
  ℕ, ◌≡◌, ◌≢◌, refl, ap, Option, none, some, [], ◌∷◌, Bytes, text, bytes_eq, bytes_eq_iff,
  if◌then◌else◌, HashMap, get, insert, arith,
}
use rust_minidump.SymFile.Types.{CfiRules}
use rust_minidump.SymFile.Tokens.{words, split_ascii_whitespace}
use rust_minidump.SymFile.Tokens.Words.{join}
use rust_minidump.SymFile.Cfi.{classify, apply_op, eval_cfi_expr, sub}
use rust_minidump.SymFile.Cfi.Trees.{
  CfiTree, frame_address, value, load, node, postfix, IsReadable, meaning, eval_cfi_expr-postfix,
}
use rust_minidump.SymFile.Cfi.Recovered.{eval_cfi_expr-tree}
use rust_minidump.SymFile.Cfi.Rules.{
  CfiReg, cfa, ra, other, CfiReg-PartialEq, strip_colon, reg_of, slice, parse_cfi_exprs,
}
use rust_minidump.SymFile.Cfi.Walk.{
  panicked, parse_lines, emit_value, emit_all, walk_with_stack_cfi,
}
use rust_minidump.SymFile.Cfi.Walk.Order.{IsIndependent, emit_all-perm}
use rust_minidump.SymFile.Cfi.Walk.Safe.{walk_with_stack_cfi_returns}
use rust_minidump.SymFile.Cfi.Walk.Latest.{latest, parse_lines-latest}
use rust_minidump.Tests.Walkers.{Frame, no_frame, put, one_frame}

abbrev pub init : CfiRules
init = record { address = 0; rules = text ".cfa: rsp 24 + .ra: .cfa 8 - ^" }

abbrev pub after_push : CfiRules
after_push = record { address = 4; rules = text ".cfa: $rsp 16 + rbx: .cfa 16 - ^ r9: .undef" }

-- `.cfa 8 - ^`
abbrev return_address : CfiTree
return_address = load (node sub frame_address (value (text "8")))

run_value : eval_cfi_expr one_frame no_frame (some 1016) (text ".cfa 8 - ^") ≡ some 4242
unfolding eval_cfi_expr split_ascii_whitespace apply_op
run_value = refl

run_empty : eval_cfi_expr one_frame no_frame (some 1016) [] ≡ none
unfolding eval_cfi_expr split_ascii_whitespace apply_op
run_empty = refl

run_big : eval_cfi_expr one_frame no_frame none (text "1 -2 +") ≡ some 18446744073709551615
unfolding eval_cfi_expr split_ascii_whitespace apply_op
run_big = refl

eval_cfi_expr-postfix_example :
    eval_cfi_expr one_frame no_frame (some 1016) (join (postfix return_address))
    ≡ meaning one_frame no_frame (some 1016) return_address
eval_cfi_expr-postfix_example =
    eval_cfi_expr-postfix one_frame no_frame (some 1016) return_address
      (unfold classify in (tt, refl)) (tt, (λ e. cc, (refl, tt)))

eval_cfi_expr-tree_example :
    (e : CfiTree) × IsReadable e
    × (postfix e ≡ words (text ".cfa 8 - ^"))
    × (meaning one_frame no_frame (some 1016) e ≡ some 4242)
eval_cfi_expr-tree_example =
    eval_cfi_expr-tree one_frame no_frame (some 1016) (text ".cfa 8 - ^") 4242 run_value

walk_with_stack_cfi_returns_example :
    walk_with_stack_cfi one_frame init (after_push ∷ []) no_frame ≢ panicked
walk_with_stack_cfi_returns_example =
    walk_with_stack_cfi_returns one_frame init (after_push ∷ []) no_frame

abbrev both_lines : HashMap CfiReg Bytes
both_lines =
    (cfa, text "$rsp 16 +")
    ∷ (ra, text ".cfa 8 - ^")
    ∷ (other (text "rbx"), text ".cfa 16 - ^")
    ∷ (other (text "r9"), text ".undef")
    ∷ []

parse_both : parse_lines (init ∷ after_push ∷ []) [] ≡ some both_lines
unfolding parse_lines parse_cfi_exprs split_ascii_whitespace strip_colon insert reg_of slice
parse_both = refl

parse_lines-latest_example : get both_lines cfa ≡ latest (init ∷ after_push ∷ []) cfa
parse_lines-latest_example = parse_lines-latest (init ∷ after_push ∷ []) both_lines cfa parse_both

put_other :
    (a b : Bytes) (x y v : Option ℕ) (r : Bytes)
    → a ≢ b
    → (if bytes_eq a r then x else if bytes_eq b r then y else v)
      ≡ (if bytes_eq b r then y else if bytes_eq a r then x else v)
put_other a b x y v r h = ground (arith, bytes_eq_iff a r, bytes_eq_iff b r)

put_comm :
    (a b : Bytes) (x y : Option ℕ) (s : Frame) → a ≢ b → put a x (put b y s) ≡ put b y (put a x s)
put_comm a b x y s h = λ i. record s { caller = λ r. put_other a b x y (s.caller r) r h i }

emit_one_frame : (a : Bytes) (x : Option ℕ) (s : Frame) → emit_value one_frame a x s ≡ put a x s
emit_one_frame a none s = refl
emit_one_frame a (some v) s = refl

one_frame-IsIndependent : IsIndependent one_frame
one_frame-IsIndependent = record {
  reads = λ reg v s. (refl, refl);
  commutes = λ a b x y s h.
      rw
        (
          emit_one_frame a x s,
          emit_one_frame b y s,
          emit_one_frame a x (put b y s),
          emit_one_frame b y (put a x s),
        )
        (put_comm a b x y s h);
}

abbrev rbx_rule : CfiReg × Bytes
rbx_rule = (other (text "rbx"), text ".cfa 16 - ^")

abbrev r9_rule : CfiReg × Bytes
r9_rule = (other (text "r9"), text ".undef")

abbrev reg_name : CfiReg → Bytes
reg_name cfa = []
reg_name ra = []
reg_name (other n) = n

emit_all-perm_example :
    emit_all one_frame 1016 (rbx_rule ∷ r9_rule ∷ []) no_frame
    ≡ emit_all one_frame 1016 (r9_rule ∷ rbx_rule ∷ []) no_frame
emit_all-perm_example =
    emit_all-perm one_frame one_frame-IsIndependent 1016 no_frame (Permᴰ.swap refl refl)
      (((λ e. differ (ap reg_name e)), tt), (tt, tt))
  where
    differ : text "rbx" ≢ text "r9"
    differ e = cc
