-- ===== src/SymFile/Cfi/Trees.antt =====
-- The meaning of a STACK CFI expression: the tree that its postfix form stands for.
use rust_minidump.Base.{
  ℕ, ◌≡◌, refl, sym, ◌∙◌, ap, Option, none, some, List, [], ◌∷◌, ◌++◌, append_assoc, append_nil,
  Bytes, text, ◌>>=◌, All, All-append,
}
use rust_minidump.SymFile.FrameWalker.{FrameWalker}
use rust_minidump.SymFile.Tokens.Words.{join, IsWord, words-join}
use rust_minidump.SymFile.Cfi.{
  BinaryOp, add, sub, mul, div, rem, align, binary, other, classify, apply_op, value_of, eval_step,
  eval_tokens, single_value, eval_cfi_expr,
}

pub data CfiTree : Type 0 where
  frame_address : CfiTree
  value : Bytes → CfiTree
  load : CfiTree → CfiTree
  node : BinaryOp → CfiTree → CfiTree → CfiTree

abbrev pub op_text : BinaryOp → Bytes
op_text add = text "+"
op_text sub = text "-"
op_text mul = text "*"
op_text div = text "/"
op_text rem = text "%"
op_text align = text "@"

-- The postfix form.
abbrev pub postfix : CfiTree → List Bytes
postfix frame_address = text ".cfa" ∷ []
postfix (value token) = token ∷ []
postfix (load e) = postfix e ++ text "^" ∷ []
postfix (node op l r) = postfix l ++ (postfix r ++ op_text op ∷ [])

-- The tokens at the leaves are none of the operators and special values.
abbrev pub IsReadable : CfiTree → Type 0
IsReadable frame_address = Unit
IsReadable (value token) = classify token ≡ other token
IsReadable (load e) = IsReadable e
IsReadable (node op l r) = IsReadable l × IsReadable r

classify-op_text : (op : BinaryOp) → classify (op_text op) ≡ binary op
unfolding classify
classify-op_text add = refl
classify-op_text sub = refl
classify-op_text mul = refl
classify-op_text div = refl
classify-op_text rem = refl
classify-op_text align = refl

module _ {S : Type 0} (w : FrameWalker S) (s : S) (cfa : Option ℕ) where
  -- The value of a tree, computed from the leaves up.
  abbrev pub meaning : CfiTree → Option ℕ
  meaning frame_address = cfa
  meaning (value token) = value_of w s cfa token
  meaning (load e) = do ptr ← meaning e; w.get_register_at_address s ptr
  meaning (node op l r) = do lhs ← meaning l; rhs ← meaning r; apply_op 64 op lhs rhs

  abbrev run : List Bytes → List ℕ → Option (List ℕ)
  run = eval_tokens w s cfa

  push_bind :
      (m : Option ℕ) (stack : List ℕ) (f : List ℕ → Option (List ℕ))
      → ((m >>= λ v. some (v ∷ stack)) >>= f) ≡ (m >>= λ v. f (v ∷ stack))
  push_bind none stack f = refl
  push_bind (some v) stack f = refl

  after_load :
      (m : Option ℕ) (rest : List Bytes) (stack : List ℕ)
      → (m >>= λ ptr. run (text "^" ∷ rest) (ptr ∷ stack))
        ≡ ((m >>= λ ptr. w.get_register_at_address s ptr) >>= λ v. run rest (v ∷ stack))
  unfolding eval_tokens eval_step classify
  after_load none rest stack = refl
  after_load (some ptr) rest stack = push_bind (w.get_register_at_address s ptr) stack (run rest)

  after_rhs :
      (op : BinaryOp) (lhs : ℕ) (n : Option ℕ) (rest : List Bytes) (stack : List ℕ)
      → (n >>= λ rhs. run (op_text op ∷ rest) (rhs ∷ lhs ∷ stack))
        ≡ ((n >>= λ rhs. apply_op 64 op lhs rhs) >>= λ v. run rest (v ∷ stack))
  unfolding eval_tokens eval_step
  after_rhs op lhs none rest stack = refl
  after_rhs op lhs (some rhs) rest stack =
      rw (classify-op_text op) (push_bind (apply_op 64 op lhs rhs) stack (run rest))

  -- The postfix form of a tree pushes its value, and fails where the tree has none.
  run-postfix :
      (e : CfiTree) (rest : List Bytes) (stack : List ℕ)
      → IsReadable e
      → run (postfix e ++ rest) stack ≡ (meaning e >>= λ v. run rest (v ∷ stack))
  unfolding eval_tokens eval_step
  run-postfix frame_address rest stack h = unfold classify in push_bind cfa stack (run rest)
  run-postfix (value token) rest stack h =
      rw h (push_bind (value_of w s cfa token) stack (run rest))
  run-postfix (load e) rest stack h =
      ap (λ (x : List Bytes). run x stack) (append_assoc (postfix e) (text "^" ∷ []) rest)
      ∙ run-postfix e (text "^" ∷ rest) stack h
      ∙ after_load (meaning e) rest stack
  run-postfix (node op l r) rest stack h =
      ap (λ (x : List Bytes). run x stack)
        (append_assoc (postfix l) (postfix r ++ op_text op ∷ []) rest
          ∙ ap (λ (x : List Bytes). postfix l ++ x)
              (append_assoc (postfix r) (op_text op ∷ []) rest))
      ∙ run-postfix l (postfix r ++ op_text op ∷ rest) stack h.0
      ∙ after_lhs (meaning l) (λ lhs. run-postfix r (op_text op ∷ rest) (lhs ∷ stack) h.1)
    where
      after_lhs :
          (m : Option ℕ)
          → ((lhs : ℕ)
              → run (postfix r ++ op_text op ∷ rest) (lhs ∷ stack)
                ≡ (meaning r >>= λ rhs. run (op_text op ∷ rest) (rhs ∷ lhs ∷ stack)))
          → (m >>= λ lhs. run (postfix r ++ op_text op ∷ rest) (lhs ∷ stack)) ≡ (
              (m >>= λ lhs. meaning r >>= λ rhs. apply_op 64 op lhs rhs) >>= λ v.
              run rest (v ∷ stack))
      after_lhs none ih = refl
      after_lhs (some lhs) ih = ih lhs ∙ after_rhs op lhs (meaning r) rest stack

  finish_one : (m : Option ℕ) → ((m >>= λ v. run [] (v ∷ [])) >>= single_value w s cfa) ≡ m
  unfolding eval_tokens
  finish_one none = refl
  finish_one (some v) = refl

  eval-postfix :
      (e : CfiTree) → IsReadable e → (run (postfix e) [] >>= single_value w s cfa) ≡ meaning e
  eval-postfix e h =
      ap (λ (x : List Bytes). run x [] >>= single_value w s cfa) (sym (append_nil (postfix e)))
      ∙ ap (λ (m : Option (List ℕ)). m >>= single_value w s cfa) (run-postfix e [] [] h)
      ∙ finish_one (meaning e)

-- Every leaf is a word.
abbrev pub HasWords : CfiTree → Type 0
HasWords frame_address = Unit
HasWords (value token) = IsWord token
HasWords (load e) = HasWords e
HasWords (node op l r) = HasWords l × HasWords r

op_text-IsWord : (op : BinaryOp) → IsWord (op_text op)
op_text-IsWord add = (λ e. cc, (refl, tt))
op_text-IsWord sub = (λ e. cc, (refl, tt))
op_text-IsWord mul = (λ e. cc, (refl, tt))
op_text-IsWord div = (λ e. cc, (refl, tt))
op_text-IsWord rem = (λ e. cc, (refl, tt))
op_text-IsWord align = (λ e. cc, (refl, tt))

postfix-IsWord : (e : CfiTree) → HasWords e → All IsWord (postfix e)
postfix-IsWord frame_address h = ((λ e. cc, (refl, (refl, (refl, (refl, tt))))), tt)
postfix-IsWord (value token) h = (h, tt)
postfix-IsWord (load e) h =
    All-append IsWord (postfix e) (text "^" ∷ []) (postfix-IsWord e h) ((λ e. cc, (refl, tt)), tt)
postfix-IsWord (node op l r) h =
    All-append IsWord (postfix l) (postfix r ++ op_text op ∷ []) (postfix-IsWord l h.0) (
      All-append IsWord (postfix r) (op_text op ∷ []) (postfix-IsWord r h.1)
        (op_text-IsWord op, tt))

-- The evaluator computes the meaning of the tree whose postfix form is the text, and fails
-- exactly where the tree has no value.
pub eval_cfi_expr-postfix :
    {S : Type 0} (w : FrameWalker S) (s : S) (cfa : Option ℕ) (e : CfiTree)
    → IsReadable e
    → HasWords e
    → eval_cfi_expr w s cfa (join (postfix e)) ≡ meaning w s cfa e
unfolding eval_cfi_expr
eval_cfi_expr-postfix w s cfa e readable has_words =
    ap (λ (x : List Bytes). eval_tokens w s cfa x [] >>= single_value w s cfa)
      (words-join (postfix e) (postfix-IsWord e has_words))
    ∙ eval-postfix w s cfa e readable
