-- ===== src/SymFile/Win/Operands.antt =====
-- The meaning of a STACK WIN program, and the operands that its expressions push.
use rust_minidump.Base.{
  ℕ, ◌%◌, ◌≡◌, refl, ◌∙◌, ap, ap₂, Option, none, some, List, [], ◌∷◌, ◌++◌, append_assoc, Bytes,
  text, get, insert, remove, Bytes-PartialEq, u32_mod, ◌>>=◌,
}
use rust_minidump.SymFile.FrameWalker.{FrameWalker}
use rust_minidump.SymFile.Cfi.{BinaryOp, add, sub, mul, div, rem, align, apply_op}
use rust_minidump.SymFile.Cfi.Trees.{op_text}
use rust_minidump.SymFile.Win.{
  WinVal, var, int, Vars, WinState, into_int, binary, register, constant, classify, win_step,
  win_loop,
}

pub data WinTree : Type 0 where
  name : Bytes → WinTree
  number : Bytes → ℕ → WinTree
  load : WinTree → WinTree
  node : BinaryOp → WinTree → WinTree → WinTree

pub data Statement : Type 0 where
  set : Bytes → WinTree → Statement
  unset : Bytes → Statement

-- The postfix form.
abbrev pub postfix : WinTree → List Bytes
postfix (name token) = token ∷ []
postfix (number token n) = token ∷ []
postfix (load e) = postfix e ++ text "^" ∷ []
postfix (node op l r) = postfix l ++ (postfix r ++ op_text op ∷ [])

abbrev pub statement_tokens : Statement → List Bytes
statement_tokens (set target e) = target ∷ (postfix e ++ text "=" ∷ [])
statement_tokens (unset target) = target ∷ text ".undef" ∷ text "=" ∷ []

abbrev pub program_tokens : List Statement → List Bytes
program_tokens [] = []
program_tokens (x ∷ xs) = statement_tokens x ++ program_tokens xs

-- The tokens are what the program reads them as.
abbrev pub IsReadable : WinTree → Type 0
IsReadable (name token) = classify token ≡ register token
IsReadable (number token n) = classify token ≡ constant n
IsReadable (load e) = IsReadable e
IsReadable (node op l r) = IsReadable l × IsReadable r

abbrev pub IsProgram : List Statement → Type 0
IsProgram [] = Unit
IsProgram (set target e ∷ xs) = (classify target ≡ register target) × IsReadable e × IsProgram xs
IsProgram (unset target ∷ xs) = (classify target ≡ register target) × IsProgram xs

classify-op_text : (op : BinaryOp) → classify (op_text op) ≡ binary op
unfolding classify
classify-op_text add = refl
classify-op_text sub = refl
classify-op_text mul = refl
classify-op_text div = refl
classify-op_text rem = refl
classify-op_text align = refl

module _ {S : Type 0} (w : FrameWalker S) (s : S) where
  -- The value of a tree where the variables are `vars`.
  abbrev pub meaning : Vars → WinTree → Option ℕ
  meaning vars (name token) = get vars token
  meaning vars (number token n) = some n
  meaning vars (load e) = do
    ptr ← meaning vars e
    v ← w.get_register_at_address s ptr
    some (v % u32_mod)
  meaning vars (node op l r) = do rhs ← meaning vars r; lhs ← meaning vars l; apply_op 32 op lhs rhs

  abbrev pub run_program : List Statement → Vars → Option Vars
  run_program [] vars = some vars
  run_program (set target e ∷ xs) vars = do
    value ← meaning vars e
    run_program xs (insert vars target value)
  run_program (unset target ∷ xs) vars = run_program xs (remove vars target)

  abbrev pub run : List Bytes → WinState → Option WinState
  run = win_loop w s

  -- A name stands on the stack unread.
  abbrev pub operand : Vars → WinTree → Option WinVal
  operand vars (name token) = some (var token)
  operand vars (number token n) = some (int n)
  operand vars (load e) = meaning vars (load e) >>= λ v. some (int v)
  operand vars (node op l r) = meaning vars (node op l r) >>= λ v. some (int v)

  boxed : (vars : Vars) (m : Option ℕ) → ((m >>= λ v. some (int v)) >>= into_int vars) ≡ m
  unfolding into_int
  boxed vars none = refl
  boxed vars (some v) = refl

  into_int-operand :
      (vars : Vars) (e : WinTree) → (operand vars e >>= into_int vars) ≡ meaning vars e
  unfolding into_int
  into_int-operand vars (name token) = refl
  into_int-operand vars (number token n) = refl
  into_int-operand vars (load e) = boxed vars (meaning vars (load e))
  into_int-operand vars (node op l r) = boxed vars (meaning vars (node op l r))

  push_loaded :
      (vars : Vars) (m : Option ℕ) (rest : List Bytes) (stack : List WinVal)
      → ((m >>= λ v. some ((vars, int (v % u32_mod) ∷ stack))) >>= λ st. run rest st) ≡ (
          ((m >>= λ v. some (v % u32_mod)) >>= λ v. some (int v)) >>= λ x.
          run rest (vars, x ∷ stack))
  push_loaded vars none rest stack = refl
  push_loaded vars (some v) rest stack = refl

  push_int :
      (vars : Vars) (m : Option ℕ) (rest : List Bytes) (stack : List WinVal)
      → ((m >>= λ v. some ((vars, int v ∷ stack))) >>= λ st. run rest st)
        ≡ ((m >>= λ v. some (int v)) >>= λ x. run rest (vars, x ∷ stack))
  push_int vars none rest stack = refl
  push_int vars (some v) rest stack = refl

  after_load :
      (vars : Vars) (o : Option WinVal) (rest : List Bytes) (stack : List WinVal)
      → (o >>= λ x. run (text "^" ∷ rest) (vars, x ∷ stack)) ≡ (
          (((o >>= into_int vars) >>= λ ptr.
          w.get_register_at_address s ptr >>= λ v. some (v % u32_mod))
            >>= λ v. some (int v))
          >>= λ x. run rest (vars, x ∷ stack))
  unfolding win_loop win_step classify
  after_load vars none rest stack = refl
  after_load vars (some x) rest stack = go (into_int vars x)
    where
      go :
          (m : Option ℕ)
          → ((m >>= λ ptr.
                w.get_register_at_address s ptr >>= λ v. some ((vars, int (v % u32_mod) ∷ stack)))
              >>= λ st. run rest st)
            ≡ (((m >>= λ ptr. w.get_register_at_address s ptr >>= λ v. some (v % u32_mod)) >>= λ v.
                  some (int v))
                >>= λ x. run rest (vars, x ∷ stack))
      go none = refl
      go (some ptr) = push_loaded vars (w.get_register_at_address s ptr) rest stack

  after_rhs :
      (vars : Vars) (op : BinaryOp) (x : WinVal) (o : Option WinVal) (rest : List Bytes)
      (stack : List WinVal)
      → (o >>= λ y. run (op_text op ∷ rest) (vars, y ∷ x ∷ stack)) ≡ (
          (((o >>= into_int vars) >>= λ rhs. into_int vars x >>= λ lhs. apply_op 32 op lhs rhs)
            >>= λ v. some (int v))
          >>= λ z. run rest (vars, z ∷ stack))
  unfolding win_loop win_step
  after_rhs vars op x none rest stack = refl
  after_rhs vars op x (some y) rest stack =
      rw (classify-op_text op) (go (into_int vars y) (into_int vars x))
    where
      go :
          (m n : Option ℕ)
          → ((m >>= λ rhs.
                n >>= λ lhs. apply_op 32 op lhs rhs >>= λ v. some ((vars, int v ∷ stack)))
              >>= λ st. run rest st)
            ≡ (((m >>= λ rhs. n >>= λ lhs. apply_op 32 op lhs rhs) >>= λ v. some (int v)) >>= λ z.
                run rest (vars, z ∷ stack))
      go none n = refl
      go (some rhs) none = refl
      go (some rhs) (some lhs) = push_int vars (apply_op 32 op lhs rhs) rest stack

  -- The postfix form of a tree pushes its operand.
  pub run-postfix :
      (vars : Vars) (e : WinTree) (rest : List Bytes) (stack : List WinVal)
      → IsReadable e
      → run (postfix e ++ rest) (vars, stack) ≡ (operand vars e >>= λ x. run rest (vars, x ∷ stack))
  unfolding win_loop win_step
  run-postfix vars (name token) rest stack h = rw h refl
  run-postfix vars (number token n) rest stack h = rw h refl
  run-postfix vars (load e) rest stack h =
      ap (λ (x : List Bytes). run x (vars, stack)) (append_assoc (postfix e) (text "^" ∷ []) rest)
      ∙ run-postfix vars e (text "^" ∷ rest) stack h
      ∙ after_load vars (operand vars e) rest stack
      ∙ ap
          (λ (m : Option ℕ).
            ((m >>= λ ptr. w.get_register_at_address s ptr >>= λ v. some (v % u32_mod)) >>= λ v.
            some (int v))
            >>= λ x. run rest (vars, x ∷ stack))
          (into_int-operand vars e)
  run-postfix vars (node op l r) rest stack h =
      ap (λ (x : List Bytes). run x (vars, stack))
        (append_assoc (postfix l) (postfix r ++ op_text op ∷ []) rest
          ∙ ap (λ (x : List Bytes). postfix l ++ x)
              (append_assoc (postfix r) (op_text op ∷ []) rest))
      ∙ run-postfix vars l (postfix r ++ op_text op ∷ rest) stack h.0
      ∙ after_lhs (operand vars l) (λ x.
        run-postfix vars r (op_text op ∷ rest) (x ∷ stack) h.1
        ∙ after_rhs vars op x (operand vars r) rest stack)
      ∙ ap₂
          (λ (m n : Option ℕ).
            ((m >>= λ rhs. n >>= λ lhs. apply_op 32 op lhs rhs) >>= λ v. some (int v)) >>= λ z.
            run rest (vars, z ∷ stack))
          (into_int-operand vars r) (into_int-operand vars l)
    where
      combined : Option ℕ → Option ℕ → Option WinState
      combined m n =
          ((m >>= λ rhs. n >>= λ lhs. apply_op 32 op lhs rhs) >>= λ v. some (int v)) >>= λ z.
          run rest (vars, z ∷ stack)

      combined_none : (m : Option ℕ) → none ≡ combined m none
      combined_none none = refl
      combined_none (some rhs) = refl

      after_lhs :
          (o : Option WinVal)
          → ((x : WinVal)
              → run (postfix r ++ op_text op ∷ rest) (vars, x ∷ stack)
                ≡ combined (operand vars r >>= into_int vars) (into_int vars x))
          → (o >>= λ x. run (postfix r ++ op_text op ∷ rest) (vars, x ∷ stack))
            ≡ combined (operand vars r >>= into_int vars) (o >>= into_int vars)
      after_lhs none ih = combined_none (operand vars r >>= into_int vars)
      after_lhs (some x) ih = ih x
