-- ===== src/SymFile/Win/Programs.antt =====
-- The meaning of a STACK WIN program: assignments of expressions to registers, in order.
use rust_minidump.Base.{
  ℕ, ◌≡◌, refl, ◌∙◌, ap, Option, none, some, List, [], ◌∷◌, append_assoc, Bytes, text, get, insert,
  remove, Bytes-PartialEq, ◌>>=◌,
}
use rust_minidump.SymFile.FrameWalker.{FrameWalker}
use rust_minidump.SymFile.Win.{
  var, int, Vars, into_int, into_var, register, classify, win_step, win_loop,
}
use rust_minidump.SymFile.Win.Operands.{
  WinTree, name, number, load, node, Statement, set, unset, postfix, program_tokens, IsProgram,
  meaning, run_program, run, operand, run-postfix,
}

module _ {S : Type 0} (w : FrameWalker S) (s : S) where
  assign_value :
      (vars : Vars) (target : Bytes) (m : Option ℕ) (rest : List Bytes)
      → (((m >>= λ value. some (insert vars target value)) >>= λ vars'. some (vars', [])) >>= λ st.
          run w s rest st)
        ≡ (m >>= λ value. run w s rest (insert vars target value, []))
  assign_value vars target none rest = refl
  assign_value vars target (some v) rest = refl

  assign_boxed :
      (vars : Vars) (target : Bytes) (m : Option ℕ) (rest : List Bytes)
      → ((m >>= λ v. some (int v)) >>= λ x. run w s (text "=" ∷ rest) (vars, x ∷ var target ∷ []))
        ≡ (m >>= λ value. run w s rest (insert vars target value, []))
  unfolding win_loop win_step classify into_var into_int
  assign_boxed vars target none rest = refl
  assign_boxed vars target (some v) rest = refl

  after_assign :
      (vars : Vars) (target : Bytes) (e : WinTree) (rest : List Bytes)
      → (operand w s vars e >>= λ x. run w s (text "=" ∷ rest) (vars, x ∷ var target ∷ []))
        ≡ (meaning w s vars e >>= λ value. run w s rest (insert vars target value, []))
  unfolding win_loop win_step classify into_var into_int
  after_assign vars target (name token) rest = assign_value vars target (get vars token) rest
  after_assign vars target (number token n) rest = refl
  after_assign vars target (load e) rest = assign_boxed vars target (meaning w s vars (load e)) rest
  after_assign vars target (node op l r) rest =
      assign_boxed vars target (meaning w s vars (node op l r)) rest

  pop_target :
      (vars : Vars) (target : Bytes) (rest : List Bytes)
      → classify target ≡ register target
      → run w s (target ∷ rest) (vars, []) ≡ run w s rest (vars, var target ∷ [])
  unfolding win_loop win_step
  pop_target vars target rest h = rw h refl

  unset_target :
      (vars : Vars) (target : Bytes) (rest : List Bytes)
      → run w s (text ".undef" ∷ text "=" ∷ rest) (vars, var target ∷ [])
        ≡ run w s rest (remove vars target, [])
  unfolding win_loop win_step classify into_var
  unset_target vars target rest = refl

  -- The loop over the tokens of a program runs its assignments in order, each on the variables that
  -- the ones before it left, leaves an empty stack, and fails exactly where one has no value.
  pub win_loop-program_tokens :
      (program : List Statement) (vars : Vars)
      → IsProgram program
      → win_loop w s (program_tokens program) (vars, [])
        ≡ (run_program w s program vars >>= λ vars'. some (vars', []))
  unfolding win_loop
  win_loop-program_tokens [] vars h = refl
  win_loop-program_tokens (set target e ∷ xs) vars h =
      pop_target vars target _ h.0
      ∙ ap (λ (x : List Bytes). run w s x (vars, var target ∷ []))
          (append_assoc (postfix e) (text "=" ∷ []) (program_tokens xs))
      ∙ run-postfix w s vars e (text "=" ∷ program_tokens xs) (var target ∷ []) h.1
      ∙ after_assign vars target e (program_tokens xs)
      ∙ go (meaning w s vars e) (λ v. win_loop-program_tokens xs (insert vars target v) h.2)
    where
      go :
          (m : Option ℕ)
          → ((v : ℕ)
              → run w s (program_tokens xs) (insert vars target v, [])
                ≡ (run_program w s xs (insert vars target v) >>= λ vars'. some (vars', [])))
          → (m >>= λ v. run w s (program_tokens xs) (insert vars target v, []))
            ≡ ((m >>= λ v. run_program w s xs (insert vars target v)) >>= λ vars'. some (vars', []))
      go none ih = refl
      go (some v) ih = ih v
  win_loop-program_tokens (unset target ∷ xs) vars h =
      pop_target vars target (text ".undef" ∷ text "=" ∷ program_tokens xs) h.0
      ∙ unset_target vars target (program_tokens xs)
      ∙ win_loop-program_tokens xs (remove vars target) h.1
