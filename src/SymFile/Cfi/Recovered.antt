-- ===== src/SymFile/Cfi/Recovered.antt =====
-- Every evaluation that returns a value has read the postfix form of a tree.
use rust_minidump.Base.{
  ℕ, ◌≡◌, refl, sym, subst, ◌∙◌, ap, Option, some, some_inj, List, [], ◌∷◌, ◌++◌, append_assoc,
  append_nil, Bytes, text, bytes_eq, bytes_eq_sound, ◌>>=◌, >>=-eq-some, inl, inr, Bool-cases,
  if◌then◌else◌,
}
use rust_minidump.SymFile.FrameWalker.{FrameWalker}
use rust_minidump.SymFile.Tokens.{words}
use rust_minidump.SymFile.Cfi.{
  BinaryOp, CfiToken, binary, deref, cfa_value, undef, other, classify, apply_op, value_of,
  eval_step, eval_tokens, single_value, eval_cfi_expr,
}
use rust_minidump.SymFile.Cfi.Trees.{
  CfiTree, frame_address, value, load, node, op_text, postfix, IsReadable, meaning,
}

-- The text of each arm.
abbrev TokenText : CfiToken → Bytes → Type 0
TokenText (binary op) token = token ≡ op_text op
TokenText deref token = token ≡ text "^"
TokenText cfa_value token = token ≡ text ".cfa"
TokenText undef token = Unit
TokenText (other name) token = token ≡ name

pick_text :
    (token literal : Bytes) (k rest : CfiToken)
    → (token ≡ literal → TokenText k token)
    → TokenText rest token
    → TokenText (if bytes_eq token literal then k else rest) token
pick_text token literal k rest yes' no' = elim (Bool-cases (bytes_eq token literal)) [
  | inl e ↦ rw e (yes' (bytes_eq_sound token literal e))
  | inr e ↦ rw e no'
]

classify_text : (token : Bytes) → TokenText (classify token) token
unfolding classify
classify_text token =
    pick_text token (text "+") _ _ (λ e. e)
      (pick_text token (text "-") _ _ (λ e. e)
        (pick_text token (text "*") _ _ (λ e. e)
          (pick_text token (text "/") _ _ (λ e. e)
            (pick_text token (text "%") _ _ (λ e. e)
              (pick_text token (text "@") _ _ (λ e. e)
                (pick_text token (text "^") _ _ (λ e. e)
                  (pick_text token (text ".cfa") _ _ (λ e. e)
                    (pick_text token (text ".undef") _ _ (λ e. tt) refl))))))))

module _ {S : Type 0} (w : FrameWalker S) (s : S) (cfa : Option ℕ) where
  -- The trees on the stack, top first, and their values.
  abbrev Means : List CfiTree → List ℕ → Type 0
  Means [] [] = Unit
  Means [] (v ∷ vs) = ⊥
  Means (e ∷ es) [] = ⊥
  Means (e ∷ es) (v ∷ vs) = (meaning w s cfa e ≡ some v) × IsReadable e × Means es vs

  -- The tokens that were read: the postfix forms from the bottom up.
  abbrev read_so_far : List CfiTree → List Bytes
  read_so_far [] = []
  read_so_far (e ∷ es) = read_so_far es ++ postfix e

  -- One token reads one more tree.
  Stepped : List CfiTree → Bytes → List ℕ → Type 0
  Stepped es token stack =
      (fs : List CfiTree) × Means fs stack × (read_so_far fs ≡ read_so_far es ++ token ∷ [])

  pushed :
      (e : CfiTree) (fs es : List CfiTree) (token : Bytes) (stack stack' : List ℕ) (v : ℕ)
      → meaning w s cfa e ≡ some v
      → IsReadable e
      → Means fs stack
      → some (v ∷ stack) ≡ some stack'
      → read_so_far (e ∷ fs) ≡ read_so_far es ++ token ∷ []
      → Stepped es token stack'
  unfolding Stepped
  pushed e fs es token stack stack' v m r ms eq same =
      (e ∷ fs, subst (Means (e ∷ fs)) (some_inj eq) (m, r, ms), same)

  node-meaning :
      (op : BinaryOp) (l r : CfiTree) (lhs rhs v : ℕ)
      → meaning w s cfa l ≡ some lhs
      → meaning w s cfa r ≡ some rhs
      → apply_op 64 op lhs rhs ≡ some v
      → meaning w s cfa (node op l r) ≡ some v
  node-meaning op l r lhs rhs v p q h = rw (p, q) h

  load-meaning :
      (e : CfiTree) (ptr v : ℕ)
      → meaning w s cfa e ≡ some ptr
      → w.get_register_at_address s ptr ≡ some v
      → meaning w s cfa (load e) ≡ some v
  load-meaning e ptr v p h = rw p h

  read_node : (xs l r t : List Bytes) → xs ++ (l ++ (r ++ t)) ≡ ((xs ++ l) ++ r) ++ t
  read_node xs l r t = simp append_assoc

  step_tree :
      (k : CfiToken) (token : Bytes) (es : List CfiTree) (stack stack' : List ℕ)
      → classify token ≡ k
      → TokenText k token
      → Means es stack
      → eval_step w s cfa k stack ≡ some stack'
      → Stepped es token stack'
  unfolding eval_step
  step_tree (binary op) token [] [] stack' c t m h = cc
  step_tree (binary op) token [] (v ∷ vs) stack' c t m h = absurd m
  step_tree (binary op) token (e ∷ es) [] stack' c t m h = absurd m
  step_tree (binary op) token (e ∷ []) (v ∷ []) stack' c t m h = cc
  step_tree (binary op) token (e ∷ []) (v ∷ u ∷ vs) stack' c t m h = absurd m.2
  step_tree (binary op) token (e ∷ f ∷ es) (v ∷ []) stack' c t m h = absurd m.2
  step_tree (binary op) token (r ∷ l ∷ es) (rhs ∷ lhs ∷ stack) stack' c t m h =
      let (v, a, eq) = >>=-eq-some (apply_op 64 op lhs rhs) (λ v. some (v ∷ stack)) h in
      pushed (node op l r) es (r ∷ l ∷ es) token stack stack' v
        (node-meaning op l r lhs rhs v m.2.0 m.0 a) (m.2.1, m.1) m.2.2 eq
        (read_node (read_so_far es) (postfix l) (postfix r) (op_text op ∷ [])
          ∙ ap (λ (x : Bytes). ((read_so_far es ++ postfix l) ++ postfix r) ++ x ∷ []) (sym t))
  step_tree deref token [] [] stack' c t m h = cc
  step_tree deref token [] (v ∷ vs) stack' c t m h = absurd m
  step_tree deref token (e ∷ es) [] stack' c t m h = absurd m
  step_tree deref token (e ∷ es) (ptr ∷ stack) stack' c t m h =
      let (v, a, eq) = >>=-eq-some (w.get_register_at_address s ptr) (λ v. some (v ∷ stack)) h in
      pushed (load e) es (e ∷ es) token stack stack' v (load-meaning e ptr v m.0 a) m.1 m.2 eq (
        sym (append_assoc (read_so_far es) (postfix e) (text "^" ∷ []))
        ∙ ap (λ (x : Bytes). (read_so_far es ++ postfix e) ++ x ∷ []) (sym t))
  step_tree cfa_value token es stack stack' c t m h =
      let (v, a, eq) = >>=-eq-some cfa (λ v. some (v ∷ stack)) h in
      pushed frame_address es es token stack stack' v a tt m eq
        (ap (λ (x : Bytes). read_so_far es ++ x ∷ []) (sym t))
  step_tree undef token es stack stack' c t m h = cc
  step_tree (other name) token es stack stack' c t m h =
      let (v, a, eq) = >>=-eq-some (value_of w s cfa name) (λ v. some (v ∷ stack)) h in
      pushed (value name) es es token stack stack' v a
        (subst (λ (x : Bytes). classify x ≡ other name) t c) m eq
        (ap (λ (x : Bytes). read_so_far es ++ x ∷ []) (sym t))

  run_trees :
      (tokens : List Bytes) (es : List CfiTree) (stack : List ℕ) (v : ℕ)
      → Means es stack
      → (eval_tokens w s cfa tokens stack >>= single_value w s cfa) ≡ some v
      → (e : CfiTree) × IsReadable e
        × (postfix e ≡ read_so_far es ++ tokens)
        × (meaning w s cfa e ≡ some v)
  unfolding eval_tokens Stepped
  run_trees [] [] [] v m h = cc
  run_trees [] [] (u ∷ stack) v m h = absurd m
  run_trees [] (e ∷ es) [] v m h = absurd m
  run_trees [] (e ∷ []) (u ∷ []) v m h = (e, m.1, sym (append_nil (postfix e)), m.0 ∙ h)
  run_trees [] (e ∷ []) (u ∷ x ∷ stack) v m h = absurd m.2
  run_trees [] (e ∷ f ∷ es) (u ∷ []) v m h = absurd m.2
  run_trees [] (e ∷ f ∷ es) (u ∷ x ∷ stack) v m h = cc
  run_trees (token ∷ tokens) es stack v m h =
      let (out, ran, one) =
        >>=-eq-some
          (eval_step w s cfa (classify token) stack >>= λ st. eval_tokens w s cfa tokens st)
          (single_value w s cfa) h in
      let (stack', stepped, rest) =
        >>=-eq-some (eval_step w s cfa (classify token) stack) (λ st. eval_tokens w s cfa tokens st)
          ran in
      let (fs, ms, same) =
        step_tree (classify token) token es stack stack' refl (classify_text token) m stepped in
      let (e, readable, form, value_e) =
        run_trees tokens fs stack' v ms
          (ap (λ (o : Option (List ℕ)). o >>= single_value w s cfa) rest ∙ one) in
      (
        e,
        readable,
        form
            ∙ ap (λ (x : List Bytes). x ++ tokens) same
            ∙ append_assoc (read_so_far es) (token ∷ []) tokens,
        value_e,
      )

  -- Whenever the evaluator returns a value, the words of the text are the postfix form of a tree
  -- that means this value.
  pub eval_cfi_expr-tree :
      (expr : Bytes) (v : ℕ)
      → eval_cfi_expr w s cfa expr ≡ some v
      → (e : CfiTree) × IsReadable e × (postfix e ≡ words expr) × (meaning w s cfa e ≡ some v)
  unfolding eval_cfi_expr
  eval_cfi_expr-tree expr v h = run_trees (words expr) [] [] v tt h
