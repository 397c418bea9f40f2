-- ===== src/SymFile/Win/Unchecked.antt =====
-- The walks by STACK WIN records in a build without overflow checks, where additions and subtractions
-- wrap.
use rust_minidump.Base.{
  ℕ, ◌+◌, ◌-◌, ◌%◌, ◌≡◌, ◌≢◌, refl, sym, subst, Bool, true, false, not, Bool-cases, Option, some,
  Bytes, text, ltb, leb, nat_eq, if◌then◌else◌, u32_mod, u64_mod, inl, inr,
}
use rust_minidump.SymFile.FrameWalker.{FrameWalker}
use rust_minidump.SymFile.Types.{StackInfoWin, program_string, allocates_base_pointer}
use rust_minidump.SymFile.Tokens.{words}
use rust_minidump.SymFile.Cfi.Walk.{Outcome, panicked, need}
use rust_minidump.SymFile.Cfi.Walk.Safe.{Survives, need-Survives, proceed-Survives}
use rust_minidump.SymFile.Win.{win_loop, win_tokens}
use rust_minidump.SymFile.Win.Walks.{
  low_half, plain_add, plain_sub, unless_panic, win_frame_size, search_start_of, output_regs,
  eval_win_expr, clear_stack_win_caller_registers, walk_with_stack_win_framedata, return_slot,
  forward_ebx, caller_frame, eval_fpo, walk_with_stack_win_fpo,
}
use rust_minidump.SymFile.Win.Fpo.{emit_vars-Survives}

abbrev IsSome : {A : Type 0} → Option A → Type 0
IsSome {A} o = (a : A) × (o ≡ some a)

plain_add-IsSome : (m a b : ℕ) → IsSome (plain_add false m a b)
plain_add-IsSome m a b = elim (Bool-cases (ltb (a + b) m)) [
  | inl e ↦ rw e (a + b, refl)
  | inr e ↦ rw e ((a + b) % m, refl)
]

plain_sub-IsSome : (m a b : ℕ) → IsSome (plain_sub false m a b)
plain_sub-IsSome m a b = elim (Bool-cases (leb b a)) [
  | inl e ↦ rw e (a - b, refl)
  | inr e ↦ rw e ((a + m - b) % m, refl)
]

win_frame_size-IsSome :
    (info : StackInfoWin) (params : ℕ) → IsSome (win_frame_size false info params)
unfolding win_frame_size
win_frame_size-IsSome info params =
    let (saved, e) = plain_add-IsSome u32_mod info.local_size info.saved_register_size in
    rw e (plain_add-IsSome u32_mod saved params)

some-Survives :
    {S A : Type 0} (o : Option A) (k : A → Outcome S)
    → IsSome o
    → ((a : A) → Survives (k a))
    → Survives (unless_panic o k)
some-Survives o k (a, e) h = subst (λ o. Survives (unless_panic o k)) (sym e) (h a)

module _ {S : Type 0} (w : FrameWalker S) where
  eval_win_expr-unchecked :
      (expr : Bytes) (info : StackInfoWin) (t : S) → Survives (eval_win_expr w false expr info t)
  unfolding eval_win_expr
  eval_win_expr-unchecked expr info t =
      need-Survives (low_half (w.get_callee_register t (text "esp"))) t _ λ esp _.
        need-Survives (low_half (w.get_callee_register t (text "ebp"))) t _ λ ebp _.
          some-Survives (win_frame_size false info (w.get_grand_callee_parameter_size t)) _
            (win_frame_size-IsSome info (w.get_grand_callee_parameter_size t))
            λ size. need-Survives (search_start_of expr esp ebp size) t _ λ start _.
              need-Survives (win_loop w t (win_tokens (words expr)) _) t _
                λ end _. emit_vars-Survives w false output_regs end.0 t

  -- Without overflow checks a framedata record only has to have a program.
  pub walk_with_stack_win_framedata-unchecked :
      (info : StackInfoWin) (program : Bytes) (s : S)
      → info.program_string_or_base_pointer ≡ program_string program
      → walk_with_stack_win_framedata w false info s ≢ panicked
  unfolding walk_with_stack_win_framedata
  walk_with_stack_win_framedata-unchecked info program s h =
      let t = clear_stack_win_caller_registers w s in
      subst
        (λ thing. Survives (elim thing [
          | program_string expr ↦ eval_win_expr w false expr info t
          | allocates_base_pointer b ↦ panicked
        ]))
        (sym h) (eval_win_expr-unchecked program info t)

  return_slot-unchecked :
      (address : ℕ) (s : S) (k : ℕ → ℕ → Outcome S)
      → ((a eip : ℕ) → Survives (k a eip))
      → Survives (return_slot w false address s k)
  unfolding return_slot
  return_slot-unchecked address s k ih =
      need-Survives (w.get_register_at_address s address) s _ λ eip _.
        go (not (w.has_grand_callee s)) eip (
          need-Survives (w.get_callee_register s (text "eip")) s _
            λ callee _. again (nat_eq eip callee) eip)
    where
      again :
          (b : Bool) (eip : ℕ)
          → Survives (
              if b
              then (unless_panic
                  (plain_add false u64_mod address 4)
                  λ next. need (w.get_register_at_address s next) s λ next_eip. k next next_eip)
              else k address eip)
      again true eip =
          some-Survives (plain_add false u64_mod address 4) _ (plain_add-IsSome u64_mod address 4)
            λ next. need-Survives (w.get_register_at_address s next) s _ λ v _. ih next v
      again false eip = ih address eip

      go :
          (b : Bool) (eip : ℕ) {o : Outcome S}
          → Survives o
          → Survives (if b then o else k address eip)
      go true eip h' = h'
      go false eip h' = ih address eip

  caller_frame-unchecked :
      (allocates : Bool) (info : StackInfoWin) (esp params : ℕ) (s : S) (k : ℕ → S → Outcome S)
      → ((ebp : ℕ) (t : S) → Survives (k ebp t))
      → Survives (caller_frame w false allocates info esp params s k)
  unfolding caller_frame
  caller_frame-unchecked true info esp params s k ih =
      some-Survives (plain_add false u64_mod esp params) _ (plain_add-IsSome u64_mod esp params)
        λ a.
          some-Survives (plain_add false u64_mod a info.saved_register_size) _
            (plain_add-IsSome u64_mod a info.saved_register_size)
            λ b.
              some-Survives (plain_sub false u64_mod b 8) _ (plain_sub-IsSome u64_mod b 8)
                λ address. need-Survives (w.get_register_at_address s address) s _ λ ebp _. ih ebp s
  caller_frame-unchecked false info esp params s k ih =
      proceed-Survives (forward_ebx w (w.get_callee_register s (text "ebx")) s) _
        λ t. need-Survives (w.get_callee_register t (text "ebp")) t _ λ ebp _. ih ebp t

  eval_fpo-unchecked :
      (allocates : Bool) (info : StackInfoWin) (s : S)
      → Survives (eval_fpo w false allocates info s)
  unfolding eval_fpo
  eval_fpo-unchecked allocates info s =
      let params = w.get_grand_callee_parameter_size s in
      some-Survives (win_frame_size false info params) _ (win_frame_size-IsSome info params) λ size.
        need-Survives (w.get_callee_register s (text "esp")) s _ λ esp e.
          some-Survives (plain_add false u64_mod esp size) _ (plain_add-IsSome u64_mod esp size)
            λ first. return_slot-unchecked first s _ λ address eip.
              some-Survives (plain_add false u64_mod address 4) _
                (plain_add-IsSome u64_mod address 4)
                λ caller_esp. caller_frame-unchecked allocates info esp params s _ λ ebp s1.
                  proceed-Survives (w.set_caller_register (text "eip") eip s1) _ λ s2.
                    proceed-Survives (w.set_caller_register (text "esp") caller_esp s2) _ λ s3.
                      proceed-Survives (w.set_caller_register (text "ebp") ebp s3) _ λ s4. λ e. cc

  -- Without overflow checks an fpo record only has to have no program.
  pub walk_with_stack_win_fpo-unchecked :
      (info : StackInfoWin) (allocates : Bool) (s : S)
      → info.program_string_or_base_pointer ≡ allocates_base_pointer allocates
      → walk_with_stack_win_fpo w false info s ≢ panicked
  unfolding walk_with_stack_win_fpo
  walk_with_stack_win_fpo-unchecked info allocates s h =
      let t = clear_stack_win_caller_registers w s in
      subst
        (λ thing. Survives (elim thing [
          | allocates_base_pointer b ↦ eval_fpo w false b info t
          | program_string expr ↦ panicked
        ]))
        (sym h) (eval_fpo-unchecked allocates info t)
