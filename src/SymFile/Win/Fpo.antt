-- ===== src/SymFile/Win/Fpo.antt =====
-- When the walks by STACK WIN records return.
use rust_minidump.Base.{
  ℕ, ◌+◌, ◌-◌, ◌<◌, ◌≤◌, ◌≡◌, ◌≢◌, refl, sym, subst, Bool, true, false, not, Option, none, some,
  List, [], ◌∷◌, Bytes, text, get, nat_eq, if◌then◌else◌, u32_mod, u64_mod, Bytes-PartialEq, arith,
}
use rust_minidump.SymFile.FrameWalker.{FrameWalker}
use rust_minidump.SymFile.Types.{StackInfoWin, program_string, allocates_base_pointer}
use rust_minidump.SymFile.Tokens.{words}
use rust_minidump.SymFile.Cfi.Walk.{Outcome, panicked, need, proceed}
use rust_minidump.SymFile.Cfi.Walk.Safe.{Survives, need-Survives, proceed-Survives}
use rust_minidump.SymFile.Win.{Vars, win_loop, win_tokens}
use rust_minidump.SymFile.Win.Walks.{
  low_half, plain_add, plain_sub, unless_panic, win_frame_size, search_start_of, output_regs,
  tail_of, emit_vars, eval_win_expr, clear_stack_win_caller_registers,
  walk_with_stack_win_framedata, return_slot, forward_ebx, caller_frame, eval_fpo,
  walk_with_stack_win_fpo,
}

pub plain_add-eq-some :
    (checks : Bool) (m a b : ℕ) → a + b < m → plain_add checks m a b ≡ some (a + b)
plain_add-eq-some checks m a b h = ground arith

plain_sub-eq-some : (checks : Bool) (m a b : ℕ) → b ≤ a → plain_sub checks m a b ≡ some (a - b)
plain_sub-eq-some checks m a b h = ground arith

-- The three sizes fit 32 bits together.
abbrev pub Fits : StackInfoWin → ℕ → Type 0
Fits info params = info.local_size + info.saved_register_size + params < u32_mod

win_frame_size-eq-some :
    (checks : Bool) (info : StackInfoWin) (params : ℕ)
    → Fits info params
    → win_frame_size checks info params ≡ some (info.local_size + info.saved_register_size + params)
unfolding win_frame_size
win_frame_size-eq-some checks info params h = ground arith

unless_panic-Survives :
    {S A : Type 0} {o : Option A} {a : A} (k : A → Outcome S)
    → o ≡ some a
    → Survives (k a)
    → Survives (unless_panic o k)
unless_panic-Survives k e h = subst (λ o. Survives (unless_panic o k)) (sym e) h

module _ {S : Type 0} (w : FrameWalker S) (checks : Bool) where
  pub emit_vars-Survives :
      (regs : List Bytes) (vars : Vars) (s : S) → Survives (emit_vars w regs vars s)
  unfolding emit_vars
  emit_vars-Survives [] vars s = λ e. cc
  emit_vars-Survives (reg ∷ regs) vars s = go (get vars reg) (emit_vars-Survives regs vars)
    where
      go :
          (o : Option ℕ)
          → ((t : S) → Survives (emit_vars w regs vars t))
          → Survives (elim o [
            | some val ↦
                proceed (w.set_caller_register (tail_of reg) val s) λ s'. emit_vars w regs vars s'
            | none ↦ emit_vars w regs vars s
          ])
      go none ih = ih s
      go (some v) ih = proceed-Survives (w.set_caller_register (tail_of reg) v s) _ ih

  eval_win_expr-Survives :
      (expr : Bytes) (info : StackInfoWin) (t : S)
      → Fits info (w.get_grand_callee_parameter_size t)
      → Survives (eval_win_expr w checks expr info t)
  unfolding eval_win_expr
  eval_win_expr-Survives expr info t fits =
      need-Survives (low_half (w.get_callee_register t (text "esp"))) t _ λ esp _.
        need-Survives (low_half (w.get_callee_register t (text "ebp"))) t _ λ ebp _.
          unless_panic-Survives _
            (win_frame_size-eq-some checks info (w.get_grand_callee_parameter_size t) fits)
            (need-Survives (search_start_of expr esp ebp _) t _ λ start _.
              need-Survives (win_loop w t (win_tokens (words expr)) _) t _
                λ end _. emit_vars-Survives output_regs end.0 t)

  -- A walk by the program of a framedata record returns, if the record has a program and its sizes
  -- with the parameters of the grand-callee fit 32 bits.
  pub walk_with_stack_win_framedata_returns :
      (info : StackInfoWin) (program : Bytes) (s : S)
      → info.program_string_or_base_pointer ≡ program_string program
      → Fits info (w.get_grand_callee_parameter_size (clear_stack_win_caller_registers w s))
      → walk_with_stack_win_framedata w checks info s ≢ panicked
  unfolding walk_with_stack_win_framedata
  walk_with_stack_win_framedata_returns info program s h fits =
      let t = clear_stack_win_caller_registers w s in
      subst
        (λ thing. Survives (elim thing [
          | program_string expr ↦ eval_win_expr w checks expr info t
          | allocates_base_pointer b ↦ panicked
        ]))
        (sym h) (eval_win_expr-Survives program info t fits)

  return_slot-Survives :
      (address : ℕ) (s : S) (k : ℕ → ℕ → Outcome S)
      → address + 4 < u64_mod
      → ((a eip : ℕ) → a ≤ address + 4 → Survives (k a eip))
      → Survives (return_slot w checks address s k)
  unfolding return_slot
  return_slot-Survives address s k h ih =
      need-Survives (w.get_register_at_address s address) s _ λ eip _.
        go (not (w.has_grand_callee s)) eip (
          need-Survives (w.get_callee_register s (text "eip")) s _
            λ callee _. again (nat_eq eip callee) eip)
    where
      again :
          (b : Bool) (eip : ℕ)
          → Survives (
              if b
              then (unless_panic
                  (plain_add checks u64_mod address 4)
                  λ next. need (w.get_register_at_address s next) s λ next_eip. k next next_eip)
              else k address eip)
      again true eip = rw (plain_add-eq-some checks u64_mod address 4 h) (
          need-Survives (w.get_register_at_address s (address + 4)) s _
            λ v _. ih (address + 4) v (omega arith))
      again false eip = ih address eip (omega arith)

      go :
          (b : Bool) (eip : ℕ) {o : Outcome S}
          → Survives o
          → Survives (if b then o else k address eip)
      go true eip h' = h'
      go false eip h' = ih address eip (omega arith)

  caller_frame-Survives :
      (allocates : Bool) (info : StackInfoWin) (esp params : ℕ) (s : S) (k : ℕ → S → Outcome S)
      → esp + params + info.saved_register_size < u64_mod
      → (allocates ≡ true → 8 ≤ esp + params + info.saved_register_size)
      → ((ebp : ℕ) (t : S) → Survives (k ebp t))
      → Survives (caller_frame w checks allocates info esp params s k)
  unfolding caller_frame
  caller_frame-Survives true info esp params s k small big ih =
      unless_panic-Survives _ (plain_add-eq-some checks u64_mod esp params (omega arith)) (
        unless_panic-Survives _
          (plain_add-eq-some checks u64_mod (esp + params) info.saved_register_size small)
          (unless_panic-Survives _
            (plain_sub-eq-some checks u64_mod (esp + params + info.saved_register_size) 8
              (big refl))
            (need-Survives
              (w.get_register_at_address s (esp + params + info.saved_register_size - 8)) s _
              λ ebp _. ih ebp s)))
  caller_frame-Survives false info esp params s k small big ih =
      proceed-Survives (forward_ebx w (w.get_callee_register s (text "ebx")) s) _
        λ t. need-Survives (w.get_callee_register t (text "ebp")) t _ λ ebp _. ih ebp t

  -- The callee's stack pointer is a 32-bit value, and where the record allocates a base pointer, the
  -- saved one lies above address 0.
  abbrev pub HasStack : Bool → StackInfoWin → S → Type 0
  HasStack allocates info s =
      (esp : ℕ)
      → w.get_callee_register s (text "esp") ≡ some esp
      → (esp < u32_mod)
        × (allocates ≡ true
            → 8 ≤ esp + w.get_grand_callee_parameter_size s + info.saved_register_size)

  eval_fpo-Survives :
      (allocates : Bool) (info : StackInfoWin) (s : S)
      → Fits info (w.get_grand_callee_parameter_size s)
      → HasStack allocates info s
      → Survives (eval_fpo w checks allocates info s)
  unfolding eval_fpo
  eval_fpo-Survives allocates info s fits stack =
      let params = w.get_grand_callee_parameter_size s in
      let size = info.local_size + info.saved_register_size + params in
      unless_panic-Survives _ (win_frame_size-eq-some checks info params fits) (
        need-Survives (w.get_callee_register s (text "esp")) s _ λ esp e.
          let small : esp < u32_mod = (stack esp e).0 in
          unless_panic-Survives _ (plain_add-eq-some checks u64_mod esp size (omega arith)) (
            return_slot-Survives (esp + size) s _ (omega arith) λ address eip near.
              unless_panic-Survives _ (plain_add-eq-some checks u64_mod address 4 (omega arith)) (
                caller_frame-Survives allocates info esp params s _ (omega arith) (stack esp e).1
                  λ ebp s1. proceed-Survives (w.set_caller_register (text "eip") eip s1) _ λ s2.
                    proceed-Survives (w.set_caller_register (text "esp") (address + 4) s2) _ λ s3.
                      proceed-Survives (w.set_caller_register (text "ebp") ebp s3) _
                        λ s4. λ e. cc)))

  -- A walk by a frame-pointer-omission record returns, if it is such a record, its sizes with the
  -- parameters of the grand-callee fit 32 bits, and the callee's stack pointer is a 32-bit value
  -- that lies high enough for a saved base pointer.
  pub walk_with_stack_win_fpo_returns :
      (info : StackInfoWin) (allocates : Bool) (s : S)
      → info.program_string_or_base_pointer ≡ allocates_base_pointer allocates
      → Fits info (w.get_grand_callee_parameter_size (clear_stack_win_caller_registers w s))
      → HasStack allocates info (clear_stack_win_caller_registers w s)
      → walk_with_stack_win_fpo w checks info s ≢ panicked
  unfolding walk_with_stack_win_fpo
  walk_with_stack_win_fpo_returns info allocates s h fits stack =
      let t = clear_stack_win_caller_registers w s in
      subst
        (λ thing. Survives (elim thing [
          | allocates_base_pointer b ↦ eval_fpo w checks b info t
          | program_string expr ↦ panicked
        ]))
        (sym h) (eval_fpo-Survives allocates info t fits stack)
