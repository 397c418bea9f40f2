-- ===== src/SymFile/Queries/Keeps/Win.antt =====
-- Walks by STACK WIN records.
use rust_minidump.Base.{
  ℕ, Bool, true, false, Option, none, some, List, [], ◌∷◌, Bytes, Bytes-PartialEq, get, nat_eq,
  u64_mod, text, not, Bool-cases, inl, inr,
}
use rust_minidump.SymFile.FrameWalker.{FrameWalker}
use rust_minidump.SymFile.Types.{
  StackInfoWin, WinStackThing, program_string, allocates_base_pointer,
}
use rust_minidump.SymFile.Cfi.Rules.{CfiReg-PartialEq}
use rust_minidump.SymFile.Cfi.Walk.{Outcome, done, panicked, proceed}
use rust_minidump.SymFile.Tokens.{words}
use rust_minidump.SymFile.Win.{Vars, win_tokens, win_loop}
use rust_minidump.SymFile.Win.Walks.{
  low_half, plain_add, plain_sub, win_frame_size, search_start_of, initial_vars, tail_of,
  output_regs, emit_vars, eval_win_expr, clear_all, clear_stack_win_caller_registers,
  walk_with_stack_win_framedata, return_slot, forward_ebx, caller_frame, eval_fpo,
  walk_with_stack_win_fpo,
}
use rust_minidump.SymFile.Queries.Keeps.{
  Keeps, need-Keeps, proceed-Keeps, unless_panic-Keeps, IsKept,
}

module _ {S : Type 0} (P : S → Type 0) where
  module _ (w : FrameWalker S) (kept : IsKept P w) where
    open kept use {set_kept, clear_kept, cfa_kept, ra_kept}

    emit_vars-Keeps :
        (regs : List Bytes) (vars : Vars) (s : S) → P s → Keeps P (emit_vars w regs vars s)
    unfolding emit_vars
    emit_vars-Keeps [] vars s p = p
    emit_vars-Keeps (reg ∷ regs) vars s p =
        go (get vars reg) (emit_vars-Keeps regs vars s p) (λ s'. emit_vars-Keeps regs vars s')
      where
        go :
            (o : Option ℕ)
            → Keeps P (emit_vars w regs vars s)
            → ((s' : S) → P s' → Keeps P (emit_vars w regs vars s'))
            → Keeps P (elim o [
              | some val ↦
                  proceed (w.set_caller_register (tail_of reg) val s) λ s'. emit_vars w regs vars s'
              | none ↦ emit_vars w regs vars s
            ])
        go (some val) here later =
            proceed-Keeps P (w.set_caller_register (tail_of reg) val s) _
              (set_kept (tail_of reg) val s p) later
        go none here later = here

    clear_all-kept : (regs : List Bytes) (s : S) → P s → P (clear_all w regs s)
    unfolding clear_all
    clear_all-kept [] s p = p
    clear_all-kept (reg ∷ regs) s p =
        clear_all-kept regs (w.clear_caller_register reg s) (clear_kept reg s p)

    eval_win_expr-Keeps :
        (checks : Bool) (expr : Bytes) (info : StackInfoWin) (s : S)
        → P s
        → Keeps P (eval_win_expr w checks expr info s)
    unfolding eval_win_expr
    eval_win_expr-Keeps checks expr info s p =
        let params = w.get_grand_callee_parameter_size s in
        need-Keeps P (low_half (w.get_callee_register s (text "esp"))) s _ p λ callee_esp.
          need-Keeps P (low_half (w.get_callee_register s (text "ebp"))) s _ p λ callee_ebp.
            unless_panic-Keeps P (win_frame_size checks info params) _ λ frame_size.
              need-Keeps P (search_start_of expr callee_esp callee_ebp frame_size) s _ p
                λ search_start.
                  let vars =
                    initial_vars info params (low_half (w.get_callee_register s (text "ebx")))
                      search_start callee_esp callee_ebp in
                  need-Keeps P (win_loop w s (win_tokens (words expr)) (vars, [])) s _ p
                    λ end. emit_vars-Keeps output_regs end.0 s p

    forward_ebx-kept : (o : Option ℕ) (s : S) → P s → P (forward_ebx w o s).1
    forward_ebx-kept (some v) s p = set_kept (text "ebx") v s p
    forward_ebx-kept none s p = p

    caller_frame-Keeps :
        (checks allocates : Bool) (info : StackInfoWin) (esp params : ℕ) (s : S)
        (k : ℕ → S → Outcome S)
        → P s
        → ((v : ℕ) (s' : S) → P s' → Keeps P (k v s'))
        → Keeps P (caller_frame w checks allocates info esp params s k)
    unfolding caller_frame
    caller_frame-Keeps checks true info esp params s k p h =
        unless_panic-Keeps P (plain_add checks u64_mod esp params) _ λ a.
          unless_panic-Keeps P (plain_add checks u64_mod a info.saved_register_size) _ λ b.
            unless_panic-Keeps P (plain_sub checks u64_mod b 8) _
              λ address. need-Keeps P (w.get_register_at_address s address) s _ p λ ebp. h ebp s p
    caller_frame-Keeps checks false info esp params s k p h =
        let ebx = w.get_callee_register s (text "ebx") in
        proceed-Keeps P (forward_ebx w ebx s) _ (forward_ebx-kept ebx s p)
          λ s' p'. need-Keeps P (w.get_callee_register s' (text "ebp")) s' _ p' λ ebp. h ebp s' p'

    return_slot-Keeps :
        (checks : Bool) (address : ℕ) (s : S) (k : ℕ → ℕ → Outcome S)
        → P s
        → ((a v : ℕ) → Keeps P (k a v))
        → Keeps P (return_slot w checks address s k)
    unfolding return_slot
    return_slot-Keeps checks address s k p h =
        need-Keeps P (w.get_register_at_address s address) s _ p λ eip.
          elim (Bool-cases (not (w.has_grand_callee s))) [
            | inl top ↦ rw top (
                need-Keeps P (w.get_callee_register s (text "eip")) s _ p λ callee_eip.
                  elim (Bool-cases (nat_eq eip callee_eip)) [
                    | inl same ↦ rw same (
                        unless_panic-Keeps P (plain_add checks u64_mod address 4) _ λ next.
                          need-Keeps P (w.get_register_at_address s next) s _ p
                            λ next_eip. h next next_eip)
                    | inr other_one ↦ rw other_one (h address eip)
                  ])
            | inr inner ↦ rw inner (h address eip)
          ]

    set_all :
        (eip esp ebp : ℕ) (s1 : S)
        → P s1
        → Keeps P (
            proceed (w.set_caller_register (text "eip") eip s1) λ s2.
              proceed
                (w.set_caller_register (text "esp") esp s2)
                λ s3. proceed (w.set_caller_register (text "ebp") ebp s3) λ s4. done s4)
    set_all eip esp ebp s1 p1 =
        proceed-Keeps P (w.set_caller_register (text "eip") eip s1) _
          (set_kept (text "eip") eip s1 p1)
          λ s2 p2.
            proceed-Keeps P (w.set_caller_register (text "esp") esp s2) _
              (set_kept (text "esp") esp s2 p2)
              λ s3 p3.
                proceed-Keeps P (w.set_caller_register (text "ebp") ebp s3) _
                  (set_kept (text "ebp") ebp s3 p3) λ s4 p4. p4

    eval_fpo-Keeps :
        (checks allocates : Bool) (info : StackInfoWin) (s : S)
        → P s
        → Keeps P (eval_fpo w checks allocates info s)
    unfolding eval_fpo
    eval_fpo-Keeps checks allocates info s p =
        let params = w.get_grand_callee_parameter_size s in
        unless_panic-Keeps P (win_frame_size checks info params) _ λ frame_size.
          need-Keeps P (w.get_callee_register s (text "esp")) s _ p λ esp.
            unless_panic-Keeps P (plain_add checks u64_mod esp frame_size) _ λ first.
              return_slot-Keeps checks first s _ p λ address eip.
                unless_panic-Keeps P (plain_add checks u64_mod address 4) _ λ caller_esp.
                  caller_frame-Keeps checks allocates info esp params s _ p
                    λ ebp s1 p1. set_all eip caller_esp ebp s1 p1

    pub framedata-Keeps :
        (checks : Bool) (info : StackInfoWin) (s : S)
        → P s
        → Keeps P (walk_with_stack_win_framedata w checks info s)
    unfolding walk_with_stack_win_framedata clear_stack_win_caller_registers
    framedata-Keeps checks info s p = go info.program_string_or_base_pointer
      where
        go :
            (t : WinStackThing)
            → Keeps P (elim t [
              | program_string expr ↦
                  eval_win_expr w checks expr info (clear_stack_win_caller_registers w s)
              | allocates_base_pointer b ↦ panicked
            ])
        go (program_string expr) =
            eval_win_expr-Keeps checks expr info _ (clear_all-kept output_regs s p)
        go (allocates_base_pointer b) = tt

    pub fpo-Keeps :
        (checks : Bool) (info : StackInfoWin) (s : S)
        → P s
        → Keeps P (walk_with_stack_win_fpo w checks info s)
    unfolding walk_with_stack_win_fpo clear_stack_win_caller_registers
    fpo-Keeps checks info s p = go info.program_string_or_base_pointer
      where
        go :
            (t : WinStackThing)
            → Keeps P (elim t [
              | allocates_base_pointer b ↦
                  eval_fpo w checks b info (clear_stack_win_caller_registers w s)
              | program_string expr ↦ panicked
            ])
        go (program_string expr) = tt
        go (allocates_base_pointer b) =
            eval_fpo-Keeps checks b info _ (clear_all-kept output_regs s p)
