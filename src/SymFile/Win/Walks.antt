-- ===== src/SymFile/Win/Walks.antt =====
-- walker.rs: the walks by STACK WIN records.
use rust_minidump.Base.{
  ℕ, ◌+◌, ◌-◌, ◌%◌, Bool, true, false, not, ◌||◌, Option, none, some, List, [], ◌∷◌, nat_eq, ltb,
  leb, if◌then◌else◌, Bytes, text, Bytes-PartialEq, get, insert, u32_mod, u64_mod, checked_add,
  ◌>>=◌,
}
use rust_minidump.SymFile.FrameWalker.{FrameWalker}
use rust_minidump.SymFile.Types.{StackInfoWin, program_string, allocates_base_pointer}
use rust_minidump.SymFile.Tokens.{words}
use rust_minidump.SymFile.Cfi.Walk.{Outcome, done, panicked, need, proceed}
use rust_minidump.SymFile.Win.{Vars, win_tokens, win_loop}

-- `expr.contains('@')`
abbrev pub contains : ℕ → Bytes → Bool
contains k [] = false
contains k (c ∷ cs) = nat_eq c k || contains k cs

-- `+` on unsigned integers of modulus `m`: with overflow checks it panics (`none`), without them it
-- wraps. Which of the two is the choice of the build.
abbrev pub plain_add : Bool → ℕ → ℕ → ℕ → Option ℕ
plain_add checks m a b =
    if ltb (a + b) m then some (a + b) else if checks then none else some ((a + b) % m)

-- `-` of the same.
abbrev pub plain_sub : Bool → ℕ → ℕ → ℕ → Option ℕ
plain_sub checks m a b =
    if leb b a then some (a - b) else if checks then none else some ((a + m - b) % m)

-- A plain operation's value, and what comes after it.
abbrev pub unless_panic : {S A : Type 0} → Option A → (A → Outcome S) → Outcome S
unless_panic none k = panicked
unless_panic (some a) k = k a

unfoldable pub win_frame_size : Bool → StackInfoWin → ℕ → Option ℕ
win_frame_size checks info grand_callee_param_size = do
  saved ← plain_add checks u32_mod info.local_size info.saved_register_size
  plain_add checks u32_mod saved grand_callee_param_size

abbrev pub output_regs : List Bytes
output_regs = text "$eip" ∷ text "$esp" ∷ text "$ebp" ∷ text "$ebx" ∷ text "$esi" ∷ text "$edi" ∷ []

-- `&reg[1..]`
abbrev pub tail_of : Bytes → Bytes
tail_of [] = []
tail_of (c ∷ cs) = cs

abbrev pub insert_some : Vars → Bytes → Option ℕ → Vars
insert_some vars name none = vars
insert_some vars name (some v) = insert vars name v

-- Where the return address is looked for.
unfoldable pub search_start_of : Bytes → ℕ → ℕ → ℕ → Option ℕ
search_start_of expr callee_esp callee_ebp frame_size =
    if contains b'@' expr
    then checked_add u32_mod callee_ebp 4
    else checked_add u32_mod callee_esp frame_size

-- The variables that a program starts with.
unfoldable pub initial_vars : StackInfoWin → ℕ → Option ℕ → ℕ → ℕ → ℕ → Vars
initial_vars info params ebx search_start esp ebp =
    let vars =
      insert_some (insert (insert [] (text "$esp") esp) (text "$ebp") ebp) (text "$ebx") ebx in
    let vars = insert vars (text ".cbParams") info.parameter_size in
    let vars = insert vars (text ".cbCalleeParams") params in
    let vars = insert vars (text ".cbSavedRegs") info.saved_register_size in
    let vars = insert vars (text ".cbLocals") info.local_size in
    let vars = insert vars (text ".raSearch") search_start in
    insert vars (text ".raSearchStart") search_start

-- `as u32` of a register that may be missing.
abbrev pub low_half : Option ℕ → Option ℕ
low_half none = none
low_half (some v) = some (v % u32_mod)

module _ {S : Type 0} (w : FrameWalker S) where
  unfoldable pub emit_vars : List Bytes → Vars → S → Outcome S
  emit_vars [] vars s = done s
  emit_vars (reg ∷ regs) vars s = elim (get vars reg) [
    | some val ↦ proceed (w.set_caller_register (tail_of reg) val s) λ s'. emit_vars regs vars s'
    | none ↦ emit_vars regs vars s
  ]

  unfoldable pub eval_win_expr : Bool → Bytes → StackInfoWin → S → Outcome S
  unfolding win_loop emit_vars win_frame_size search_start_of initial_vars win_tokens
  eval_win_expr checks expr info s =
      need (low_half (w.get_callee_register s (text "esp"))) s λ callee_esp.
        need (low_half (w.get_callee_register s (text "ebp"))) s λ callee_ebp.
          let params = w.get_grand_callee_parameter_size s in
          unless_panic (win_frame_size checks info params) λ frame_size.
            need (search_start_of expr callee_esp callee_ebp frame_size) s λ search_start.
              let vars =
                initial_vars info params (low_half (w.get_callee_register s (text "ebx")))
                  search_start callee_esp callee_ebp in
              need (win_loop w s (win_tokens (words expr)) (vars, [])) s
                λ end. emit_vars output_regs end.0 s

  unfoldable pub clear_all : List Bytes → S → S
  clear_all [] s = s
  clear_all (reg ∷ regs) s = clear_all regs (w.clear_caller_register reg s)

  unfoldable pub clear_stack_win_caller_registers : S → S
  unfolding clear_all
  clear_stack_win_caller_registers s = clear_all output_regs s

  unfoldable pub walk_with_stack_win_framedata : Bool → StackInfoWin → S → Outcome S
  unfolding eval_win_expr clear_stack_win_caller_registers
  walk_with_stack_win_framedata checks info s = elim info.program_string_or_base_pointer [
    | program_string expr ↦ eval_win_expr checks expr info (clear_stack_win_caller_registers s)
    | allocates_base_pointer b ↦ panicked
  ]

  -- Where the return address is, and its value: one word further when the first is left over from
  -- a return that has been executed.
  unfoldable pub return_slot : Bool → ℕ → S → (ℕ → ℕ → Outcome S) → Outcome S
  return_slot checks eip_address s k =
      need (w.get_register_at_address s eip_address) s λ caller_eip.
        if not (w.has_grand_callee s)
        then (need (w.get_callee_register s (text "eip")) s λ callee_eip.
            if nat_eq caller_eip callee_eip
            then (unless_panic (plain_add checks u64_mod eip_address 4) λ next_address.
                need (w.get_register_at_address s next_address) s
                  λ next_eip. k next_address next_eip)
            else k eip_address caller_eip)
        else k eip_address caller_eip

  abbrev pub forward_ebx : Option ℕ → S → Option (Unit {0}) × S
  forward_ebx (some callee_ebx) s = w.set_caller_register (text "ebx") callee_ebx s
  forward_ebx none s = (some tt, s)

  -- The caller's `ebp`; without a frame pointer `ebx` is passed on as well.
  unfoldable pub caller_frame :
      Bool → Bool → StackInfoWin → ℕ → ℕ → S → (ℕ → S → Outcome S) → Outcome S
  caller_frame checks true info callee_esp params s k =
      unless_panic (plain_add checks u64_mod callee_esp params) λ a.
        unless_panic (plain_add checks u64_mod a info.saved_register_size) λ b.
          unless_panic (plain_sub checks u64_mod b 8) λ ebp_address.
            need (w.get_register_at_address s ebp_address) s λ caller_ebp. k caller_ebp s
  caller_frame checks false info callee_esp params s k =
      proceed (forward_ebx (w.get_callee_register s (text "ebx")) s)
        λ s'. need (w.get_callee_register s' (text "ebp")) s' λ caller_ebp. k caller_ebp s'

  unfoldable pub eval_fpo : Bool → Bool → StackInfoWin → S → Outcome S
  unfolding return_slot caller_frame win_frame_size
  eval_fpo checks allocates info s =
      let params = w.get_grand_callee_parameter_size s in
      unless_panic (win_frame_size checks info params) λ frame_size.
        need (w.get_callee_register s (text "esp")) s λ callee_esp.
          unless_panic (plain_add checks u64_mod callee_esp frame_size) λ first_address.
            return_slot checks first_address s λ eip_address caller_eip.
              unless_panic (plain_add checks u64_mod eip_address 4) λ caller_esp.
                caller_frame checks allocates info callee_esp params s λ caller_ebp s1.
                  proceed (w.set_caller_register (text "eip") caller_eip s1) λ s2.
                    proceed (w.set_caller_register (text "esp") caller_esp s2)
                      λ s3. proceed (w.set_caller_register (text "ebp") caller_ebp s3) λ s4. done s4

  unfoldable pub walk_with_stack_win_fpo : Bool → StackInfoWin → S → Outcome S
  unfolding eval_fpo clear_stack_win_caller_registers
  walk_with_stack_win_fpo checks info s = elim info.program_string_or_base_pointer [
    | allocates_base_pointer b ↦ eval_fpo checks b info (clear_stack_win_caller_registers s)
    | program_string expr ↦ panicked
  ]
