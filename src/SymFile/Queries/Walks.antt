-- ===== src/SymFile/Queries/Walks.antt =====
-- Which records a frame is unwound with, and that the walk returns.
use rust_minidump.Base.{
  ℕ, ◌-◌, ◌<◌, ◌≤◌, ◌≡◌, ◌≢◌, ◌↔◌, refl, Bool, true, false, Bool-cases, Option, none, some, List,
  [], ◌∷◌, In, All, All-In, Pairs, leb, ltb, if◌then◌else◌, arith, inl, inr,
}
use rust_minidump.Ranges.{RangeCrate}
use rust_minidump.SymFile.Types.{
  CfiRules, StackInfoCfi, StackInfoWin, SymbolFile, program_string, allocates_base_pointer,
}
use rust_minidump.SymFile.FrameWalker.{FrameWalker}
use rust_minidump.SymFile.Cfi.Walk.{Outcome, done, failed, panicked, walk_with_stack_cfi}
use rust_minidump.SymFile.Cfi.Walk.Safe.{Survives, walk_with_stack_cfi_returns}
use rust_minidump.SymFile.Win.Walks.{
  clear_stack_win_caller_registers, walk_with_stack_win_framedata, walk_with_stack_win_fpo,
}
use rust_minidump.SymFile.Win.Fpo.{
  Fits, HasStack, walk_with_stack_win_framedata_returns, walk_with_stack_win_fpo_returns,
}
use rust_minidump.SymFile.Queries.{
  count_rules, rules_until, or_else_walk, walk_win, walk_cfi, walk_frame,
}

abbrev pub IsSortedRules : List CfiRules → Type 0
IsSortedRules = Pairs (λ x y. x.address ≤ y.address)

late_only :
    (addr : ℕ) (x : CfiRules) (rules : List CfiRules) (r : CfiRules)
    → All (λ y. x.address ≤ y.address) rules
    → addr < x.address
    → In r (x ∷ rules)
    → addr < r.address
late_only addr x rules r h lt (inl e) = ground arith
late_only addr x rules r h lt (inr i) =
    ground (arith, All-In (λ y. x.address ≤ y.address) r rules h i)

-- On rules sorted by address, exactly those at or before the address are applied.
pub rules_until_iff :
    (addr : ℕ) (rules : List CfiRules) (r : CfiRules)
    → IsSortedRules rules
    → In r (rules_until addr rules) ↔ (In r rules × (r.address ≤ addr))
unfolding rules_until count_rules
rules_until_iff addr [] r h = (λ i. absurd i, λ i. absurd i.0)
rules_until_iff addr (x ∷ rules) r h = elim (Bool-cases (leb x.address addr)) [
  | inl e ↦ rw e (
    λ i. elim i [
      | inl same ↦ (inl same, ground arith)
      | inr j ↦ let k = (rules_until_iff addr rules r h.1).0 j in (inr k.0, k.1)
    ],
    λ i. elim i.0 [
      | inl same ↦ inl same
      | inr j ↦ inr ((rules_until_iff addr rules r h.1).1 (j, i.1))
    ],
  )
  | inr e ↦
      rw e (
        λ i. absurd i,
        λ i. absurd (ground (arith, late_only addr x rules r h.0 (ground arith) i.0)),
      )
]

module _ {c : RangeCrate} (file : SymbolFile c) {S : Type 0} (w : FrameWalker S)
    (checks : Bool) where
  -- What a framedata record must be at a state of the walker.
  abbrev pub FramedataOk : S → StackInfoWin → Type 0
  FramedataOk s info =
      (program : List ℕ) × (info.program_string_or_base_pointer ≡ program_string program)
      × Fits info (w.get_grand_callee_parameter_size (clear_stack_win_caller_registers w s))

  -- What an fpo record must be at a state of the walker.
  abbrev pub FpoOk : S → StackInfoWin → Type 0
  FpoOk s info =
      (allocates : Bool) × (info.program_string_or_base_pointer ≡ allocates_base_pointer allocates)
      × Fits info (w.get_grand_callee_parameter_size (clear_stack_win_caller_registers w s))
      × HasStack w checks allocates info (clear_stack_win_caller_registers w s)

  -- The module-relative address of the callee's instruction.
  abbrev pub relative : ℕ → S → ℕ
  relative base s = w.get_instruction s - base

  or_else_walk-Survives :
      (o : Outcome S) (k : S → Outcome S)
      → Survives o
      → ((s : S) → Survives (k s))
      → Survives (or_else_walk o k)
  or_else_walk-Survives (done s) k h ih = λ e. cc
  or_else_walk-Survives (failed s) k h ih = ih s
  or_else_walk-Survives panicked k h ih = absurd (h refl)

  walk_cfi-Survives : (addr : ℕ) (s : S) → Survives (walk_cfi file w checks addr s)
  unfolding walk_cfi
  walk_cfi-Survives addr s = go (c.get file.cfi_stack_info addr)
    where
      go :
          (o : Option StackInfoCfi)
          → Survives (elim o [
            | some info ↦ walk_with_stack_cfi w info.init (rules_until addr info.add_rules) s
            | none ↦ failed s
          ])
      go (some info) = walk_with_stack_cfi_returns w info.init (rules_until addr info.add_rules) s
      go none = λ e. cc

  by_fpo :
      (s : S) (o : Option StackInfoWin)
      → ((info : StackInfoWin) → o ≡ some info → FpoOk s info)
      → Survives (elim o [ some info ↦ walk_with_stack_win_fpo w checks info s | none ↦ failed s ])
  by_fpo s none ok = λ e. cc
  by_fpo s (some info) ok =
      let (allocates, is_fpo, fits, stack) = ok info refl in
      walk_with_stack_win_fpo_returns w checks info allocates s is_fpo fits stack

  by_framedata :
      (s : S) (o : Option StackInfoWin) {other : Outcome S}
      → ((info : StackInfoWin) → o ≡ some info → FramedataOk s info)
      → (o ≡ none → Survives other)
      → Survives
          (elim o [ some info ↦ walk_with_stack_win_framedata w checks info s | none ↦ other ])
  by_framedata s none ok h = h refl
  by_framedata s (some info) ok h =
      let (program, is_framedata, fits) = ok info refl in
      walk_with_stack_win_framedata_returns w checks info program s is_framedata fits

  walk_win-Survives :
      (addr : ℕ) (s : S)
      → ((info : StackInfoWin)
          → c.get file.win_stack_framedata_info addr ≡ some info
          → FramedataOk s info)
      → ((info : StackInfoWin)
          → c.get file.win_stack_framedata_info addr ≡ none
          → c.get file.win_stack_fpo_info addr ≡ some info
          → FpoOk s info)
      → Survives (walk_win file w checks addr s)
  unfolding walk_win
  walk_win-Survives addr s framedata_ok fpo_ok =
      by_framedata s (c.get file.win_stack_framedata_info addr) framedata_ok (λ uncovered.
        by_fpo s (c.get file.win_stack_fpo_info addr) (λ info e. fpo_ok info uncovered e))

  if-Survives :
      (b : Bool) {x y : Outcome S} → Survives x → Survives y → Survives (if b then x else y)
  if-Survives true hx hy = hx
  if-Survives false hx hy = hy

  -- A walk returns if the walk by STACK WIN records does.
  pub walk_frame-Survives :
      (base : ℕ) (s : S)
      → Survives (walk_win file w checks (relative base s) s)
      → Survives (walk_frame file w checks base s)
  unfolding walk_frame
  walk_frame-Survives base s h =
      if-Survives (ltb (w.get_instruction s) base) (λ e. cc)
        (or_else_walk-Survives (walk_win file w checks (relative base s) s) _ h
          (walk_cfi-Survives (relative base s)))

  -- Unwinding a frame from a walker's state returns, whatever the file's CFI rules are, if of the
  -- record that covers the address, framedata before fpo, the following holds. It has a program if it
  -- is framedata and none if it is fpo. Its locals, its saved registers and the grand-callee's
  -- parameters are less than 2 ^ 32 together. For fpo the callee's `esp`, if it is known, is a 32-bit
  -- value, and 8 is at most `esp` and the parameters and saved registers where a base pointer is
  -- allocated.
  pub walk_frame_returns :
      (base : ℕ) (s : S)
      → ((info : StackInfoWin)
          → c.get file.win_stack_framedata_info (relative base s) ≡ some info
          → FramedataOk s info)
      → ((info : StackInfoWin)
          → c.get file.win_stack_framedata_info (relative base s) ≡ none
          → c.get file.win_stack_fpo_info (relative base s) ≡ some info
          → FpoOk s info)
      → walk_frame file w checks base s ≢ panicked
  walk_frame_returns base s framedata_ok fpo_ok =
      walk_frame-Survives base s (walk_win-Survives (relative base s) s framedata_ok fpo_ok)
