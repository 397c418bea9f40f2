-- ===== src/Unwind/Frames/Ends.antt =====
-- The loop over the stack ends where a bounded rank of the frames grows with every caller.
use rust_minidump.Base.{
  ℕ, zero, suc, ◌+◌, ◌<◌, ◌≤◌, ◌≡◌, refl, sym, subst, Bool, true, false, Option, none, some, List,
  [], ◌∷◌, All, Pairs, get_elem?, arith,
}
use rust_minidump.Unwind.Frames.{StackFrame, Provider}
use rust_minidump.Unwind.Frames.Stack.{fill_source_line_info, walk_frames, walk_stack}

-- Each frame ranks above those that come before it.
abbrev pub Rises : {C : Type 0} → (StackFrame C → ℕ) → List (StackFrame C) → Type 0
Rises rank = Pairs (λ x y. rank y < rank x)

module _ {C : Type 0} (p : Provider C)
    (get_caller_frame : StackFrame C → Option (StackFrame C) → Option (StackFrame C))
    (rank : StackFrame C → ℕ) (bound : ℕ)
    (filled_rank : (m : p.Module) (f : StackFrame C) → rank (p.fill_symbol m f) ≡ rank f)
    (rises : (callee f : StackFrame C) (grand_callee : Option (StackFrame C))
      → get_caller_frame callee grand_callee ≡ some f
      → rank callee < bound
      → (rank callee < rank f) × (rank f < bound)) where
  same_rank : (f : StackFrame C) → rank (fill_source_line_info p f) ≡ rank f
  unfolding fill_source_line_info
  same_rank f = go (p.module_at_address f.instruction)
    where
      go :
          (o : Option p.Module)
          → rank (elim o as (λ _. StackFrame C) [ some m ↦ p.fill_symbol m f | none ↦ f ]) ≡ rank f
      go none = refl
      go (some m) = filled_rank m f

  abbrev Above : ℕ → List (StackFrame C) → Type 0
  Above r = All (λ y. rank y < r)

  Above-next : (r s : ℕ) (l : List (StackFrame C)) → r < s → Above r l → Above s l
  Above-next r s [] lt h = tt
  Above-next r s (y ∷ ys) lt h = (omega (arith, lt, h.0), Above-next r s ys lt h.1)

  -- With a round of fuel for every rank above the frame's the walk ends.
  walk_frames_ends :
      (fuel : ℕ) (frame : StackFrame C) (before : List (StackFrame C))
      → rank frame < bound
      → bound ≤ fuel + rank frame
      → Above (rank frame) before
      → Rises rank before
      → (frames : List (StackFrame C)) × (walk_frames p get_caller_frame fuel frame before
          ≡ some frames)
        × Rises rank frames
  unfolding walk_frames
  walk_frames_ends zero frame before fits enough above up = absurd (omega arith)
  walk_frames_ends (suc fuel) frame before fits enough above up =
      let filled = fill_source_line_info p frame in
      let same : rank filled ≡ rank frame = same_rank frame in
      let filled_above : Above (rank filled) before =
        subst (λ (r : ℕ). All (λ y. rank y < r) before) (sym same) above in
      go filled filled_above (get_caller_frame filled (get_elem? before 0)) (λ caller e.
        let (higher, below) = rises filled caller (get_elem? before 0) e (omega arith) in
        walk_frames_ends fuel caller (filled ∷ before) below (omega arith)
          (higher, Above-next (rank filled) (rank caller) before higher filled_above)
          (filled_above, up))
    where
      go :
          (filled : StackFrame C)
          → Above (rank filled) before
          → (o : Option (StackFrame C))
          → ((caller : StackFrame C)
              → o ≡ some caller
              → (frames : List (StackFrame C)) × (walk_frames p get_caller_frame fuel caller
                    (filled ∷ before)
                  ≡ some frames)
                × Rises rank frames)
          → (frames : List (StackFrame C)) × ((elim o as (λ _. Option (List (StackFrame C))) [
            | some caller ↦ walk_frames p get_caller_frame fuel caller (filled ∷ before)
            | none ↦ some (filled ∷ before)
          ])
              ≡ some frames)
            × Rises rank frames
      go filled high none ih = (filled ∷ before, refl, (high, up))
      go filled high (some caller) ih = ih caller refl

  pub walk_stack-Rises :
      (has_memory : Bool) (frame : StackFrame C)
      → rank frame < bound
      → (frames : List (StackFrame C)) × (walk_stack p get_caller_frame has_memory bound
            (frame ∷ [])
          ≡ some frames)
        × Rises rank frames
  unfolding walk_stack
  walk_stack-Rises true frame fits = walk_frames_ends bound frame [] fits (omega arith) tt tt
  walk_stack-Rises false frame fits = (fill_source_line_info p frame ∷ [], refl, (tt, tt))
