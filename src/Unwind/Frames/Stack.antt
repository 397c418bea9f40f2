-- ===== src/Unwind/Frames/Stack.antt =====
-- The tests at the end of every architecture's `get_caller_frame`, and the loop `walk_stack`.
use rust_minidump.Base.{
  ℕ, zero, suc, ◌-◌, Bool, true, false, not, ◌&&◌, Option, none, some, List, [], ◌∷◌, ltb, leb,
  nat_eq, if◌then◌else◌, get_elem?, ◌>>=◌,
}
use rust_minidump.Unwind.Frames.{FrameTrust, context, StackFrame, Provider}

abbrev pub is_context : FrameTrust → Bool
is_context context = true
is_context _ = false

-- How the architectures differ: the registers, whether a leaf function may leave the stack pointer
-- as it is, and how far the call lies before the return address.
pub record Arch (C : Type 0) : Type 0 where
  pub pc : C → ℕ
  pub sp : C → ℕ
  pub has_leaves : Bool
  pub call_size : ℕ

module _ {C : Type 0} (arch : Arch C) where
  abbrev pub is_leaf : StackFrame C → StackFrame C → Bool
  is_leaf callee frame =
      arch.has_leaves
      && (is_context callee.trust && nat_eq (arch.sp frame.ctx) (arch.sp callee.ctx))

  -- The tests that end the unwinding; then `instruction` is put at the call.
  unfoldable pub checked_frame : StackFrame C → StackFrame C → Option (StackFrame C)
  checked_frame callee frame =
      if ltb (arch.pc frame.ctx) 4096
      then none
      else if leb (arch.sp frame.ctx) (arch.sp callee.ctx) && not (is_leaf callee frame)
      then none
      else some (record frame { instruction = arch.pc frame.ctx - arch.call_size })

  -- `get_caller_frame` of an architecture, by its `ways` to find a frame.
  unfoldable pub caller_by :
      (StackFrame C → Option (StackFrame C) → Option (StackFrame C))
      → StackFrame C
      → Option (StackFrame C)
      → Option (StackFrame C)
  unfolding checked_frame
  caller_by ways callee grand_callee = ways callee grand_callee >>= checked_frame callee

module _ {C : Type 0} (p : Provider C) where
  open p use {module_at_address, fill_symbol}

  unfoldable pub fill_source_line_info : StackFrame C → StackFrame C
  fill_source_line_info frame = elim (module_at_address frame.instruction) [
    | some m ↦ fill_symbol m frame
    | none ↦ frame
  ]

  module _ (get_caller_frame : StackFrame C → Option (StackFrame C) → Option (StackFrame C)) where
    -- The loop, on fuel; the frames are kept last one first, and `none` is out of fuel.
    unfoldable pub walk_frames :
        ℕ → StackFrame C → List (StackFrame C) → Option (List (StackFrame C))
    unfolding fill_source_line_info
    walk_frames zero frame before = none
    walk_frames (suc fuel) frame before =
        let filled = fill_source_line_info frame in
        elim (get_caller_frame filled (get_elem? before 0)) [
          | some caller ↦ walk_frames fuel caller (filled ∷ before)
          | none ↦ some (filled ∷ before)
        ]

    -- Without stack memory only the context frame is filled in.
    unfoldable pub walk_stack : Bool → ℕ → List (StackFrame C) → Option (List (StackFrame C))
    unfolding walk_frames
    walk_stack has_memory fuel [] = some []
    walk_stack has_memory fuel (frame ∷ before) =
        if has_memory
        then walk_frames fuel frame before
        else some (fill_source_line_info frame ∷ before)
