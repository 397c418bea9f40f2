-- ===== src/Unwind/Arm/Ends.antt =====
-- Unwinding an arm stack ends.
use rust_minidump.Base.{◌*◌, ◌<◌, ◌≡◌, Bool, some, List, [], ◌∷◌, u32_mod}
use rust_minidump.Unwind.Contexts.Arm.{ireg, ContextArm}
use rust_minidump.Unwind.Frames.{StackFrame, Provider}
use rust_minidump.Unwind.Frames.Stack.{walk_stack}
use rust_minidump.Unwind.Frames.Progress.{IsSound}
use rust_minidump.Unwind.Frames.Ends.{Rises, walk_stack-Rises}
use rust_minidump.Unwind.Frames.Leaves.{
  leaf_rank, IsAbove-leaf_rank, leaf_rank-lt, lt-leaf_rank, leaf_rank-same,
}
use rust_minidump.Unwind.Arm.{arm_arch, get_caller_frame}
use rust_minidump.Unwind.Arm.Progress.{arm_get_caller_frame_progress}

-- Unwinding from one context frame ends within 2 ^ 33 rounds, and every frame that it returns
-- ranks above its callee: its stack pointer is greater, or the callee is the frame of the context and
-- the stack pointers are equal; if the symbol provider is sound and the frame's stack pointer is a
-- 32-bit value.
pub arm_walk_stack_ends :
    (is_ios : Bool) (p : Provider ContextArm)
    → IsSound (λ (c : ContextArm). c (ireg 13)) u32_mod p
    → (has_memory : Bool) (frame : StackFrame ContextArm) → frame.ctx (ireg 13) < u32_mod
    → (frames : List (StackFrame ContextArm)) × (walk_stack p
          (get_caller_frame is_ios p)
          has_memory
          (2 * u32_mod)
          (frame ∷ [])
        ≡ some frames)
      × Rises (leaf_rank arm_arch) frames
arm_walk_stack_ends is_ios p sound has_memory frame fits =
    walk_stack-Rises p (get_caller_frame is_ios p) (leaf_rank arm_arch) (2 * u32_mod)
      (λ m f.
        leaf_rank-same arm_arch (p.fill_symbol m f) f (sound.fill_symbol-ctx m f)
          (sound.fill_symbol-trust m f))
      (λ callee f grand_callee h low.
        let (above, found, mapped, inside) =
          arm_get_caller_frame_progress is_ios p sound callee f grand_callee
            (lt-leaf_rank arm_arch callee u32_mod low) h in
        (
          IsAbove-leaf_rank arm_arch callee f above found.1,
          leaf_rank-lt arm_arch f u32_mod found.0,
        ))
      has_memory frame (leaf_rank-lt arm_arch frame u32_mod fits)
