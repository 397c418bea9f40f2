-- ===== src/Unwind/Arm64/Ends.antt =====
-- Unwinding an arm64 stack ends.
use rust_minidump.Base.{ℕ, ◌*◌, ◌<◌, ◌≡◌, Bool, Option, some, List, [], ◌∷◌, u64_mod}
use rust_minidump.Unwind.Contexts.Arm64.{sp, ContextArm64}
use rust_minidump.Unwind.Frames.{StackFrame, Provider}
use rust_minidump.Unwind.Frames.Stack.{walk_stack}
use rust_minidump.Unwind.Frames.Progress.{IsSound}
use rust_minidump.Unwind.Frames.Ends.{Rises, walk_stack-Rises}
use rust_minidump.Unwind.Frames.Leaves.{
  leaf_rank, IsAbove-leaf_rank, leaf_rank-lt, lt-leaf_rank, leaf_rank-same,
}
use rust_minidump.Unwind.Arm64.{arm64_arch, get_caller_frame}
use rust_minidump.Unwind.Arm64.Progress.{arm64_get_caller_frame_progress}

-- Unwinding from one context frame ends within 2 ^ 65 rounds, and every frame that it returns
-- ranks above its callee: its stack pointer is greater, or the callee is the frame of the context and
-- the stack pointers are equal; if the symbol provider is sound and the frame's stack pointer is a
-- 64-bit value.
pub arm64_walk_stack_ends :
    (last_module : Option (ℕ × ℕ)) (p : Provider ContextArm64)
    → IsSound (λ (c : ContextArm64). c sp) u64_mod p
    → (has_memory : Bool) (frame : StackFrame ContextArm64) → frame.ctx sp < u64_mod
    → (frames : List (StackFrame ContextArm64)) × (walk_stack p
          (get_caller_frame last_module p)
          has_memory
          (2 * u64_mod)
          (frame ∷ [])
        ≡ some frames)
      × Rises (leaf_rank arm64_arch) frames
arm64_walk_stack_ends last_module p sound has_memory frame fits =
    walk_stack-Rises p (get_caller_frame last_module p) (leaf_rank arm64_arch) (2 * u64_mod)
      (λ m f.
        leaf_rank-same arm64_arch (p.fill_symbol m f) f (sound.fill_symbol-ctx m f)
          (sound.fill_symbol-trust m f))
      (λ callee f grand_callee h low.
        let (above, found, mapped, inside) =
          arm64_get_caller_frame_progress last_module p sound callee f grand_callee
            (lt-leaf_rank arm64_arch callee u64_mod low) h in
        (
          IsAbove-leaf_rank arm64_arch callee f above found.1,
          leaf_rank-lt arm64_arch f u64_mod found.0,
        ))
      has_memory frame (leaf_rank-lt arm64_arch frame u64_mod fits)
