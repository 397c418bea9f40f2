-- ===== src/Unwind/Amd64/Ends.antt =====
-- Unwinding an amd64 stack ends.
use rust_minidump.Base.{◌≡◌, ap, Bool, some, List, [], ◌∷◌, u64_mod}
use rust_minidump.Unwind.Contexts.Amd64.{ContextAmd64, rsp}
use rust_minidump.Unwind.Frames.{StackFrame, Provider}
use rust_minidump.Unwind.Frames.Stack.{walk_stack}
use rust_minidump.Unwind.Frames.Progress.{IsSound}
use rust_minidump.Unwind.Frames.Ends.{Rises, walk_stack-Rises}
use rust_minidump.Unwind.Amd64.{get_caller_frame}
use rust_minidump.Unwind.Amd64.Progress.{Fits, get_caller_frame_progress, get_caller_frame-Fits}

-- Unwinding from one context frame ends within 2 ^ 64 rounds, and the stack pointers of the frames
-- that it returns grow from each callee to its caller, if the symbol provider is sound and the
-- frame's stack pointer is a 64-bit value.
pub amd64_walk_stack_ends :
    (is_windows : Bool) (p : Provider ContextAmd64)
    → IsSound (λ (c : ContextAmd64). c rsp) u64_mod p
    → (has_memory : Bool) (frame : StackFrame ContextAmd64) → Fits frame
    → (frames : List (StackFrame ContextAmd64)) × (walk_stack p
          (get_caller_frame is_windows p)
          has_memory
          u64_mod
          (frame ∷ [])
        ≡ some frames)
      × Rises (λ f. f.ctx rsp) frames
amd64_walk_stack_ends is_windows p sound =
    walk_stack-Rises p (get_caller_frame is_windows p) (λ f. f.ctx rsp) u64_mod
      (λ m f. ap (λ (c : ContextAmd64). c rsp) (sound.fill_symbol-ctx m f))
      (λ callee f grand_callee h fits. (
        (get_caller_frame_progress is_windows p callee f grand_callee h).0,
        get_caller_frame-Fits is_windows p sound callee f grand_callee fits h,
      ))
