-- ===== src/Unwind/X86/Ends.antt =====
-- Unwinding an x86 stack ends.
use rust_minidump.Base.{◌≡◌, ap, Bool, some, List, [], ◌∷◌, u32_mod}
use rust_minidump.Unwind.Contexts.{ContextX86, esp}
use rust_minidump.Unwind.Frames.{StackFrame, Provider}
use rust_minidump.Unwind.Frames.Stack.{walk_stack}
use rust_minidump.Unwind.Frames.Progress.{IsSound}
use rust_minidump.Unwind.Frames.Ends.{Rises, walk_stack-Rises}
use rust_minidump.Unwind.X86.{get_caller_frame}
use rust_minidump.Unwind.X86.Progress.{Fits, get_caller_frame_progress, get_caller_frame-Fits}

-- Unwinding from one context frame ends within 2 ^ 32 rounds, and the stack pointers of the frames
-- that it returns grow from each callee to its caller, if the symbol provider is sound and the
-- frame's stack pointer is a 32-bit value.
pub walk_stack_ends :
    (p : Provider ContextX86)
    → IsSound (λ (c : ContextX86). c esp) u32_mod p
    → (has_memory : Bool) (frame : StackFrame ContextX86) → Fits frame
    → (frames : List (StackFrame ContextX86)) × (walk_stack p
          (get_caller_frame p)
          has_memory
          u32_mod
          (frame ∷ [])
        ≡ some frames)
      × Rises (λ f. f.ctx esp) frames
walk_stack_ends p sound =
    walk_stack-Rises p (get_caller_frame p) (λ f. f.ctx esp) u32_mod
      (λ m f. ap (λ (c : ContextX86). c esp) (sound.fill_symbol-ctx m f))
      (λ callee f grand_callee h fits. (
        (get_caller_frame_progress p callee f grand_callee h).0,
        get_caller_frame-Fits p sound callee f grand_callee fits h,
      ))
