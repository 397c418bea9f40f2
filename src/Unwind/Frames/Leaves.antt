-- ===== src/Unwind/Frames/Leaves.antt =====
-- Where the frame of the context may be a leaf function's, the stack pointer may stay once.
use rust_minidump.Base.{
  ℕ, ◌+◌, ◌*◌, ◌<◌, ◌≡◌, ap₂, Bool, true, false, if◌then◌else◌, inl, inr, arith,
}
use rust_minidump.Unwind.Frames.{FrameTrust, StackFrame}
use rust_minidump.Unwind.Frames.Stack.{Arch, is_context}
use rust_minidump.Unwind.Frames.Progress.{IsAbove}

-- The stack pointer, and for equal ones the frame of the context first.
abbrev pub rank_of : ℕ → Bool → ℕ
rank_of s c = 2 * s + (if c then 0 else 1)

module _ {C : Type 0} (arch : Arch C) where
  abbrev pub leaf_rank : StackFrame C → ℕ
  leaf_rank f = rank_of (arch.sp f.ctx) (is_context f.trust)

  pub IsAbove-leaf_rank :
      (callee f : StackFrame C)
      → IsAbove arch callee f
      → is_context f.trust ≡ false
      → leaf_rank callee < leaf_rank f
  IsAbove-leaf_rank callee f (inl higher) found = rw found (go (is_context callee.trust))
    where
      go : (c : Bool) → rank_of (arch.sp callee.ctx) c < 2 * arch.sp f.ctx + 1
      go true = omega (arith, higher)
      go false = omega (arith, higher)
  IsAbove-leaf_rank callee f (inr (leaves, first, same)) found =
      rw (found, first, same) (omega arith)

  pub leaf_rank-lt :
      (f : StackFrame C) (bound : ℕ) → arch.sp f.ctx < bound → leaf_rank f < 2 * bound
  leaf_rank-lt f bound h = go (is_context f.trust)
    where
      go : (c : Bool) → rank_of (arch.sp f.ctx) c < 2 * bound
      go true = omega (arith, h)
      go false = omega (arith, h)

  pub lt-leaf_rank :
      (f : StackFrame C) (bound : ℕ) → leaf_rank f < 2 * bound → arch.sp f.ctx < bound
  lt-leaf_rank f bound h = go (is_context f.trust) h
    where
      go : (c : Bool) → rank_of (arch.sp f.ctx) c < 2 * bound → arch.sp f.ctx < bound
      go true h = omega (arith, h)
      go false h = omega (arith, h)

  pub leaf_rank-same :
      (f g : StackFrame C) → f.ctx ≡ g.ctx → f.trust ≡ g.trust → leaf_rank f ≡ leaf_rank g
  leaf_rank-same f g c t = ap₂ (λ (x : C) (y : FrameTrust). rank_of (arch.sp x) (is_context y)) c t
