-- ===== src/Unwind/Frames/Progress.antt =====
-- What the tests at the end of `get_caller_frame` ensure, and what the ways to find a frame do.
use rust_minidump.Base.{
  ℕ, ◌-◌, ◌<◌, ◌≤◌, ◌≡◌, ◌⊎◌, refl, subst, Bool, true, false, not, Bool-cases, Option, none, some,
  some_inj, List, Bytes, ltb, leb, nat_eq, ◌&&◌, >>=-eq-some, inl, inr, arith,
}
use rust_minidump.Unwind.Walker.{CfiStackWalker}
use rust_minidump.Unwind.Frames.{StackFrame, Provider, or_else, from_ctx_and_args, walked}
use rust_minidump.Unwind.Frames.Stack.{Arch, is_context, is_leaf, checked_frame, caller_by}

-- What is asked of the symbol provider: symbolication keeps the registers and the trust, and a walk
-- writes a stack pointer that fits its register.
pub record IsSound {C : Type 0} (sp : C → ℕ) (bound : ℕ) (p : Provider C) : Type 0 where
  pub fill_symbol-ctx : (m : p.Module) (f : StackFrame C) → (p.fill_symbol m f).ctx ≡ f.ctx
  pub fill_symbol-trust : (m : p.Module) (f : StackFrame C) → (p.fill_symbol m f).trust ≡ f.trust
  pub walk_frame-sp :
      (m : p.Module) (s t : CfiStackWalker C)
      → p.walk_frame m s ≡ some t
      → sp s.caller_ctx < bound
      → sp t.caller_ctx < bound

module _ {C : Type 0} (arch : Arch C) where
  -- The caller lies higher, or the callee is a leaf function in the frame of the context.
  abbrev pub IsAbove : StackFrame C → StackFrame C → Type 0
  IsAbove callee f =
      (arch.sp callee.ctx < arch.sp f.ctx)
      ⊎ ((arch.has_leaves ≡ true)
          × (is_context callee.trust ≡ true)
          × (arch.sp callee.ctx ≡ arch.sp f.ctx))

  abbrev pub IsChecked : StackFrame C → StackFrame C → StackFrame C → Type 0
  IsChecked callee frame f =
      IsAbove callee f
      × (4096 ≤ arch.pc f.ctx)
      × (f.instruction ≡ arch.pc f.ctx - arch.call_size)
      × (f.ctx ≡ frame.ctx)
      × (f.trust ≡ frame.trust)

  above :
      (l c : Bool) (s t : ℕ)
      → leb t s && not (l && (c && nat_eq t s)) ≡ false
      → (s < t) ⊎ ((l ≡ true) × (c ≡ true) × (s ≡ t))
  above false c s t h = inl (ground arith)
  above true false s t h = inl (ground arith)
  above true true s t h = elim (Bool-cases (nat_eq t s)) [
    | inl e ↦ inr (refl, refl, ground arith)
    | inr e ↦ inl (ground arith)
  ]

  checked_frame_sound :
      (callee frame f : StackFrame C)
      → checked_frame arch callee frame ≡ some f
      → IsChecked callee frame f
  unfolding checked_frame
  checked_frame_sound callee frame f h = elim (Bool-cases (ltb (arch.pc frame.ctx) 4096)) [
    | inl e ↦ absurd (ground arith)
    | inr e ↦
        elim (Bool-cases
          (leb (arch.sp frame.ctx) (arch.sp callee.ctx) && not (is_leaf arch callee frame))) [
            | inl d ↦ cc (rw (e, d) at h)
            | inr d ↦ subst (IsChecked callee frame) (some_inj (rw (e, d) at h)) (
              above arch.has_leaves (is_context callee.trust) (arch.sp callee.ctx)
                  (arch.sp frame.ctx) d,
              ground arith,
              refl,
              refl,
              refl,
            )
          ]
  ]

  pub caller_by_sound :
      (ways : StackFrame C → Option (StackFrame C) → Option (StackFrame C))
      → (callee f : StackFrame C) (grand_callee : Option (StackFrame C))
      → caller_by arch ways callee grand_callee ≡ some f
      → (frame : StackFrame C) × (ways callee grand_callee ≡ some frame) × IsChecked callee frame f
  unfolding caller_by
  caller_by_sound ways callee f grand_callee h =
      let (frame, found, checked) = >>=-eq-some (ways callee grand_callee) _ h in
      (frame, found, checked_frame_sound callee frame f checked)

-- What holds of the frames of two ways holds of the first that succeeds.
pub or_else-All :
    {C : Type 0} (P : StackFrame C → Type 0) (a b : Option (StackFrame C)) {f : StackFrame C}
    → (a ≡ some f → P f)
    → (b ≡ some f → P f)
    → or_else a b ≡ some f
    → P f
or_else-All P none b ha hb h = hb h
or_else-All P (some g) b ha hb h = ha h

module _ {C : Type 0} (sp : C → ℕ) (bound : ℕ) (p : Provider C) (sound : IsSound sp bound p) where
  pub walked-Fits :
      (saved : List Bytes) (callee : StackFrame C) (grand_callee : Option (StackFrame C))
      → (t : CfiStackWalker C) → walked p saved callee grand_callee ≡ some t
      → sp callee.ctx < bound
      → sp t.caller_ctx < bound
  unfolding walked from_ctx_and_args
  walked-Fits saved callee grand_callee t h fits =
      let (start, made, went) = >>=-eq-some (from_ctx_and_args p saved callee grand_callee) _ h in
      let (m, found, started) = >>=-eq-some (p.module_at_address callee.instruction) _ made in
      sound.walk_frame-sp start.0 start.1 t went (
        subst (λ (s : p.Module × CfiStackWalker C). sp s.1.caller_ctx < bound) (some_inj started)
          fits)
