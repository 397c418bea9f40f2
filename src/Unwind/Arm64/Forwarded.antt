-- ===== src/Unwind/Arm64/Forwarded.antt =====
-- What arm64.rs's two names of the frame pointer do, and its frame pointer of 0.
use rust_minidump.Base.{
  ℕ, ◌-◌, ◌^◌, max, ◌≡◌, refl, subst, true, false, Option, none, some, some_inj, text, leb, u64_mod,
  ◌>>=◌, >>=-eq-some, if_none-eq-some, arith,
}
use native.Mathlib.Nat.{mod-le}
use rust_minidump.Unwind.Contexts.{MinidumpContextValidity, get_register}
use rust_minidump.Unwind.Contexts.Arm64.{ContextArm64, arm64_context, arm64_register_is_valid}
use rust_minidump.Unwind.Frames.{StackFrame, Provider, from_context, callee_forwarded_regs}
use rust_minidump.Unwind.Frames.Stack.{caller_by, checked_frame}
use rust_minidump.Unwind.Arm64.{
  arm64_arch, callee_saved_regs, saved_registers, masked, canonical_frame, is_non_canonical,
  ptr_auth_strip, max_module_addr, next_power_from, get_caller_by_cfi, get_caller_by_frame_pointer,
  get_caller_by_scan, get_caller_frame,
}

module _ (last_module : Option (ℕ × ℕ)) (p : Provider ContextArm64) where
  -- The next CFI walk forwards neither name of the frame pointer, though it is valid.
  abbrev pub LosesFp : MinidumpContextValidity → Type 0
  LosesFp valid =
      (arm64_register_is_valid (text "fp") valid ≡ true)
      × (callee_forwarded_regs callee_saved_regs valid (text "fp") ≡ false)
      × (callee_forwarded_regs callee_saved_regs valid (text "x29") ≡ false)

  -- In a frame that was found by the frame pointer the register fp is valid, but it is not among the
  -- registers that are forwarded to the caller when the next frame is found by CFI.
  pub get_caller_by_frame_pointer-LosesFp :
      (callee f : StackFrame ContextArm64)
      → get_caller_by_frame_pointer last_module p callee ≡ some f
      → LosesFp f.valid
  unfolding get_caller_by_frame_pointer from_context callee_forwarded_regs arm64_register_is_valid
  get_caller_by_frame_pointer-LosesFp callee f h =
      let (last_fp, has_fp, rest2) =
        >>=-eq-some (get_register arm64_context callee.ctx (text "x29") callee.valid) _ h in
      let (last_sp, has_sp, rest3) =
        >>=-eq-some (get_register arm64_context callee.ctx (text "sp") callee.valid) _ rest2 in
      let (guarded, rest4) = if_none-eq-some (leb (u64_mod - 1 - 16) last_fp) _ rest3 in
      let (saved, found, rest5) =
        >>=-eq-some (saved_registers last_module p last_fp last_sp) _ rest4 in
      let (canonical, made) =
        if_none-eq-some (is_non_canonical (ptr_auth_strip last_module saved.1)) _ rest5 in
      subst (λ (g : StackFrame ContextArm64). LosesFp g.valid) (some_inj made) (refl, refl, refl)

  zero_stripped : ptr_auth_strip last_module 0 ≡ 0
  unfolding ptr_auth_strip
  zero_stripped = go (next_power_from 64 0 (max (2 ^ 47 - 1) (max_module_addr last_module)))
    where
      go : (power : Option ℕ) → masked power 0 ≡ 0
      go none = refl
      go (some q) = omega (arith, mod-le 0 q)

  zero_frame_pointer-none :
      (callee : StackFrame ContextArm64)
      → get_register arm64_context callee.ctx (text "x29") callee.valid ≡ some 0
      → get_caller_by_frame_pointer last_module p callee ≡ none
  unfolding get_caller_by_frame_pointer is_non_canonical
  zero_frame_pointer-none callee h =
      rw h (go (get_register arm64_context callee.ctx (text "sp") callee.valid))
    where
      go :
          (o : Option ℕ)
          → (o >>= λ last_sp.
              canonical_frame last_module p
                (ptr_auth_strip last_module 0)
                (ptr_auth_strip last_module 0)
                last_sp)
            ≡ none
      go none = refl
      go (some v) = rw zero_stripped refl

  -- A frame pointer of 0 does not end the unwinding: where CFI finds no frame either, the stack is
  -- scanned.
  pub get_caller_frame-zero_frame_pointer :
      (callee : StackFrame ContextArm64) (grand_callee : Option (StackFrame ContextArm64))
      → get_register arm64_context callee.ctx (text "x29") callee.valid ≡ some 0
      → get_caller_by_cfi last_module p callee grand_callee ≡ none
      → get_caller_frame last_module p callee grand_callee
        ≡ (get_caller_by_scan last_module p callee >>= checked_frame arm64_arch callee)
  unfolding get_caller_frame get_caller_by_frame_pointer caller_by
  get_caller_frame-zero_frame_pointer callee grand_callee zero_fp no_cfi =
      rw (no_cfi, zero_frame_pointer-none callee zero_fp) refl
