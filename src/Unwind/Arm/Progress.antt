-- ===== src/Unwind/Arm/Progress.antt =====
-- Unwinding an arm stack makes progress: every caller lies higher, but that of a leaf function in the
-- frame of the context.
use rust_minidump.Base.{
  ℕ, ◌+◌, ◌-◌, ◌*◌, ◌<◌, ◌≤◌, ◌≡◌, refl, sym, subst, Bool, true, false, Bool-cases, Option, none,
  not, some, some_inj, text, leb, nat_eq, if◌then◌else◌, u32_mod, checked_add, >>=-eq-some,
  if_none-eq-some, inl, inr, arith,
}
use rust_minidump.Unwind.Contexts.{get_register}
use rust_minidump.Unwind.Contexts.Arm.{ireg, ContextArm, arm_context, arm_register_is_valid}
use rust_minidump.Unwind.Frames.{
  FrameTrust, StackFrame, Provider, from_context, or_else, scan_range, walked,
}
use rust_minidump.Unwind.Frames.Scan.{scan_from_sound}
use rust_minidump.Unwind.Frames.Stack.{is_context}
use rust_minidump.Unwind.Frames.Progress.{
  IsSound, IsAbove, caller_by_sound, or_else-All, walked-Fits,
}
use rust_minidump.Unwind.Arm.{
  arm_arch, callee_saved_regs, saved_registers, get_caller_by_cfi, get_caller_by_frame_pointer,
  get_caller_by_scan, instruction_seems_valid, scan_found, find_caller, get_caller_frame,
}

-- What every way to find a frame gives: a stack pointer that fits its register, and a trust that is
-- not that of a context.
abbrev pub IsFound : StackFrame ContextArm → Type 0
IsFound f = (f.ctx (ireg 13) < u32_mod) × (is_context f.trust ≡ false)

-- What a register that is read holds.
read_sp :
    (callee : StackFrame ContextArm) {v : ℕ}
    → get_register arm_context callee.ctx (text "r13") callee.valid ≡ some v
    → v ≡ callee.ctx (ireg 13)
unfolding get_register
read_sp callee h = go (arm_register_is_valid (text "r13") callee.valid) h
  where
    go :
        (b : Bool) {v : ℕ}
        → (if b then some (callee.ctx (ireg 13)) else none) ≡ some v
        → v ≡ callee.ctx (ireg 13)
    go true e = sym (some_inj e)
    go false e = cc

module _ (is_ios : Bool) (p : Provider ContextArm) where
  saved_sp :
      (last_fp last_sp : ℕ) (saved : ℕ × ℕ × ℕ)
      → saved_registers is_ios p last_fp last_sp ≡ some saved
      → last_sp < u32_mod
      → last_fp < u32_mod - 1 - 8
      → saved.2 < u32_mod
  saved_sp last_fp last_sp saved h fits small = elim (Bool-cases (nat_eq last_fp 0)) [
    | inl e ↦ subst (λ (s : ℕ × ℕ × ℕ). s.2 < u32_mod) (some_inj (rw e at h)) fits
    | inr e ↦
        let (fp, fp_read, rest) = >>=-eq-some (p.get_memory_at_address last_fp) _ (rw e at h) in
        let (pc', pc_read, made) = >>=-eq-some (p.get_memory_at_address (last_fp + 4)) _ rest in
        subst (λ (s : ℕ × ℕ × ℕ). s.2 < u32_mod) (some_inj made) (omega (arith, small))
  ]

  frame_pointer-IsFound :
      (callee : StackFrame ContextArm) {f : StackFrame ContextArm}
      → callee.ctx (ireg 13) < u32_mod
      → get_caller_by_frame_pointer is_ios p callee ≡ some f
      → IsFound f
  unfolding get_caller_by_frame_pointer from_context
  frame_pointer-IsFound callee fits h =
      let (os, rest) = if_none-eq-some (not is_ios) _ h in
      let (last_fp, has_fp, rest2) =
        >>=-eq-some (get_register arm_context callee.ctx (text "r11") callee.valid) _ rest in
      let (last_sp, has_sp, rest3) =
        >>=-eq-some (get_register arm_context callee.ctx (text "r13") callee.valid) _ rest2 in
      let (guarded, rest4) = if_none-eq-some (leb (u32_mod - 1 - 8) last_fp) _ rest3 in
      let (saved, found, made) = >>=-eq-some (saved_registers is_ios p last_fp last_sp) _ rest4 in
      let small : last_fp < u32_mod - 1 - 8 = ground arith in
      let same : last_sp ≡ callee.ctx (ireg 13) = read_sp callee has_sp in
      subst IsFound (some_inj made)
        (saved_sp last_fp last_sp saved found (omega (arith, same, fits)) small, refl)

  -- The frame of a scan returns to the word that was found, and lies just above it.
  pub scan_found_lem :
      (i address ip : ℕ) {f : StackFrame ContextArm}
      → scan_found is_ios p i address ip ≡ some f
      → (f.ctx (ireg 13) ≡ address + 4) × (f.ctx (ireg 15) ≡ ip) × IsFound f
  unfolding from_context
  scan_found_lem i address ip h =
      let (sp', added, made) = >>=-eq-some (checked_add u32_mod address 4) _ h in
      let placed : sp' ≡ address + 4 = ground arith in
      let small : sp' < u32_mod = ground arith in
      subst
        (λ (f : StackFrame ContextArm).
          (f.ctx (ireg 13) ≡ address + 4) × (f.ctx (ireg 15) ≡ ip) × IsFound f)
        (some_inj made) (placed, refl, (small, refl))

  scan-IsFound :
      (callee : StackFrame ContextArm) {f : StackFrame ContextArm}
      → get_caller_by_scan is_ios p callee ≡ some f
      → IsFound f
  unfolding get_caller_by_scan
  scan-IsFound callee {f} h =
      let (last_sp, has_sp, scanned) =
        >>=-eq-some (get_register arm_context callee.ctx (text "r13") callee.valid) _ h in
      let (i, ip, below, (made, read, valid, passed)) =
        scan_from_sound p.get_memory_at_address 4 u32_mod (instruction_seems_valid is_ios p)
          (scan_found is_ios p) last_sp (scan_range callee.trust) 0 f scanned in
      (scan_found_lem i (last_sp + i * 4) ip made).2

  module _ (sound : IsSound (λ (c : ContextArm). c (ireg 13)) u32_mod p) where
    cfi-IsFound :
        (callee : StackFrame ContextArm) (grand_callee : Option (StackFrame ContextArm))
        → {f : StackFrame ContextArm} → callee.ctx (ireg 13) < u32_mod
        → get_caller_by_cfi is_ios p callee grand_callee ≡ some f
        → IsFound f
    unfolding get_caller_by_cfi from_context
    cfi-IsFound callee grand_callee fits h =
        let (last_sp, has_sp, rest) =
          >>=-eq-some (get_register arm_context callee.ctx (text "r13") callee.valid) _ h in
        let (s, went, made) = >>=-eq-some (walked p callee_saved_regs callee grand_callee) _ rest in
        let small =
          walked-Fits (λ (c : ContextArm). c (ireg 13)) u32_mod p sound callee_saved_regs callee
            grand_callee s went fits in
        subst IsFound (some_inj made) (small, refl)

    -- A caller's frame has a stack pointer that fits its register, and lies above its callee's, but
    -- that the stack pointer of the frame of the context may stay; its instruction is beyond the
    -- first page, and the frame's own instruction is 2 bytes before it.
    pub arm_get_caller_frame_progress :
        (callee f : StackFrame ContextArm) (grand_callee : Option (StackFrame ContextArm))
        → callee.ctx (ireg 13) < u32_mod
        → get_caller_frame is_ios p callee grand_callee ≡ some f
        → IsAbove arm_arch callee f
          × IsFound f
          × (4096 ≤ f.ctx (ireg 15))
          × (f.instruction + 2 ≡ f.ctx (ireg 15))
    unfolding get_caller_frame
    arm_get_caller_frame_progress callee f grand_callee fits h =
        let (frame, found, (above, mapped, inside, same, trusted)) =
          caller_by_sound arm_arch (find_caller is_ios p) callee f grand_callee h in
        let (small, kind) =
          or_else-All IsFound (get_caller_by_cfi is_ios p callee grand_callee)
            (or_else (get_caller_by_frame_pointer is_ios p callee)
              (get_caller_by_scan is_ios p callee))
            (cfi-IsFound callee grand_callee fits)
            (or_else-All IsFound (get_caller_by_frame_pointer is_ios p callee)
              (get_caller_by_scan is_ios p callee) (frame_pointer-IsFound callee fits)
              (scan-IsFound callee))
            found in
        (
          above,
          (
            subst (λ (c : ContextArm). c (ireg 13) < u32_mod) (sym same) small,
            subst (λ (t : FrameTrust). is_context t ≡ false) (sym trusted) kind,
          ),
          mapped,
          omega (arith, inside, mapped),
        )
