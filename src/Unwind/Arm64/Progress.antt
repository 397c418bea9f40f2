-- ===== src/Unwind/Arm64/Progress.antt =====
-- Unwinding an arm64 stack makes progress: every caller lies higher, but that of a leaf function in the
-- frame of the context.
use rust_minidump.Base.{
  ℕ, ◌+◌, ◌-◌, ◌*◌, ◌<◌, ◌≤◌, ◌≡◌, refl, sym, subst, ◌∙◌, Bool, true, false, Bool-cases, Option,
  none, some, some_inj, text, leb, nat_eq, if◌then◌else◌, u64_mod, checked_add, >>=-eq-some,
  if_none-eq-some, inl, inr, arith,
}
use rust_minidump.Unwind.Contexts.{only, get_register, MinidumpContextValidity}
use rust_minidump.Unwind.Contexts.Fields.{put_field}
use rust_minidump.Unwind.Contexts.Arm64.{
  xreg, sp, pc, ContextArm64, arm64_index, arm64_context, arm64_register_is_valid,
}
use rust_minidump.Unwind.Frames.{
  FrameTrust, StackFrame, Provider, from_context, or_else, scan_range, walked,
}
use rust_minidump.Unwind.Frames.Scan.{scan_from_sound}
use rust_minidump.Unwind.Frames.Stack.{is_context}
use rust_minidump.Unwind.Frames.Progress.{
  IsSound, IsAbove, caller_by_sound, or_else-All, walked-Fits,
}
use rust_minidump.Unwind.Arm64.{
  arm64_arch, callee_saved_regs, saved_registers, get_caller_by_cfi, get_caller_by_frame_pointer,
  get_caller_by_scan, instruction_seems_valid, scan_found, find_caller, get_caller_frame,
  is_non_canonical, ptr_auth_strip, stripped, strip_register, stripped_by,
}

-- What every way to find a frame gives: a stack pointer that fits its register, and a trust that is
-- not that of a context.
abbrev pub IsFound : StackFrame ContextArm64 → Type 0
IsFound f = (f.ctx sp < u64_mod) × (is_context f.trust ≡ false)

-- What a register that is read holds.
read_sp :
    (callee : StackFrame ContextArm64) {v : ℕ}
    → get_register arm64_context callee.ctx (text "sp") callee.valid ≡ some v
    → v ≡ callee.ctx sp
unfolding get_register
read_sp callee h = go (arm64_register_is_valid (text "sp") callee.valid) h
  where
    go :
        (b : Bool) {v : ℕ} → (if b then some (callee.ctx sp) else none) ≡ some v → v ≡ callee.ctx sp
    go true e = sym (some_inj e)
    go false e = cc

module _ (last_module : Option (ℕ × ℕ)) (p : Provider ContextArm64) where
  saved_sp :
      (last_fp last_sp : ℕ) (saved : ℕ × ℕ × ℕ)
      → saved_registers last_module p last_fp last_sp ≡ some saved
      → last_sp < u64_mod
      → last_fp < u64_mod - 1 - 16
      → saved.2 < u64_mod
  saved_sp last_fp last_sp saved h fits small = elim (Bool-cases (nat_eq last_fp 0)) [
    | inl e ↦ subst (λ (s : ℕ × ℕ × ℕ). s.2 < u64_mod) (some_inj (rw e at h)) fits
    | inr e ↦
        let (fp, fp_read, rest) = >>=-eq-some (p.get_memory_at_address last_fp) _ (rw e at h) in
        let (pc', pc_read, made) = >>=-eq-some (p.get_memory_at_address (last_fp + 8)) _ rest in
        subst (λ (s : ℕ × ℕ × ℕ). s.2 < u64_mod) (some_inj made) (omega (arith, small))
  ]

  frame_pointer-IsFound :
      (callee : StackFrame ContextArm64) {f : StackFrame ContextArm64}
      → callee.ctx sp < u64_mod
      → get_caller_by_frame_pointer last_module p callee ≡ some f
      → IsFound f
  unfolding get_caller_by_frame_pointer from_context
  frame_pointer-IsFound callee fits h =
      let (last_fp, has_fp, rest2) =
        >>=-eq-some (get_register arm64_context callee.ctx (text "x29") callee.valid) _ h in
      let (last_sp, has_sp, rest3) =
        >>=-eq-some (get_register arm64_context callee.ctx (text "sp") callee.valid) _ rest2 in
      let (guarded, rest4) = if_none-eq-some (leb (u64_mod - 1 - 16) last_fp) _ rest3 in
      let (saved, found, rest5) =
        >>=-eq-some (saved_registers last_module p last_fp last_sp) _ rest4 in
      let (canonical, made) =
        if_none-eq-some (is_non_canonical (ptr_auth_strip last_module saved.1)) _ rest5 in
      let small : last_fp < u64_mod - 1 - 16 = ground arith in
      let same : last_sp ≡ callee.ctx sp = read_sp callee has_sp in
      subst IsFound (some_inj made)
        (saved_sp last_fp last_sp saved found (omega (arith, same, fits)) small, refl)

  -- The frame of a scan returns to the word that was found, and lies just above it.
  pub scan_found_lem :
      (i address ip : ℕ) {f : StackFrame ContextArm64}
      → scan_found last_module p i address ip ≡ some f
      → (f.ctx sp ≡ address + 8) × (f.ctx pc ≡ ip) × IsFound f
  unfolding from_context
  scan_found_lem i address ip h =
      let (sp', added, made) = >>=-eq-some (checked_add u64_mod address 8) _ h in
      let placed : sp' ≡ address + 8 = ground arith in
      let small : sp' < u64_mod = ground arith in
      subst
        (λ (f : StackFrame ContextArm64). (f.ctx sp ≡ address + 8) × (f.ctx pc ≡ ip) × IsFound f)
        (some_inj made) (placed, refl, (small, refl))

  scan-IsFound :
      (callee : StackFrame ContextArm64) {f : StackFrame ContextArm64}
      → get_caller_by_scan last_module p callee ≡ some f
      → IsFound f
  unfolding get_caller_by_scan
  scan-IsFound callee {f} h =
      let (last_sp, has_sp, scanned) =
        >>=-eq-some (get_register arm64_context callee.ctx (text "sp") callee.valid) _ h in
      let (i, ip, below, (made, read, valid, passed)) =
        scan_from_sound p.get_memory_at_address 8 u64_mod (instruction_seems_valid last_module p)
          (scan_found last_module p) last_sp (scan_range callee.trust) 0 f scanned in
      (scan_found_lem i (last_sp + i * 8) ip made).2

  stripped_by_sp :
      (o : Option ℕ) (n : ℕ) (ctx : ContextArm64)
      → stripped_by last_module p o (xreg n) ctx sp ≡ ctx sp
  stripped_by_sp none n ctx = refl
  stripped_by_sp (some v) n ctx = ground arith

  -- The stack pointer is not stripped.
  stripped_sp :
      (valid : MinidumpContextValidity) (ctx : ContextArm64)
      → stripped last_module p valid ctx sp ≡ ctx sp
  unfolding stripped
  stripped_sp valid ctx =
      let with_pc = put_field arm64_index pc (ptr_auth_strip last_module (ctx pc)) ctx in
      let with_lr = strip_register last_module p (text "x30") (xreg 30) valid with_pc in
      stripped_by_sp (get_register arm64_context with_lr (text "x29") valid) 29 with_lr
      ∙ stripped_by_sp (get_register arm64_context with_pc (text "x30") valid) 30 with_pc

  module _ (sound : IsSound (λ (c : ContextArm64). c sp) u64_mod p) where
    cfi-IsFound :
        (callee : StackFrame ContextArm64) (grand_callee : Option (StackFrame ContextArm64))
        → {f : StackFrame ContextArm64} → callee.ctx sp < u64_mod
        → get_caller_by_cfi last_module p callee grand_callee ≡ some f
        → IsFound f
    unfolding get_caller_by_cfi from_context
    cfi-IsFound callee grand_callee fits h =
        let (last_sp, has_sp, rest) =
          >>=-eq-some (get_register arm64_context callee.ctx (text "sp") callee.valid) _ h in
        let (s, went, made) = >>=-eq-some (walked p callee_saved_regs callee grand_callee) _ rest in
        let small =
          walked-Fits (λ (c : ContextArm64). c sp) u64_mod p sound callee_saved_regs callee
            grand_callee s went fits in
        subst IsFound (some_inj made) (
          subst (λ (n : ℕ). n < u64_mod) (sym (stripped_sp (only s.caller_validity) s.caller_ctx))
              small,
          refl,
        )

    -- A caller's frame has a stack pointer that fits its register, and lies above its callee's, but
    -- that the stack pointer of the frame of the context may stay; its instruction is beyond the
    -- first page, and the frame's own instruction is 4 bytes before it.
    pub arm64_get_caller_frame_progress :
        (callee f : StackFrame ContextArm64) (grand_callee : Option (StackFrame ContextArm64))
        → callee.ctx sp < u64_mod
        → get_caller_frame last_module p callee grand_callee ≡ some f
        → IsAbove arm64_arch callee f
          × IsFound f
          × (4096 ≤ f.ctx pc)
          × (f.instruction + 4 ≡ f.ctx pc)
    unfolding get_caller_frame
    arm64_get_caller_frame_progress callee f grand_callee fits h =
        let (frame, found, (above, mapped, inside, same, trusted)) =
          caller_by_sound arm64_arch (find_caller last_module p) callee f grand_callee h in
        let (small, kind) =
          or_else-All IsFound (get_caller_by_cfi last_module p callee grand_callee)
            (or_else (get_caller_by_frame_pointer last_module p callee)
              (get_caller_by_scan last_module p callee))
            (cfi-IsFound callee grand_callee fits)
            (or_else-All IsFound (get_caller_by_frame_pointer last_module p callee)
              (get_caller_by_scan last_module p callee) (frame_pointer-IsFound callee fits)
              (scan-IsFound callee))
            found in
        (
          above,
          (
            subst (λ (c : ContextArm64). c sp < u64_mod) (sym same) small,
            subst (λ (t : FrameTrust). is_context t ≡ false) (sym trusted) kind,
          ),
          mapped,
          omega (arith, inside, mapped),
        )
