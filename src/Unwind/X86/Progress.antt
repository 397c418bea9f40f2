-- ===== src/Unwind/X86/Progress.antt =====
-- Unwinding an x86 stack makes progress: the stack pointer grows with every frame, within 32 bits.
use rust_minidump.Base.{
  ℕ, ◌+◌, ◌-◌, ◌<◌, ◌≤◌, ◌≡◌, refl, sym, subst, Option, none, some, some_inj, text, ltb, ◌&&◌,
  u32_mod, checked_add, >>=-eq-some, if-eq-some, ◌*◌, inl, inr, arith,
}
use rust_minidump.Unwind.Contexts.{ContextX86, eip, esp, ebp}
use rust_minidump.Unwind.Frames.{
  StackFrame, Provider, from_context, has_register, or_else, scan_range, walked,
}
use rust_minidump.Unwind.Frames.Scan.{scan_from_sound}
use rust_minidump.Unwind.Frames.Progress.{IsSound, caller_by_sound, or_else-All, walked-Fits}
use rust_minidump.Unwind.X86.{
  x86_arch, callee_saved_regs, get_caller_by_cfi, get_caller_by_frame_pointer, get_caller_by_scan,
  instruction_seems_valid, scanned_frame, scan_found, guess_bp, last_bp_of, find_caller,
  get_caller_frame,
}

abbrev pub Fits : StackFrame ContextX86 → Type 0
Fits f = f.ctx esp < u32_mod

module _ (p : Provider ContextX86) where
  -- Every caller lies higher on the stack than its callee and has an instruction beyond the first
  -- page; the frame's own instruction is the byte before the return address.
  pub get_caller_frame_progress :
      (callee f : StackFrame ContextX86) (grand_callee : Option (StackFrame ContextX86))
      → get_caller_frame p callee grand_callee ≡ some f
      → (callee.ctx esp < f.ctx esp) × (4096 ≤ f.ctx eip) × (f.instruction + 1 ≡ f.ctx eip)
  unfolding get_caller_frame
  get_caller_frame_progress callee f grand_callee h =
      let (frame, found, (above, mapped, inside, same, trusted)) =
        caller_by_sound x86_arch (find_caller p) callee f grand_callee h in
      (
        elim above [ inl higher ↦ higher | inr (leaves, c, e) ↦ absurd (cc) ],
        mapped,
        omega (arith, inside, mapped),
      )

  frame_pointer-Fits :
      (callee : StackFrame ContextX86) {f : StackFrame ContextX86}
      → get_caller_by_frame_pointer p callee ≡ some f
      → Fits f
  unfolding get_caller_by_frame_pointer from_context
  frame_pointer-Fits callee h =
      let (tested, rest) =
        if-eq-some
          (has_register (text "ebp") callee.valid && ltb (callee.ctx ebp) (u32_mod - 1 - 8)) _ h in
      let (ip, ip_read, rest2) =
        >>=-eq-some (p.get_memory_at_address (callee.ctx ebp + 4)) _ rest in
      let (bp, bp_read, made) = >>=-eq-some (p.get_memory_at_address (callee.ctx ebp)) _ rest2 in
      subst Fits (some_inj made) (ground arith)

  -- The frame of a scan returns to the word that was found, and lies just above it.
  pub scan_found_lem :
      (last_bp : Option ℕ) (i address ip : ℕ) {f : StackFrame ContextX86}
      → scan_found p last_bp i address ip ≡ some f
      → (f.ctx esp ≡ address + 4) × (f.ctx eip ≡ ip) × (f.ctx esp < u32_mod)
  unfolding from_context
  scan_found_lem last_bp i address ip h =
      let (sp, added, rest) = >>=-eq-some (checked_add u32_mod address 4) _ h in
      let (bp, guessed, made) = >>=-eq-some (guess_bp p last_bp i address sp) _ rest in
      subst
        (λ (f : StackFrame ContextX86).
          (f.ctx esp ≡ address + 4) × (f.ctx eip ≡ ip) × (f.ctx esp < u32_mod))
        (some_inj made) (scanned sp bp (ground arith))
    where
      scanned :
          (sp : ℕ) (bp : Option ℕ)
          → (sp ≡ address + 4) × (sp < u32_mod)
          → ((scanned_frame p ip sp bp).ctx esp ≡ address + 4)
            × ((scanned_frame p ip sp bp).ctx eip ≡ ip)
            × ((scanned_frame p ip sp bp).ctx esp < u32_mod)
      scanned sp none h = (h.0, refl, h.1)
      scanned sp (some bp) h = (h.0, refl, h.1)

  scan-Fits :
      (callee : StackFrame ContextX86) {f : StackFrame ContextX86}
      → get_caller_by_scan p callee ≡ some f
      → Fits f
  unfolding get_caller_by_scan
  scan-Fits callee {f} h =
      let (i, ip, below, (made, read, valid, passed)) =
        scan_from_sound p.get_memory_at_address 4 u32_mod (instruction_seems_valid p)
          (scan_found p (last_bp_of p callee)) (callee.ctx esp) (scan_range callee.trust) 0 f
          (if-eq-some (has_register (text "esp") callee.valid) _ h).1 in
      (scan_found_lem (last_bp_of p callee) i (callee.ctx esp + i * 4) ip made).2

  module _ (sound : IsSound (λ (c : ContextX86). c esp) u32_mod p) where
    cfi-Fits :
        (callee : StackFrame ContextX86) (grand_callee : Option (StackFrame ContextX86))
        → {f : StackFrame ContextX86} → Fits callee
        → get_caller_by_cfi p callee grand_callee ≡ some f
        → Fits f
    unfolding get_caller_by_cfi from_context
    cfi-Fits callee grand_callee fits h =
        let (s, went, made) =
          >>=-eq-some (walked p callee_saved_regs callee grand_callee) _
            (if-eq-some (has_register (text "esp") callee.valid) _ h).1 in
        subst Fits (some_inj made) (
          walked-Fits (λ (c : ContextX86). c esp) u32_mod p sound callee_saved_regs callee
            grand_callee s went fits)

    pub get_caller_frame-Fits :
        (callee f : StackFrame ContextX86) (grand_callee : Option (StackFrame ContextX86))
        → Fits callee
        → get_caller_frame p callee grand_callee ≡ some f
        → Fits f
    unfolding get_caller_frame
    get_caller_frame-Fits callee f grand_callee fits h =
        let (frame, found, (above, mapped, inside, same, trusted)) =
          caller_by_sound x86_arch (find_caller p) callee f grand_callee h in
        subst (λ (c : ContextX86). c esp < u32_mod) (sym same)
          (or_else-All Fits (get_caller_by_cfi p callee grand_callee)
            (or_else (get_caller_by_frame_pointer p callee) (get_caller_by_scan p callee))
            (cfi-Fits callee grand_callee fits)
            (or_else-All Fits (get_caller_by_frame_pointer p callee) (get_caller_by_scan p callee)
              (frame_pointer-Fits callee) (scan-Fits callee))
            found)
