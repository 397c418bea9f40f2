-- ===== src/Unwind/Amd64/Progress.antt =====
-- Unwinding an amd64 stack makes progress: the stack pointer grows with every frame, within 64 bits.
use rust_minidump.Base.{
  ℕ, ◌+◌, ◌-◌, ◌<◌, ◌≤◌, ◌≡◌, refl, sym, subst, Bool, true, false, Bool-cases, Option, none, some,
  some_inj, text, ltb, ◌&&◌, u64_mod, checked_add, >>=-eq-some, if-eq-some, if_none-eq-some, leb,
  not, ◌||◌, ap, ◌*◌, inl, inr, arith,
}
use rust_minidump.Unwind.Contexts.{is_some}
use rust_minidump.Unwind.Contexts.Amd64.{ContextAmd64, rip, rsp, rbp}
use rust_minidump.Unwind.Frames.{
  StackFrame, Provider, from_context, has_register, or_else, scan_range, walked,
}
use rust_minidump.Unwind.Frames.Scan.{scan_from_sound}
use rust_minidump.Unwind.Frames.Progress.{IsSound, caller_by_sound, or_else-All, walked-Fits}
use rust_minidump.Unwind.Amd64.{
  amd64_arch, callee_saved_regs, get_caller_by_cfi, get_caller_by_frame_pointer, get_caller_by_scan,
  instruction_seems_valid, scanned_frame, scan_found, guess_bp, last_bp_of, find_caller,
  get_caller_frame, is_non_canonical, stack_seems_valid, frame_pointer_frame, has_frame_registers,
}

abbrev pub Fits : StackFrame ContextAmd64 → Type 0
Fits f = f.ctx rsp < u64_mod

module _ (is_windows : Bool) (p : Provider ContextAmd64) where
  -- Every caller lies higher on the stack than its callee and has an instruction beyond the first
  -- page; the frame's own instruction is the byte before the return address.
  pub get_caller_frame_progress :
      (callee f : StackFrame ContextAmd64) (grand_callee : Option (StackFrame ContextAmd64))
      → get_caller_frame is_windows p callee grand_callee ≡ some f
      → (callee.ctx rsp < f.ctx rsp) × (4096 ≤ f.ctx rip) × (f.instruction + 1 ≡ f.ctx rip)
  unfolding get_caller_frame
  get_caller_frame_progress callee f grand_callee h =
      let (frame, found, (above, mapped, inside, same, trusted)) =
        caller_by_sound amd64_arch (find_caller is_windows p) callee f grand_callee h in
      (
        elim above [ inl higher ↦ higher | inr (leaves, c, e) ↦ absurd (cc) ],
        mapped,
        omega (arith, inside, mapped),
      )

  in_stack :
      (sp last : ℕ)
      → not (stack_seems_valid is_windows p sp last) ≡ false
      → (last < sp) × (is_some (p.get_memory_at_address sp) ≡ true)
  unfolding stack_seems_valid
  in_stack sp last h = elim (Bool-cases (leb sp last)) [
    | inl e ↦ cc (rw e at h)
    | inr e ↦ (ground arith, kept (is_some (p.get_memory_at_address sp)) (rw e at h))
  ]
    where
      kept : (b : Bool) → not b ≡ false → b ≡ true
      kept true h = refl
      kept false h = cc

  read_some : {a : ℕ} (m : Option ℕ) → m ≡ some a → is_some m ≡ true
  read_some m h = ap is_some h

  -- `IsPlausible` is what the checks of a frame pointer ensure of the frame that it leads to.
  abbrev pub IsPlausible : ℕ → StackFrame ContextAmd64 → Type 0
  IsPlausible last_sp f =
      (last_sp < f.ctx rsp)
      × (f.ctx rsp ≤ f.ctx rbp)
      × (is_some (p.get_memory_at_address (f.ctx rsp)) ≡ true)
      × (is_some (p.get_memory_at_address (f.ctx rbp)) ≡ true)
      × (is_non_canonical (f.ctx rip) ≡ false)

  frame_pointer_frame_sound :
      (last_bp last_sp ip bp sp : ℕ) (f : StackFrame ContextAmd64)
      → frame_pointer_frame is_windows p last_bp last_sp ip bp sp ≡ some f
      → IsPlausible last_sp f × (f.ctx rsp ≡ sp)
  unfolding frame_pointer_frame from_context
  frame_pointer_frame_sound last_bp last_sp ip bp sp f h =
      let (ordered, rest) = if_none-eq-some (leb sp last_bp || ltb bp sp) _ h in
      let (unused, bp_read, rest2) = >>=-eq-some (p.get_memory_at_address bp) _ rest in
      let (canonical, rest3) = if_none-eq-some (is_non_canonical ip) _ rest2 in
      let (valid, made) =
        if_none-eq-some (not (stack_seems_valid is_windows p sp last_sp)) _ rest3 in
      let (higher, sp_read) = in_stack sp last_sp valid in
      let below : sp ≤ bp = ground arith in
      subst (λ (g : StackFrame ContextAmd64). IsPlausible last_sp g × (g.ctx rsp ≡ sp))
        (some_inj made) ((higher, below, sp_read, read_some _ bp_read, canonical), refl)

  -- A frame that the frame pointer leads to is a plausible one: the system is not Windows, the
  -- frame's stack pointer is two words above the callee's frame pointer, and above the callee's
  -- stack pointer; its frame pointer is not below that; both point into the stack; and its
  -- instruction is a canonical address.
  pub get_caller_by_frame_pointer_sound :
      (callee f : StackFrame ContextAmd64)
      → get_caller_by_frame_pointer is_windows p callee ≡ some f
      → (is_windows ≡ false)
        × (f.ctx rsp ≡ callee.ctx rbp + 16)
        × (f.ctx rsp < u64_mod)
        × IsPlausible (callee.ctx rsp) f
  unfolding get_caller_by_frame_pointer
  get_caller_by_frame_pointer_sound callee f h =
      let (tested, rest) =
        if-eq-some
          (not is_windows
            && (has_frame_registers is_windows p callee && ltb (callee.ctx rbp) (u64_mod - 1 - 16)))
          _ h in
      let (ip, ip_read, rest2) =
        >>=-eq-some (p.get_memory_at_address (callee.ctx rbp + 8)) _ rest in
      let (bp, bp_read, made) = >>=-eq-some (p.get_memory_at_address (callee.ctx rbp)) _ rest2 in
      let (plausible, placed) =
        frame_pointer_frame_sound (callee.ctx rbp) (callee.ctx rsp) ip bp (callee.ctx rbp + 16) f
          made in
      let (os, small) = guard is_windows (has_frame_registers is_windows p callee) _ tested in
      let below : callee.ctx rbp < u64_mod - 17 = ground arith in
      (os, placed, omega (arith, placed, below), plausible)
    where
      guard : (w h l : Bool) → not w && (h && l) ≡ true → (w ≡ false) × (l ≡ true)
      guard true h l e = cc
      guard false true l e = (refl, e)
      guard false false l e = cc

  frame_pointer-Fits :
      (callee : StackFrame ContextAmd64) {f : StackFrame ContextAmd64}
      → get_caller_by_frame_pointer is_windows p callee ≡ some f
      → Fits f
  frame_pointer-Fits callee {f} h = (get_caller_by_frame_pointer_sound callee f h).2

  -- The frame of a scan returns to the word that was found, and lies just above it.
  pub scan_found_lem :
      (last_bp : Option ℕ) (i address ip : ℕ) {f : StackFrame ContextAmd64}
      → scan_found is_windows p last_bp i address ip ≡ some f
      → (f.ctx rsp ≡ address + 8) × (f.ctx rip ≡ ip) × (f.ctx rsp < u64_mod)
  unfolding from_context
  scan_found_lem last_bp i address ip h =
      let (sp, added, rest) = >>=-eq-some (checked_add u64_mod address 8) _ h in
      let (bp, guessed, made) = >>=-eq-some (guess_bp is_windows p last_bp i address sp) _ rest in
      subst
        (λ (f : StackFrame ContextAmd64).
          (f.ctx rsp ≡ address + 8) × (f.ctx rip ≡ ip) × (f.ctx rsp < u64_mod))
        (some_inj made) (scanned sp bp (ground arith))
    where
      scanned :
          (sp : ℕ) (bp : Option ℕ)
          → (sp ≡ address + 8) × (sp < u64_mod)
          → ((scanned_frame is_windows p ip sp bp).ctx rsp ≡ address + 8)
            × ((scanned_frame is_windows p ip sp bp).ctx rip ≡ ip)
            × ((scanned_frame is_windows p ip sp bp).ctx rsp < u64_mod)
      scanned sp none h = (h.0, refl, h.1)
      scanned sp (some bp) h = (h.0, refl, h.1)

  scan-Fits :
      (callee : StackFrame ContextAmd64) {f : StackFrame ContextAmd64}
      → get_caller_by_scan is_windows p callee ≡ some f
      → Fits f
  unfolding get_caller_by_scan
  scan-Fits callee {f} h =
      let (i, ip, below, (made, read, valid, passed)) =
        scan_from_sound p.get_memory_at_address 8 u64_mod (instruction_seems_valid is_windows p)
          (scan_found is_windows p (last_bp_of is_windows p callee)) (callee.ctx rsp)
          (scan_range callee.trust) 0 f
          (if-eq-some (has_register (text "rsp") callee.valid) _ h).1 in
      (scan_found_lem (last_bp_of is_windows p callee) i (callee.ctx rsp + i * 8) ip made).2

  module _ (sound : IsSound (λ (c : ContextAmd64). c rsp) u64_mod p) where
    cfi-Fits :
        (callee : StackFrame ContextAmd64) (grand_callee : Option (StackFrame ContextAmd64))
        → {f : StackFrame ContextAmd64} → Fits callee
        → get_caller_by_cfi is_windows p callee grand_callee ≡ some f
        → Fits f
    unfolding get_caller_by_cfi from_context
    cfi-Fits callee grand_callee fits h =
        let (s, went, made) =
          >>=-eq-some (walked p callee_saved_regs callee grand_callee) _
            (if-eq-some (has_register (text "rsp") callee.valid) _ h).1 in
        subst Fits (some_inj made) (
          walked-Fits (λ (c : ContextAmd64). c rsp) u64_mod p sound callee_saved_regs callee
            grand_callee s went fits)

    pub get_caller_frame-Fits :
        (callee f : StackFrame ContextAmd64) (grand_callee : Option (StackFrame ContextAmd64))
        → Fits callee
        → get_caller_frame is_windows p callee grand_callee ≡ some f
        → Fits f
    unfolding get_caller_frame
    get_caller_frame-Fits callee f grand_callee fits h =
        let (frame, found, (above, mapped, inside, same, trusted)) =
          caller_by_sound amd64_arch (find_caller is_windows p) callee f grand_callee h in
        subst (λ (c : ContextAmd64). c rsp < u64_mod) (sym same)
          (or_else-All Fits (get_caller_by_cfi is_windows p callee grand_callee)
            (or_else (get_caller_by_frame_pointer is_windows p callee)
              (get_caller_by_scan is_windows p callee))
            (cfi-Fits callee grand_callee fits)
            (or_else-All Fits (get_caller_by_frame_pointer is_windows p callee)
              (get_caller_by_scan is_windows p callee) (frame_pointer-Fits callee)
              (scan-Fits callee))
            found)
