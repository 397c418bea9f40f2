-- ===== src/Unwind/X86/Scans.antt =====
-- What the stack scan of x86 finds.
use rust_minidump.Base.{
  ℕ, ◌+◌, ◌*◌, ◌<◌, ◌≤◌, ◌≡◌, sym, ap, ◌∙◌, true, some, text, u32_mod, if-eq-some, arith,
}
use rust_minidump.Unwind.Contexts.{ContextX86, eip, esp}
use rust_minidump.Unwind.Frames.{StackFrame, Provider, has_register, scan_range}
use rust_minidump.Unwind.Frames.Scan.{IsPassed, scan_from_sound}
use rust_minidump.Unwind.X86.{get_caller_by_scan, instruction_seems_valid, scan_found, last_bp_of}
use rust_minidump.Unwind.X86.Progress.{scan_found_lem}

module _ (p : Provider ContextX86) (last_sp : ℕ) where
  -- The frame returns to the word of the round `i`, which looks like a return address, as none of
  -- the words before it does.
  abbrev pub IsFirstWord : ℕ → StackFrame ContextX86 → Type 0
  IsFirstWord i f =
      (f.ctx esp ≡ last_sp + i * 4 + 4)
      × (p.get_memory_at_address (last_sp + i * 4) ≡ some (f.ctx eip))
      × (instruction_seems_valid p (f.ctx eip) ≡ true)
      × ((j : ℕ)
          → 0 ≤ j
          → j < i
          → IsPassed p.get_memory_at_address 4 (instruction_seems_valid p) last_sp j)

-- A scan finds the first word of the stack, within the range of the scan, that looks like a return
-- address: the caller's instruction is that word, and its stack pointer is just above it.
pub get_caller_by_scan_sound :
    (p : Provider ContextX86) (callee f : StackFrame ContextX86)
    → get_caller_by_scan p callee ≡ some f
    → (i : ℕ) × (i < scan_range callee.trust) × IsFirstWord p (callee.ctx esp) i f
unfolding get_caller_by_scan
get_caller_by_scan_sound p callee f h =
    let (i, ip, below, (made, read, valid, passed)) =
      scan_from_sound p.get_memory_at_address 4 u32_mod (instruction_seems_valid p)
        (scan_found p (last_bp_of p callee)) (callee.ctx esp) (scan_range callee.trust) 0 f
        (if-eq-some (has_register (text "esp") callee.valid) _ h).1 in
    let (sp_eq, ip_eq, fits) =
      scan_found_lem p (last_bp_of p callee) i (callee.ctx esp + i * 4) ip made in
    (
      i,
      omega (arith, below),
      (sp_eq, read ∙ ap some (sym ip_eq), ap (instruction_seems_valid p) ip_eq ∙ valid, passed),
    )
