-- ===== src/Unwind/Amd64/Scans.antt =====
-- What the stack scan of amd64 finds.
use rust_minidump.Base.{
  ℕ, ◌+◌, ◌*◌, ◌<◌, ◌≤◌, ◌≡◌, refl, nat_eq, ◌||◌, sym, ap, ◌∙◌, Bool, true, false, some, text,
  if◌then◌else◌, u64_mod, if-eq-some, arith,
}
use rust_minidump.Unwind.Contexts.Amd64.{ContextAmd64, rip, rsp}
use rust_minidump.Unwind.Frames.{
  StackFrame, Provider, has_register, scan_range, instruction_seems_valid_by_symbols,
}
use rust_minidump.Unwind.Frames.Scan.{IsPassed, scan_from_sound}
use rust_minidump.Unwind.Amd64.{
  get_caller_by_scan, is_non_canonical, instruction_seems_valid, scan_found, last_bp_of,
}
use rust_minidump.Unwind.Amd64.Progress.{scan_found_lem}

module _ (is_windows : Bool) (p : Provider ContextAmd64) (last_sp : ℕ) where
  -- The frame returns to the word of the round `i`, which looks like a return address, as none of
  -- the words before it does.
  abbrev pub IsFirstWord : ℕ → StackFrame ContextAmd64 → Type 0
  IsFirstWord i f =
      (f.ctx rsp ≡ last_sp + i * 8 + 8)
      × (p.get_memory_at_address (last_sp + i * 8) ≡ some (f.ctx rip))
      × (instruction_seems_valid is_windows p (f.ctx rip) ≡ true)
      × ((j : ℕ)
          → 0 ≤ j
          → j < i
          → IsPassed p.get_memory_at_address 8 (instruction_seems_valid is_windows p) last_sp j)

valid_canonical :
    (is_windows : Bool) (p : Provider ContextAmd64) (ip : ℕ)
    → instruction_seems_valid is_windows p ip ≡ true
    → (is_non_canonical ip ≡ false) × (0 < ip)
unfolding instruction_seems_valid
valid_canonical is_windows p ip h =
    go (is_non_canonical ip) (instruction_seems_valid_by_symbols p ip) h
  where
    go : (b c : Bool) → (if b || nat_eq ip 0 then false else c) ≡ true → (b ≡ false) × (0 < ip)
    go true c e = cc
    go false c e = (refl, ground arith)

-- A scan finds the first word of the stack, within the range of the scan, that looks like a return
-- address: the caller's instruction is that
-- word, a canonical address other than 0, and its stack pointer is just above it.
pub amd64_get_caller_by_scan_sound :
    (is_windows : Bool) (p : Provider ContextAmd64) (callee f : StackFrame ContextAmd64)
    → get_caller_by_scan is_windows p callee ≡ some f
    → (i : ℕ) × (i < scan_range callee.trust)
      × IsFirstWord is_windows p (callee.ctx rsp) i f
      × (is_non_canonical (f.ctx rip) ≡ false)
      × (0 < f.ctx rip)
unfolding get_caller_by_scan
amd64_get_caller_by_scan_sound is_windows p callee f h =
    let (i, ip, below, (made, read, valid, passed)) =
      scan_from_sound p.get_memory_at_address 8 u64_mod (instruction_seems_valid is_windows p)
        (scan_found is_windows p (last_bp_of is_windows p callee)) (callee.ctx rsp)
        (scan_range callee.trust) 0 f (if-eq-some (has_register (text "rsp") callee.valid) _ h).1 in
    let (sp_eq, ip_eq, fits) =
      scan_found_lem is_windows p (last_bp_of is_windows p callee) i (callee.ctx rsp + i * 8) ip
        made in
    let canonical =
      valid_canonical is_windows p (f.ctx rip)
        (ap (instruction_seems_valid is_windows p) ip_eq ∙ valid) in
    (
      i,
      omega (arith, below),
      (
        sp_eq,
        read ∙ ap some (sym ip_eq),
        ap (instruction_seems_valid is_windows p) ip_eq ∙ valid,
        passed,
      ),
      canonical.0,
      canonical.1,
    )
