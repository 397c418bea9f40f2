-- ===== src/Unwind/Frames/Scan.antt =====
-- The loop of the stack scans, which is the same in every unwinder, and what it finds.
use rust_minidump.Base.{
  ℕ, zero, suc, ◌+◌, ◌*◌, ◌<◌, ◌≤◌, ◌≡◌, refl, sym, subst, ap, ◌∙◌, Bool, true, false, Option, none,
  some, if◌then◌else◌, checked_add, ◌>>=◌, >>=-eq-some, inl, inr, trichotomy, arith,
}

-- The word of the round can be read, and does not look like a return address.
abbrev pub IsPassed : (ℕ → Option ℕ) → ℕ → (ℕ → Bool) → ℕ → ℕ → Type 0
IsPassed get_memory_at_address width seems_valid last_sp j =
    (ip : ℕ) × (get_memory_at_address (last_sp + j * width) ≡ some ip) × (seems_valid ip ≡ false)

-- The stack memory, the width of a word and the modulus of an address, which words look like return
-- addresses, and what is done with the first of them, in the round `i`.
module _ {A : Type 0} (get_memory_at_address : ℕ → Option ℕ) (width modulus : ℕ)
    (seems_valid : ℕ → Bool) (found : ℕ → ℕ → ℕ → Option A) (last_sp : ℕ) where
  -- The rounds that are left, from the round `i`.
  unfoldable pub scan_from : ℕ → ℕ → Option A
  scan_from zero i = none
  scan_from (suc n) i =
      let rest = scan_from n (i + 1) in
      checked_add modulus last_sp (i * width) >>= λ address_of_ip.
      get_memory_at_address address_of_ip >>= λ caller_ip.
      if seems_valid caller_ip then found i address_of_ip caller_ip else rest

  -- The word of the round `i` looks like a return address, as none of the words from the round
  -- `first` on does, and the result is what is made of it.
  abbrev pub IsFirst : ℕ → ℕ → ℕ → A → Type 0
  IsFirst first i ip r =
      (found i (last_sp + i * width) ip ≡ some r)
      × (get_memory_at_address (last_sp + i * width) ≡ some ip)
      × (seems_valid ip ≡ true)
      × ((j : ℕ) → first ≤ j → j < i → IsPassed get_memory_at_address width seems_valid last_sp j)

  address_of :
      (t address : ℕ) → checked_add modulus last_sp t ≡ some address → address ≡ last_sp + t
  address_of t address h = ground arith

  pub scan_from_sound :
      (n first : ℕ) (r : A)
      → scan_from n first ≡ some r
      → (i ip : ℕ) × (i < first + n) × IsFirst first i ip r
  unfolding scan_from
  scan_from_sound zero first r h = cc
  scan_from_sound (suc n) first r h =
      let (address, added, rest) = >>=-eq-some (checked_add modulus last_sp (first * width)) _ h in
      let (ip, read, rest2) = >>=-eq-some (get_memory_at_address address) _ rest in
      let place : address ≡ last_sp + first * width = address_of (first * width) address added in
      go (seems_valid ip) address ip refl place (ap get_memory_at_address (sym place) ∙ read)
        (scan_from_sound n (first + 1) r) rest2
    where
      go :
          (b : Bool) (address ip : ℕ)
          → seems_valid ip ≡ b
          → address ≡ last_sp + first * width
          → get_memory_at_address (last_sp + first * width) ≡ some ip
          → (scan_from n (first + 1) ≡ some r
              → (i ip : ℕ) × (i < first + 1 + n) × IsFirst (first + 1) i ip r)
          → (if b then found first address ip else scan_from n (first + 1)) ≡ some r
          → (i ip : ℕ) × (i < first + suc n) × IsFirst first i ip r
      go true address ip seen place read ih e = (
        first,
        ip,
        omega arith,
        (
          ap (λ a. found first a ip) (sym place) ∙ e,
          read,
          seen,
          λ j low high. absurd (omega arith),
        ),
      )
      go false address ip seen place read ih e =
          let (i, ip', below, (made, ip_read, valid, passed)) = ih e in
          (
            i,
            ip',
            omega arith,
            (
              made,
              ip_read,
              valid,
              λ j low high. elim (trichotomy first j) [
                | inl lt ↦ passed j (omega arith) high
                | inr (inl same) ↦
                    subst (IsPassed get_memory_at_address width seems_valid last_sp) same
                      (ip, read, seen)
                | inr (inr gt) ↦ absurd (omega arith)
              ],
            ),
          )
