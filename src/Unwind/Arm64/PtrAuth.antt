-- ===== src/Unwind/Arm64/PtrAuth.antt =====
-- What stripping a pointer of its authentication bits keeps.
use rust_minidump.Base.{
  ℕ, zero, suc, ◌+◌, ◌-◌, ◌*◌, ◌^◌, ◌<◌, ◌≤◌, ◌≡◌, refl, subst, ◌∙◌, Bool-cases, Option, none, some,
  leb, max, min, u64_mod, leb→le, inl, inr, ◌⊎◌, arith, trichotomy,
}
use native.Mathlib.Nat.{mod-eq_of_lt, add-mul-mod_self_left}
use rust_minidump.Unwind.Arm64.{max_module_addr, next_power_from, masked, ptr_auth_strip}

-- The least power of two from `2 ^ k` on that is not below the number, among `rounds` powers.
abbrev IsNextPower : ℕ → ℕ → ℕ → Option ℕ → Type 0
IsNextPower rounds k n none = (i : ℕ) → k ≤ i → i < k + rounds → 2 ^ i < n
IsNextPower rounds k n (some q) =
    (j : ℕ) × (q ≡ 2 ^ j) × (n ≤ 2 ^ j) × ((i : ℕ) → k ≤ i → i < j → 2 ^ i < n)

next_power_from-IsNextPower : (rounds k n : ℕ) → IsNextPower rounds k n (next_power_from rounds k n)
unfolding next_power_from
next_power_from-IsNextPower zero k n = λ i low high. absurd (omega arith)
next_power_from-IsNextPower (suc rounds) k n = elim (Bool-cases (leb n (2 ^ k))) [
  | inl e ↦ rw e (k, refl, leb→le n (2 ^ k) e, λ i low high. absurd (omega arith))
  | inr e ↦ rw e (
      go (next_power_from rounds (k + 1) n) (ground arith)
        (next_power_from-IsNextPower rounds (k + 1) n))
]
  where
    from : (i : ℕ) → 2 ^ k < n → k ≤ i → (k + 1 ≤ i → 2 ^ i < n) → 2 ^ i < n
    from i first low later = elim (trichotomy k i) [
      | inl lt ↦ later (omega arith)
      | inr (inl same) ↦ subst (λ (m : ℕ). 2 ^ m < n) same first
      | inr (inr gt) ↦ absurd (omega arith)
    ]

    go :
        (o : Option ℕ) → 2 ^ k < n → IsNextPower rounds (k + 1) n o → IsNextPower (suc rounds) k n o
    go none first h = λ i low high. from i first low (λ later. h i later (omega arith))
    go (some q) first (j, same, le, below) =
        (j, same, le, λ i low high. from i first low (λ later. below i later high))

-- The highest address that is taken for a real one: 2 ^ 47 - 1, or the end of the last module, given
-- by its base address and its size, where that is higher; at most 2 ^ 64 - 1.
abbrev pub highest_address : Option (ℕ × ℕ) → ℕ
highest_address none = 2 ^ 47 - 1
highest_address (some (base_address, size)) =
    max (2 ^ 47 - 1) (min (base_address + size) (u64_mod - 1))

-- `j` is the least exponent of which the power of two reaches the number.
abbrev pub IsHighBit : ℕ → ℕ → Type 0
IsHighBit n j = (n ≤ 2 ^ j) × ((i : ℕ) → i < j → 2 ^ i < n)

highest_address_lem :
    (last_module : Option (ℕ × ℕ))
    → max (2 ^ 47 - 1) (max_module_addr last_module) ≡ highest_address last_module
unfolding max_module_addr
highest_address_lem none = refl
highest_address_lem (some (base_address, size)) = refl

-- Stripping a pointer removes exactly the authentication bits. If 2 ^ j is the least power of two that
-- is not below the highest real address (2 ^ 47 - 1, or the end of the last module where that is
-- higher), an address below that one comes back from itself with any multiple of 2 ^ j added. If
-- there is no such power below 2 ^ 64, every pointer is left as it is.
pub ptr_auth_strip-add :
    (last_module : Option (ℕ × ℕ))
    → ((j : ℕ) × IsHighBit (highest_address last_module) j
        × ((address auth : ℕ)
            → address < highest_address last_module
            → ptr_auth_strip last_module (address + 2 ^ j * auth) ≡ address))
      ⊎ ((2 ^ 63 < highest_address last_module)
          × ((ptr : ℕ) → ptr_auth_strip last_module ptr ≡ ptr))
unfolding ptr_auth_strip
ptr_auth_strip-add last_module =
    let top = highest_address last_module in
    rw (highest_address_lem last_module)
      (go (next_power_from 64 0 top) (next_power_from-IsNextPower 64 0 top))
  where
    go :
        (power : Option ℕ)
        → IsNextPower 64 0 (highest_address last_module) power
        → ((j : ℕ) × IsHighBit (highest_address last_module) j
            × ((address auth : ℕ)
                → address < highest_address last_module
                → masked power (address + 2 ^ j * auth) ≡ address))
          ⊎ ((2 ^ 63 < highest_address last_module) × ((ptr : ℕ) → masked power ptr ≡ ptr))
    go none h = inr (h 63 (omega arith) (omega arith), λ ptr. refl)
    go (some q) (j, same, le, below) = inl (
      j,
      (le, λ i high. below i (omega arith) high),
      λ address auth low.
          rw same
            (add-mul-mod_self_left address (2 ^ j) auth ∙ mod-eq_of_lt (omega (arith, low, le))),
    )
