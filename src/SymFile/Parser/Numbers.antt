-- ===== src/SymFile/Parser/Numbers.antt =====
-- breakpad-symbols/src/sym_file/parser.rs: the number parsers, which return the input that remains.
use rust_minidump.Base.{
  ℕ, zero, suc, ◌+◌, ◌-◌, ◌*◌, ◌<◌, ◌≤◌, ◌≡◌, ◌↔◌, refl, sym, subst, ap, ◌∙◌, true, ◌&&◌,
  Bool-cases, Option, none, some, [], ◌∷◌, ◌++◌, length, nat_eq, ltb, leb, if◌then◌else◌, Bytes,
  All, u32_mod, inl, inr, ◌⊎◌, arith,
}

-- `char::to_digit(10)`
abbrev pub to_digit : ℕ → Option ℕ
to_digit c = if leb b'0' c && leb c b'9' then some (c - b'0') else none

-- The loop over the first `n` bytes: the value, how many digits were read, and what remains.
unfoldable pub decimal_loop : ℕ → ℕ → Bytes → ℕ × ℕ × Bytes
decimal_loop zero res input = (res, 0, input)
decimal_loop (suc n) res [] = (res, 0, [])
decimal_loop (suc n) res (c ∷ cs) = elim (to_digit c) [
  | some d ↦ let rest = decimal_loop n (res * 10 + d) cs in (rest.0, suc rest.1, rest.2)
  | none ↦ (res, 0, c ∷ cs)
]

-- An error is `none`: there must be a digit, and `u32::try_from` must accept the value.
abbrev pub converted : ℕ × ℕ × Bytes → Option (Bytes × ℕ)
converted (res, k, remaining) =
    if nat_eq k 0 then none else if ltb res u32_mod then some (remaining, res) else none

-- At most 10 digits are read.
unfoldable pub decimal_u32 : Bytes → Option (Bytes × ℕ)
unfolding decimal_loop
decimal_u32 input = converted (decimal_loop 10 0 input)

abbrev pub IsDigit : ℕ → Type 0
IsDigit c = (b'0' ≤ c) × (c ≤ b'9')

-- The number that digits spell, after the number `acc`.
abbrev pub spelled : ℕ → Bytes → ℕ
spelled acc [] = acc
spelled acc (c ∷ cs) = spelled (acc * 10 + (c - b'0')) cs

-- No digit follows.
abbrev pub NoDigit : Bytes → Type 0
NoDigit [] = Unit
NoDigit (c ∷ cs) = IsDigit c → ⊥

decimal_loop_sound :
    (n res : ℕ) (input : Bytes)
    → (ds : Bytes) × All IsDigit ds
      × (input ≡ ds ++ (decimal_loop n res input).2)
      × ((decimal_loop n res input).1 ≡ length ds)
      × ((decimal_loop n res input).0 ≡ spelled res ds)
      × (length ds ≤ n)
      × ((length ds ≡ n) ⊎ NoDigit (decimal_loop n res input).2)
unfolding decimal_loop
decimal_loop_sound zero res input = ([], tt, refl, refl, refl, omega arith, inl refl)
decimal_loop_sound (suc n) res [] = ([], tt, refl, refl, refl, omega arith, inr tt)
decimal_loop_sound (suc n) res (c ∷ cs) = elim (Bool-cases (leb b'0' c && leb c b'9')) [
  | inl e ↦
      let (ds, digits, split, count, value, few, stops) =
        decimal_loop_sound n (res * 10 + (c - b'0')) cs in
      rw (e, decimal_loop)
        (
          c ∷ ds,
          (ground arith, digits),
          ap (◌∷◌ c) split,
          ap suc count,
          value,
          omega (arith, few),
          more n (length ds) stops,
        )
  | inr e ↦ rw (e, decimal_loop) ([], tt, refl, refl, refl, omega arith, inr (λ d. ground arith))
]
  where
    more : {X : Type 0} (n k : ℕ) → (k ≡ n) ⊎ X → (suc k ≡ suc n) ⊎ X
    more n k (inl e) = inl (omega arith)
    more n k (inr x) = inr x

decimal_loop_complete :
    (n res : ℕ) (ds rest : Bytes)
    → All IsDigit ds
    → length ds ≤ n
    → (length ds ≡ n) ⊎ NoDigit rest
    → decimal_loop n res (ds ++ rest) ≡ (spelled res ds, length ds, rest)
unfolding decimal_loop
decimal_loop_complete zero res [] rest digits few stops = refl
decimal_loop_complete zero res (d ∷ ds) rest digits few stops = absurd (omega arith)
decimal_loop_complete (suc n) res [] [] digits few stops = refl
decimal_loop_complete (suc n) res [] (c ∷ cs) digits few (inl e) = absurd (omega arith)
decimal_loop_complete (suc n) res [] (c ∷ cs) digits few (inr none_left) = ground arith
decimal_loop_complete (suc n) res (d ∷ ds) rest digits few stops =
    let e : leb b'0' d && leb d b'9' ≡ true = ground arith in
    rw (e, decimal_loop)
      (ap (λ (r : ℕ × ℕ × Bytes). (r.0, suc r.1, r.2))
        (decimal_loop_complete n (res * 10 + (d - b'0')) ds rest digits.1 (omega arith)
          (fewer stops)))
  where
    fewer : (suc (length ds) ≡ suc n) ⊎ NoDigit rest → (length ds ≡ n) ⊎ NoDigit rest
    fewer (inl h) = inl (omega arith)
    fewer (inr h) = inr h

accepted :
    (r : ℕ × ℕ × Bytes) (rest : Bytes) (v : ℕ)
    → converted r ≡ some (rest, v)
    → (0 < r.1) × (r.0 < u32_mod) × (r.2 ≡ rest) × (r.0 ≡ v)
accepted (n, k, left) rest v h = (ground arith, ground arith, ground arith, ground arith)

-- `decimal_u32` accepts an input exactly when it begins with one to ten digits, all that there are
-- or the first ten, that spell a 32-bit number; it returns the number and what comes after it.
pub decimal_u32_iff :
    (input rest : Bytes) (v : ℕ)
    → (decimal_u32 input ≡ some (rest, v)) ↔ (
        (ds : Bytes) × All IsDigit ds
        × (input ≡ ds ++ rest)
        × (0 < length ds)
        × (length ds ≤ 10)
        × ((length ds ≡ 10) ⊎ NoDigit rest)
        × (v ≡ spelled 0 ds)
        × (v < u32_mod))
unfolding decimal_u32
decimal_u32_iff input rest v = (
  λ h.
      let (ds, digits, split, count, value, few, stops) = decimal_loop_sound 10 0 input in
      let (some_digit, fits, left, same) = accepted (decimal_loop 10 0 input) rest v h in
      (
        ds,
        digits,
        split ∙ ap (λ (r : Bytes). ds ++ r) left,
        omega (arith, count, some_digit),
        few,
        subst (λ (r : Bytes). (length ds ≡ 10) ⊎ NoDigit r) left stops,
        sym same ∙ value,
        omega (arith, same, fits),
      ),
  λ (ds, digits, split, some_digit, few, stops, value, fits).
      rw (split, decimal_loop_complete 10 0 ds rest digits few stops) (ground arith),
)
