-- ===== src/Minidump/Slices.antt =====
-- minidump/src/minidump.rs: slices of the dump, with their bounds. `usize` has 64 bits.
use rust_minidump.Base.{
  ℕ, ◌+◌, ◌-◌, ◌*◌, ◌≤◌, ◌<◌, ◌≡◌, refl, Bool, true, false, Bool-cases, ◌&&◌, Option, none, some,
  Bytes, leb, ltb, if◌then◌else◌, length, take, drop, u64_mod, checked_add, some_inj, arith, inl,
  inr, >>=-eq-some, if-eq-some,
}
use rust_minidump.Base
use rust_minidump.Minidump.Errors.{
  stream_read_failure, stream_size_mismatch, Result, ok, err, ◌>>=◌, ok_or,
}

-- MINIDUMP_LOCATION_DESCRIPTOR
pub record Location : Type 0 where
  pub data_size : ℕ
  pub rva : ℕ

-- `bytes.get(start..end)`
abbrev pub get_range : Bytes → ℕ → ℕ → Option Bytes
get_range bytes start end =
    if leb start end && leb end (length bytes)
    then some (take (end - start) (drop start bytes))
    else none

unfoldable pub location_slice : Bytes → Location → Result Bytes
location_slice bytes loc =
    ok_or stream_read_failure
      (Base.◌>>=◌ (checked_add u64_mod loc.rva loc.data_size) (λ end. get_range bytes loc.rva end))

-- `usize::checked_mul`
abbrev pub checked_mul : ℕ → ℕ → ℕ → Option ℕ
checked_mul m a b = if ltb (a * b) m then some (a * b) else none

-- The number of entries, and the size that they need.
unfoldable pub ensure_count_in_bound : Bytes → ℕ → ℕ → ℕ → Result (ℕ × ℕ)
ensure_count_in_bound buf number_of_entries size_of_entry offset = do
  expected_size ← ok_or stream_read_failure (
      Base.◌>>=◌ (checked_mul u64_mod number_of_entries size_of_entry)
        (λ v. checked_add u64_mod v offset))
  if ltb (length buf) expected_size
      then err (stream_size_mismatch expected_size (length buf))
      else ok (number_of_entries, expected_size)

pub length-take-drop :
    {A : Type 0} (n k : ℕ) (xs : Base.List A) → k + n ≤ length xs → length (take n (drop k xs)) ≡ n
length-take-drop Base.zero k xs h = refl
length-take-drop (Base.suc n) Base.zero Base.[] h = absurd (omega arith)
length-take-drop (Base.suc n) Base.zero (Base.◌∷◌ x xs) h =
    omega (arith, length-take-drop n 0 xs (omega arith))
length-take-drop (Base.suc n) (Base.suc k) Base.[] h = absurd (omega arith)
length-take-drop (Base.suc n) (Base.suc k) (Base.◌∷◌ x xs) h =
    length-take-drop (Base.suc n) k xs (omega arith)
