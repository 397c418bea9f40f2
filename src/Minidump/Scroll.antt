-- ===== src/Minidump/Scroll.antt =====
-- The crate scroll, as a parameter: reading integers and structures at an offset, with the behaviour
-- that its documentation states: a read succeeds if the bytes are there.
use rust_minidump.Base.{
  ℕ, ◌+◌, ◌*◌, ◌≤◌, ◌<◌, ◌≡◌, ◌↔◌, true, Option, none, some, [], ◌∷◌, Bytes, length, take, drop,
}
use rust_minidump.Unwind.Contexts.{is_some}

pub data Endian : Type 0 where
  little big : Endian

-- The number that bytes spell, the least significant one first.
abbrev pub uint_le : Bytes → ℕ
uint_le [] = 0
uint_le (b ∷ bs) = b + 256 * uint_le bs

-- The most significant one first, after the number `acc`.
abbrev pub uint_be : ℕ → Bytes → ℕ
uint_be acc [] = acc
uint_be acc (b ∷ bs) = uint_be (acc * 256 + b) bs

abbrev pub uint : Endian → Bytes → ℕ
uint little bs = uint_le bs
uint big bs = uint_be 0 bs

pub record Scroll : Type 0 where
  -- `bytes.pread_with::<T>(offset, endian).ok()` for an unsigned integer of `width` bytes
  pub pread : ℕ → Endian → Bytes → ℕ → Option ℕ
  pub pread_ok :
      (width : ℕ) (e : Endian) (bytes : Bytes) (offset : ℕ)
      → offset + width ≤ length bytes
      → pread width e bytes offset ≡ some (uint e (take width (drop offset bytes)))
  pub pread_err :
      (width : ℕ) (e : Endian) (bytes : Bytes) (offset : ℕ)
      → length bytes < offset + width
      → pread width e bytes offset ≡ none
  -- `bytes.pread_with::<&[u8]>(offset, size).ok()`; what it does for a size of 0 is left open
  pub pread_bytes : Bytes → ℕ → ℕ → Option Bytes
  pub pread_bytes_ok :
      (bytes : Bytes) (offset size : ℕ)
      → 0 < size
      → offset + size ≤ length bytes
      → pread_bytes bytes offset size ≡ some (take size (drop offset bytes))
  pub pread_bytes_err :
      (bytes : Bytes) (offset size : ℕ)
      → length bytes < offset + size
      → pread_bytes bytes offset size ≡ none

-- A structure with the traits TryFromCtx and SizeWith.
pub record Layout (T : Type 0) : Type 0 where
  pub size : ℕ
  pub parse : Endian → Bytes → ℕ → Option T
  pub parse_iff :
      (e : Endian) (bytes : Bytes) (offset : ℕ)
      → (is_some (parse e bytes offset) ≡ true) ↔ (offset + size ≤ length bytes)
