-- ===== src/Minidump/Memory/Layouts.antt =====
-- minidump-common/src/format.rs: the descriptors of memory regions, with the reading of their fields
-- one after the other that `derive(Pread)` generates.
use rust_minidump.Base.{
  ℕ, ◌+◌, ◌≤◌, ◌≡◌, ◌↔◌, refl, true, Option, some, Bytes, length, arith, ◌>>=◌,
}
use rust_minidump.Unwind.Contexts.{is_some}
use rust_minidump.Minidump.Scroll.{Endian, Scroll, Layout}
use rust_minidump.Minidump.Slices.{Location}

-- MINIDUMP_MEMORY_DESCRIPTOR
pub record MemoryDescriptor : Type 0 where
  pub start_of_memory_range : ℕ
  pub memory : Location

-- MINIDUMP_MEMORY_DESCRIPTOR64
pub record MemoryDescriptor64 : Type 0 where
  pub start_of_memory_range : ℕ
  pub data_size : ℕ

module _ (scroll : Scroll) where
  open scroll use {pread, pread_ok, pread_err}

  pub pread-eq-some :
      (width : ℕ) (e : Endian) (bytes : Bytes) (offset v : ℕ)
      → pread width e bytes offset ≡ some v
      → offset + width ≤ length bytes
  pread-eq-some width e bytes offset v h = ground (arith, pread_err width e bytes offset)

  abbrev parse_descriptor : Endian → Bytes → ℕ → Option MemoryDescriptor
  parse_descriptor e bytes o = do
    start ← pread 8 e bytes o
    data_size ← pread 4 e bytes (o + 8)
    rva ← pread 4 e bytes (o + 12)
    some (record {
      start_of_memory_range = start;
      memory = record { data_size = data_size; rva = rva };
    })

  abbrev parse_descriptor64 : Endian → Bytes → ℕ → Option MemoryDescriptor64
  parse_descriptor64 e bytes o = do
    start ← pread 8 e bytes o
    data_size ← pread 8 e bytes (o + 8)
    some (record { start_of_memory_range = start; data_size = data_size })

  pub parse_descriptor_iff :
      (e : Endian) (bytes : Bytes) (o : ℕ)
      → (is_some (parse_descriptor e bytes o) ≡ true) ↔ (o + 16 ≤ length bytes)
  parse_descriptor_iff e bytes o = (
    λ h. ground (arith, pread_err 4 e bytes (o + 12)),
    λ h.
        rw
          (
            pread_ok 8 e bytes o (omega arith),
            pread_ok 4 e bytes (o + 8) (omega arith),
            pread_ok 4 e bytes (o + 12) (omega arith),
          )
          refl,
  )

  pub parse_descriptor64_iff :
      (e : Endian) (bytes : Bytes) (o : ℕ)
      → (is_some (parse_descriptor64 e bytes o) ≡ true) ↔ (o + 16 ≤ length bytes)
  parse_descriptor64_iff e bytes o = (
    λ h. ground (arith, pread_err 8 e bytes (o + 8)),
    λ h. rw (pread_ok 8 e bytes o (omega arith), pread_ok 8 e bytes (o + 8) (omega arith)) refl,
  )

  abbrev pub memory_descriptor : Layout MemoryDescriptor
  memory_descriptor = record {
    size = 16;
    parse = parse_descriptor;
    parse_iff = parse_descriptor_iff;
  }

  abbrev pub memory_descriptor64 : Layout MemoryDescriptor64
  memory_descriptor64 = record {
    size = 16;
    parse = parse_descriptor64;
    parse_iff = parse_descriptor64_iff;
  }
