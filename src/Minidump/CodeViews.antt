-- ===== src/Minidump/CodeViews.antt =====
-- minidump/src/minidump.rs: read_codeview and read_debug_id, with the structures of
-- minidump-common/src/format.rs that they read. The crates uuid and debugid are parameters.
use rust_minidump.Base.{
  ℕ, zero, suc, ◌+◌, ◌-◌, Bool, true, ◌&&◌, Option, none, some, [], ◌∷◌, ◌++◌, Bytes, nat_eq, ltb,
  if◌then◌else◌, length, take, ◌>>=◌,
}
use rust_minidump.Minidump.Errors.{to_option}
use rust_minidump.Minidump.Scroll.{Endian, Scroll}
use rust_minidump.Minidump.Slices.{Location, location_slice}

pub record Guid : Type 0 where
  pub data1 : ℕ
  pub data2 : ℕ
  pub data3 : ℕ
  pub data4 : Bytes

-- CV_INFO_PDB20
pub record CvInfoPdb20 : Type 0 where
  pub cv_signature : ℕ
  pub cv_offset : ℕ
  pub signature : ℕ
  pub age : ℕ
  pub pdb_file_name : Bytes

-- CV_INFO_PDB70
pub record CvInfoPdb70 : Type 0 where
  pub cv_signature : ℕ
  pub signature : Guid
  pub age : ℕ
  pub pdb_file_name : Bytes

-- CV_INFO_ELF
pub record CvInfoElf : Type 0 where
  pub cv_signature : ℕ
  pub build_id : Bytes

pub data CodeView : Type 0 where
  pdb20 : CvInfoPdb20 → CodeView
  pdb70 : CvInfoPdb70 → CodeView
  elf : CvInfoElf → CodeView
  unknown : Bytes → CodeView

-- `debugid::DebugId` and the test `Uuid::is_nil`
pub record DebugCrate : Type 1 where
  pub DebugId : Type 0
  pub is_nil : Guid → Bool
  pub from_parts : Guid → ℕ → DebugId
  pub from_pdb20 : ℕ → ℕ → DebugId
  pub from_uuid : Guid → DebugId

abbrev pub pdb20_signature : ℕ
pdb20_signature = 0x3031424e

abbrev pub pdb70_signature : ℕ
pdb70_signature = 0x53445352

abbrev pub elf_signature : ℕ
elf_signature = 0x4270454c

-- `all(|byte| *byte == 0)`
abbrev pub all_zero : Bytes → Bool
all_zero [] = true
all_zero (b ∷ bs) = nat_eq b 0 && all_zero bs

abbrev pub zeros : ℕ → Bytes
zeros zero = []
zeros (suc n) = 0 ∷ zeros n

-- The build id with zeros behind it, as long as a GUID.
abbrev pub padded : Bytes → Bytes
padded bs = if ltb (length bs) 16 then take 16 (bs ++ zeros 16) else bs

module _ (scroll : Scroll) where
  open scroll use {pread, pread_bytes}

  -- All the bytes from `offset` on.
  abbrev pub tail : Bytes → ℕ → Option Bytes
  tail bytes offset = pread_bytes bytes offset (length bytes - offset)

  unfoldable pub read_guid : Endian → Bytes → ℕ → Option Guid
  read_guid e bytes o = do
    data1 ← pread 4 e bytes o
    data2 ← pread 2 e bytes (o + 4)
    data3 ← pread 2 e bytes (o + 6)
    data4 ← pread_bytes bytes (o + 8) 8
    some (record { data1 = data1; data2 = data2; data3 = data3; data4 = data4 })

  unfoldable pub read_pdb20 : Endian → Bytes → Option CvInfoPdb20
  read_pdb20 e bytes = do
    cv_signature ← pread 4 e bytes 0
    cv_offset ← pread 4 e bytes 4
    signature ← pread 4 e bytes 8
    age ← pread 4 e bytes 12
    pdb_file_name ← tail bytes 16
    some (record {
      cv_signature = cv_signature;
      cv_offset = cv_offset;
      signature = signature;
      age = age;
      pdb_file_name = pdb_file_name;
    })

  unfoldable pub read_pdb70 : Endian → Bytes → Option CvInfoPdb70
  unfolding read_guid
  read_pdb70 e bytes = do
    cv_signature ← pread 4 e bytes 0
    signature ← read_guid e bytes 4
    age ← pread 4 e bytes 20
    pdb_file_name ← tail bytes 24
    some (record {
      cv_signature = cv_signature;
      signature = signature;
      age = age;
      pdb_file_name = pdb_file_name;
    })

  unfoldable pub read_elf : Endian → Bytes → Option CvInfoElf
  read_elf e bytes = do
    cv_signature ← pread 4 e bytes 0
    build_id ← tail bytes 4
    some (record { cv_signature = cv_signature; build_id = build_id })

  abbrev pub map_some : {A B : Type 0} → (A → B) → Option A → Option B
  map_some f none = none
  map_some f (some a) = some (f a)

  unfoldable pub read_codeview : Location → Bytes → Endian → Option CodeView
  unfolding location_slice read_pdb20 read_pdb70 read_elf
  read_codeview location all e = do
    bytes ← to_option (location_slice all location)
    signature ← pread 4 e bytes 0
    if nat_eq signature pdb70_signature
        then map_some pdb70 (read_pdb70 e bytes)
        else if nat_eq signature pdb20_signature
        then map_some pdb20 (read_pdb20 e bytes)
        else if nat_eq signature elf_signature
        then map_some elf (read_elf e bytes)
        else some (unknown bytes)

  module _ (d : DebugCrate) where
    unfoldable pub read_debug_id : CodeView → Endian → Option d.DebugId
    unfolding read_guid
    read_debug_id (pdb70 raw) e =
        if d.is_nil raw.signature then none else some (d.from_parts raw.signature raw.age)
    read_debug_id (pdb20 raw) e = some (d.from_pdb20 raw.signature raw.age)
    read_debug_id (elf raw) e =
        if all_zero raw.build_id
        then none
        else map_some d.from_uuid (read_guid e (padded raw.build_id) 0)
    read_debug_id (unknown bytes) e = none
