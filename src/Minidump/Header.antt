-- ===== src/Minidump/Header.antt =====
-- minidump/src/minidump.rs: Minidump::read and get_raw_stream, with the structures of
-- minidump-common/src/format.rs that they read.
pub mod Streams
use rust_minidump.Base.{
  ℕ, zero, suc, ◌+◌, ◌*◌, ◌/◌, ◌%◌, ◌^◌, Bool, true, false, not, Option, none, some, List, [], ◌∷◌,
  Bytes, HashMap, ℕ-PartialEq, insert, get, nat_eq, if◌then◌else◌,
}
use rust_minidump.Base
use rust_minidump.Minidump.Errors.{
  missing_header, header_mismatch, version_mismatch, missing_directory, stream_not_found, Result,
  ok, err, ◌>>=◌, ok_or, to_option,
}
use rust_minidump.Minidump.Scroll.{Endian, little, big, Scroll}
use rust_minidump.Minidump.Slices.{Location, location_slice}

pub record MinidumpHeader : Type 0 where
  pub signature : ℕ
  pub version : ℕ
  pub stream_count : ℕ
  pub stream_directory_rva : ℕ
  pub checksum : ℕ
  pub time_date_stamp : ℕ
  pub flags : ℕ

pub record Directory : Type 0 where
  pub stream_type : ℕ
  pub location : Location

abbrev pub minidump_signature : ℕ
minidump_signature = 0x504d444d

abbrev pub minidump_version : ℕ
minidump_version = 42899

-- `u32::swap_bytes`
abbrev pub swap_bytes : ℕ → ℕ
swap_bytes n =
    n % 256 * 2 ^ 24 + n / 2 ^ 8 % 256 * 2 ^ 16 + n / 2 ^ 16 % 256 * 2 ^ 8 + n / 2 ^ 24 % 256

-- The system info is read by another component, from its stream and the whole dump.
pub record Minidump (S : Type 0) : Type 0 where
  pub bytes : Bytes
  pub header : MinidumpHeader
  pub streams : HashMap ℕ (ℕ × Directory)
  pub endian : Endian
  pub system_info : Option S

abbrev pub system_info_stream : ℕ
system_info_stream = 7

module _ (scroll : Scroll) where
  open scroll use {pread}

  unfoldable pub pread_header : Endian → Bytes → Option MinidumpHeader
  pread_header e bytes = Base.◌>>=◌ (pread 4 e bytes 0) (λ signature.
      Base.◌>>=◌ (pread 4 e bytes 4) (λ version. Base.◌>>=◌ (pread 4 e bytes 8) (λ stream_count.
        Base.◌>>=◌ (pread 4 e bytes 12) (λ stream_directory_rva.
          Base.◌>>=◌ (pread 4 e bytes 16) (λ checksum.
            Base.◌>>=◌ (pread 4 e bytes 20) (λ time_date_stamp.
              Base.◌>>=◌ (pread 8 e bytes 24) (λ flags. some (record {
                signature = signature;
                version = version;
                stream_count = stream_count;
                stream_directory_rva = stream_directory_rva;
                checksum = checksum;
                time_date_stamp = time_date_stamp;
                flags = flags;
              }))))))))

  unfoldable pub pread_directory : Endian → Bytes → ℕ → Option Directory
  pread_directory e bytes offset = Base.◌>>=◌ (pread 4 e bytes offset) (λ stream_type.
      Base.◌>>=◌ (pread 4 e bytes (offset + 4)) (λ data_size.
        Base.◌>>=◌ (pread 4 e bytes (offset + 8)) (λ rva. some (record {
          stream_type = stream_type;
          location = record { data_size = data_size; rva = rva };
        }))))

  -- A header with the signature of a dump: the bytes are read again from the other end where the
  -- signature is swapped.
  unfoldable pub read_header : Bytes → Result (MinidumpHeader × Endian)
  unfolding pread_header
  read_header bytes = do
    header ← ok_or missing_header (pread_header little bytes)
    if nat_eq header.signature minidump_signature
        then ok (header, little)
        else if nat_eq (swap_bytes header.signature) minidump_signature
        then (do
          header' ← ok_or missing_header (pread_header big bytes)
          if nat_eq header'.signature minidump_signature
              then ok (header', big)
              else err header_mismatch)
        else err header_mismatch

  -- The loop over the directory: a later stream of the same type takes the place of an earlier one.
  unfoldable pub read_directory :
      Endian → Bytes → ℕ → ℕ → ℕ → HashMap ℕ (ℕ × Directory) → Option (HashMap ℕ (ℕ × Directory))
  unfolding insert pread_directory
  read_directory e bytes zero i offset streams = some streams
  read_directory e bytes (suc n) i offset streams =
      Base.◌>>=◌ (pread_directory e bytes offset) (λ dir.
        read_directory e bytes n (i + 1) (offset + 12) (insert streams dir.stream_type (i, dir)))

module _ {S : Type 0} (scroll : Scroll) (read_system_info : Bytes → Bytes → Endian → Option S) where
  abbrev pub system_info_of : Bytes → Endian → Option (ℕ × Directory) → Option S
  system_info_of bytes e none = none
  system_info_of bytes e (some (i, dir)) =
      Base.◌>>=◌ (to_option (location_slice bytes dir.location))
        (λ own. read_system_info own bytes e)

  unfoldable pub read : Bytes → Result (Minidump S)
  unfolding read_header read_directory get location_slice
  read bytes = do
    found ← read_header scroll bytes
    if not (nat_eq (found.0.version % 2 ^ 16) minidump_version) then err version_mismatch else (do
      streams ← ok_or missing_directory (
          read_directory scroll found.1 bytes found.0.stream_count 0 found.0.stream_directory_rva
            [])
      ok (record {
        bytes = bytes;
        header = found.0;
        streams = streams;
        endian = found.1;
        system_info = system_info_of bytes found.1 (get streams system_info_stream);
      }))

  abbrev pub raw_stream_at : Bytes → Option (ℕ × Directory) → Result Bytes
  raw_stream_at bytes none = err stream_not_found
  raw_stream_at bytes (some (i, dir)) = location_slice bytes dir.location

  unfoldable pub get_raw_stream : Minidump S → ℕ → Result Bytes
  unfolding get location_slice
  get_raw_stream m stream_type = raw_stream_at m.bytes (get m.streams stream_type)
