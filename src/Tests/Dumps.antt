-- ===== src/Tests/Dumps.antt =====
-- Small dumps and streams, little end first.
use rust_minidump.Base.{
  ℕ, ◌+◌, ◌*◌, ◌<◌, ◌≤◌, ◌≡◌, ◌↔◌, refl, Bool, Option, none, some, List, [], ◌∷◌, ◌++◌, Bytes, leb,
  if◌then◌else◌, length, take, drop, arith,
}
use rust_minidump.RangeMapSafe.{into_rangemap_safe_opt, rev_onto, push_valid, push_range}
use rust_minidump.RangeMapSafe.Sort.{sort_by_key}
use rust_minidump.Tests.Crates.{list_crate}
use rust_minidump.Minidump.Errors.{ok, err, stream_size_mismatch, stream_not_found}
use rust_minidump.Minidump.Scroll.{Endian, little, uint, Scroll}
use rust_minidump.Minidump.Lists.{read_stream_list}
use rust_minidump.Minidump.Lists.Reads.{IsListStream, StandAt, read_stream_list_iff}
use rust_minidump.Minidump.Header.{Minidump, Directory, read, get_raw_stream}
use rust_minidump.Minidump.Header.Streams.{IsDirectory, slice_of, last_of, get_raw_stream-read}
use rust_minidump.Minidump.Memory.{
  MinidumpMemoryBase, MinidumpMemoryListBase, read_memory_list, read_memory64_list,
  memory_at_address, get_memory_at_address,
}
use rust_minidump.Minidump.Memory.Layouts.{
  MemoryDescriptor, MemoryDescriptor64, memory_descriptor, memory_descriptor64,
}
use rust_minidump.Minidump.Memory.Lookup.{memory_at_address-read}
use rust_minidump.Minidump.Memory.Consecutive.{AreConsecutive, read_memory64_list_sound}

abbrev slice : Bytes → ℕ → ℕ → Option Bytes
slice bytes offset size =
    if leb (offset + size) (length bytes) then some (take size (drop offset bytes)) else none

pub slice_ok :
    (bytes : Bytes) (offset size : ℕ)
    → offset + size ≤ length bytes
    → slice bytes offset size ≡ some (take size (drop offset bytes))
slice_ok bytes offset size h = ground arith

pub slice_err :
    (bytes : Bytes) (offset size : ℕ)
    → length bytes < offset + size
    → slice bytes offset size ≡ none
slice_err bytes offset size h = ground arith

abbrev spelled : Endian → Option Bytes → Option ℕ
spelled e none = none
spelled e (some bs) = some (uint e bs)

abbrev pub list_scroll : Scroll
list_scroll = record {
  pread = λ width e bytes offset. spelled e (slice bytes offset width);
  pread_ok = λ width e bytes offset h. rw (slice_ok bytes offset width h) refl;
  pread_err = λ width e bytes offset h. rw (slice_err bytes offset width h) refl;
  pread_bytes = slice;
  pread_bytes_ok = λ bytes offset size some_size h. slice_ok bytes offset size h;
  pread_bytes_err = slice_err;
}

-- One region at 0x1000, whose 4 bytes stand at 4.
abbrev memory_stream : Bytes
memory_stream = 1 ∷ 0 ∷ 0 ∷ 0 ∷ 0 ∷ 16 ∷ 0 ∷ 0 ∷ 0 ∷ 0 ∷ 0 ∷ 0 ∷ 4 ∷ 0 ∷ 0 ∷ 0 ∷ 4 ∷ 0 ∷ 0 ∷ 0 ∷ []

abbrev memory_dump : Bytes
memory_dump = 0 ∷ 0 ∷ 0 ∷ 0 ∷ 10 ∷ 20 ∷ 30 ∷ 40 ∷ []

abbrev descriptor : MemoryDescriptor
descriptor = record { start_of_memory_range = 0x1000; memory = record { data_size = 4; rva = 4 } }

abbrev region : MinidumpMemoryBase MemoryDescriptor
region = record {
  desc = descriptor;
  base_address = 0x1000;
  size = 4;
  bytes = 10 ∷ 20 ∷ 30 ∷ 40 ∷ [];
  endian = little;
}

abbrev memory_list : MinidumpMemoryListBase list_crate MemoryDescriptor
memory_list = record {
  regions = region ∷ [];
  regions_by_addr = (record { start = 0x1000; end = 0x1003 }, 0) ∷ [];
}

descriptors_read :
    read_stream_list (memory_descriptor list_scroll) list_scroll little memory_stream
    ≡ ok (descriptor ∷ [])
unfolding read_stream_list
descriptors_read = refl

memory_list_read :
    read_memory_list list_scroll list_crate memory_stream memory_dump little ≡ ok (some memory_list)
unfolding read_memory_list into_rangemap_safe_opt rev_onto push_valid sort_by_key push_range
memory_list_read = refl

-- The 32 bytes of a header, a directory of two streams of one type, and the bytes of both.
abbrev dump : Bytes
dump =
    0x4d ∷ 0x44 ∷ 0x4d ∷ 0x50 ∷ 0x93 ∷ 0xa7 ∷ 0 ∷ 0 ∷ 2 ∷ 0 ∷ 0 ∷ 0 ∷ 32 ∷ 0 ∷ 0 ∷ 0 ∷ 0 ∷ 0 ∷ 0 ∷ 0
    ∷ 0 ∷ 0 ∷ 0 ∷ 0 ∷ 0 ∷ 0 ∷ 0 ∷ 0 ∷ 0 ∷ 0 ∷ 0 ∷ 0 ∷ 5 ∷ 0 ∷ 0 ∷ 0 ∷ 2 ∷ 0 ∷ 0 ∷ 0 ∷ 56 ∷ 0 ∷ 0 ∷ 0
    ∷ 5 ∷ 0 ∷ 0 ∷ 0 ∷ 1 ∷ 0 ∷ 0 ∷ 0 ∷ 58 ∷ 0 ∷ 0 ∷ 0 ∷ 7 ∷ 8 ∷ 9 ∷ []

abbrev entry : ℕ → ℕ → Directory
entry data_size rva = record {
  stream_type = 5;
  location = record { data_size = data_size; rva = rva };
}

abbrev no_system_info : Bytes → Bytes → Endian → Option Bool
no_system_info own all e = none

abbrev dump_read : Minidump Bool
dump_read = record {
  bytes = dump;
  header = record {
    signature = 0x504d444d;
    version = 42899;
    stream_count = 2;
    stream_directory_rva = 32;
    checksum = 0;
    time_date_stamp = 0;
    flags = 0;
  };
  streams = (5, (1, entry 1 58)) ∷ [];
  endian = little;
  system_info = none;
}

dump-read : read list_scroll no_system_info dump ≡ ok dump_read
unfolding read
dump-read = refl

last_stream : get_raw_stream list_scroll no_system_info dump_read 5 ≡ ok (9 ∷ [])
unfolding get_raw_stream
last_stream = refl

no_stream : get_raw_stream list_scroll no_system_info dump_read 3 ≡ err stream_not_found
unfolding get_raw_stream
no_stream = refl

-- A stream of one entry with three bytes more.
odd_stream :
    read_stream_list
      (memory_descriptor list_scroll)
      list_scroll
      little
      (memory_stream ++ (0 ∷ 0 ∷ 0 ∷ []))
    ≡ err (stream_size_mismatch 20 23)
unfolding read_stream_list
odd_stream = refl

-- Two regions, of 2 bytes and 1, from the place 5 in the file on.
abbrev memory64_stream : Bytes
memory64_stream =
    2 ∷ 0 ∷ 0 ∷ 0 ∷ 0 ∷ 0 ∷ 0 ∷ 0 ∷ 5 ∷ 0 ∷ 0 ∷ 0 ∷ 0 ∷ 0 ∷ 0 ∷ 0 ∷ 0 ∷ 16 ∷ 0 ∷ 0 ∷ 0 ∷ 0 ∷ 0 ∷ 0
    ∷ 2 ∷ 0 ∷ 0 ∷ 0 ∷ 0 ∷ 0 ∷ 0 ∷ 0 ∷ 0 ∷ 32 ∷ 0 ∷ 0 ∷ 0 ∷ 0 ∷ 0 ∷ 0 ∷ 1 ∷ 0 ∷ 0 ∷ 0 ∷ 0 ∷ 0 ∷ 0 ∷ 0
    ∷ []

abbrev region64 : ℕ → ℕ → Bytes → MinidumpMemoryBase MemoryDescriptor64
region64 base size bytes = record {
  desc = record { start_of_memory_range = base; data_size = size };
  base_address = base;
  size = size;
  bytes = bytes;
  endian = little;
}

abbrev memory64_list : MinidumpMemoryListBase list_crate MemoryDescriptor64
memory64_list = record {
  regions = region64 0x1000 2 (20 ∷ 30 ∷ []) ∷ region64 0x2000 1 (40 ∷ []) ∷ [];
  regions_by_addr =
      (record { start = 0x1000; end = 0x1001 }, 0)
      ∷ (record { start = 0x2000; end = 0x2000 }, 1)
      ∷ [];
}

memory64_list_read :
    read_memory64_list list_scroll list_crate memory64_stream memory_dump little
    ≡ ok (some memory64_list)
unfolding read_memory64_list into_rangemap_safe_opt rev_onto push_valid sort_by_key push_range
memory64_list_read = refl

read_stream_list_iff_example :
    (read_stream_list (memory_descriptor list_scroll) list_scroll little memory_stream
      ≡ ok (descriptor ∷ []))
    ↔ IsListStream
        (memory_descriptor list_scroll)
        list_scroll
        little
        memory_stream
        (descriptor ∷ [])
read_stream_list_iff_example =
    read_stream_list_iff (memory_descriptor list_scroll) list_scroll little memory_stream
      (descriptor ∷ []) (omega arith)

get_raw_stream-read_example :
    (ds : List Directory) × (length ds ≡ 2)
    × IsDirectory list_scroll little dump 32 ds
    × ((t : ℕ)
        → get_raw_stream list_scroll no_system_info dump_read t ≡ slice_of dump (last_of t none ds))
get_raw_stream-read_example =
    get_raw_stream-read list_scroll no_system_info dump dump_read dump-read

-- The two bytes at 0x1001 are 20 and 30.
memory_at_address-read_example :
    (region.base_address ≤ 0x1003)
    × (0x1003 < region.base_address + region.size)
    × (region.base_address ≡ region.desc.start_of_memory_range)
    × (region.size ≡ region.desc.memory.data_size)
    × (get_memory_at_address list_scroll 2 region 0x1001 ≡ some 7700)
memory_at_address-read_example =
    memory_at_address-read list_scroll list_crate memory_stream memory_dump little memory_list
      0x1003 region 2 0x1001 memory_list_read found (omega arith, omega arith)
  where
    found : memory_at_address list_crate memory_list 0x1003 ≡ some region
    found = unfold memory_at_address in refl

read_memory64_list_sound_example :
    (l : MinidumpMemoryListBase list_crate MemoryDescriptor64) × (some memory64_list ≡ some l)
    × ((raws : List MemoryDescriptor64) × (rva : ℕ) × (list_scroll.pread 8 little memory64_stream 0
          ≡ some (length raws))
        × (list_scroll.pread 8 little memory64_stream 8 ≡ some rva)
        × (48 ≡ length raws * 16 + 16)
        × StandAt (memory_descriptor64 list_scroll) little memory64_stream 16 raws
        × AreConsecutive memory_dump little rva raws l.regions)
read_memory64_list_sound_example =
    read_memory64_list_sound list_scroll list_crate memory64_stream memory_dump little
      (some memory64_list) memory64_list_read
