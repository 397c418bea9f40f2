-- ===== src/Minidump/Memory.antt =====
-- minidump/src/minidump.rs: MinidumpMemoryBase, MinidumpMemoryListBase and the two memory list
-- streams. `ok none` stands for a panic of `into_rangemap_safe`.
pub mod Layouts
pub mod Reads
pub mod Lookup
pub mod Consecutive
use rust_minidump.Base.{
  ℕ, zero, suc, ◌+◌, ◌-◌, ◌≡◌, Bool, true, false, not, ◌||◌, Option, none, some, List, [], ◌∷◌,
  Bytes, nat_eq, leb, if◌then◌else◌, length, get_elem?, u64_mod, checked_add,
}
use rust_minidump.Base
use rust_minidump.Ranges.{Range, RangeCrate}
use rust_minidump.SymFile.Types.{range_of_size}
use rust_minidump.Minidump.Errors.{
  Error, memory_read_failure, stream_read_failure, stream_size_mismatch, Result, ok, err, ◌>>=◌,
  ok_or, to_option,
}
use rust_minidump.Minidump.Scroll.{Endian, Scroll}
use rust_minidump.Minidump.Slices.{Location, location_slice, get_range, ensure_count_in_bound}
use rust_minidump.Minidump.Lists.{read_entries, read_stream_list}
use rust_minidump.Minidump.Indexed.{index_by_addr}
use Layouts.{MemoryDescriptor, MemoryDescriptor64, memory_descriptor, memory_descriptor64}

pub record MinidumpMemoryBase (D : Type 0) : Type 0 where
  pub desc : D
  pub base_address : ℕ
  pub size : ℕ
  pub bytes : Bytes
  pub endian : Endian

-- MinidumpMemory::read
unfoldable pub read_memory :
    MemoryDescriptor → Bytes → Endian → Result (MinidumpMemoryBase MemoryDescriptor)
unfolding location_slice
read_memory desc all e =
    if nat_eq desc.memory.rva 0 || nat_eq desc.memory.data_size 0
    then err memory_read_failure
    else (do
      bytes ← ok_or stream_read_failure (to_option (location_slice all desc.memory))
      ok (record {
        desc = desc;
        base_address = desc.start_of_memory_range;
        size = desc.memory.data_size;
        bytes = bytes;
        endian = e;
      }))

abbrev pub checked_sub : ℕ → ℕ → Option ℕ
checked_sub a b = if leb b a then some (a - b) else none

module _ {D : Type 0} where
  -- For an unsigned integer of `width` bytes.
  unfoldable pub get_memory_at_address : Scroll → ℕ → MinidumpMemoryBase D → ℕ → Option ℕ
  get_memory_at_address scroll width m addr =
      Base.◌>>=◌ (checked_sub addr m.base_address)
        (λ start. scroll.pread width m.endian m.bytes start)

  unfoldable pub memory_range : MinidumpMemoryBase D → Option Range
  unfolding range_of_size
  memory_range m = range_of_size m.base_address m.size

pub record MinidumpMemoryListBase (c : RangeCrate) (D : Type 0) : Type 0 where
  pub regions : List (MinidumpMemoryBase D)
  pub regions_by_addr : c.RangeMap ℕ

module _ {D : Type 0} (c : RangeCrate) where
  unfoldable pub from_regions : List (MinidumpMemoryBase D) → Option (MinidumpMemoryListBase c D)
  unfolding index_by_addr memory_range
  from_regions regions =
      Base.◌>>=◌ (index_by_addr memory_range c regions)
        (λ m. some (record { regions = regions; regions_by_addr = m }))

  unfoldable pub memory_at_address : MinidumpMemoryListBase c D → ℕ → Option (MinidumpMemoryBase D)
  memory_at_address l address =
      Base.◌>>=◌ (c.get l.regions_by_addr address) (λ index. get_elem? l.regions index)

abbrev pub keep_ok : {A : Type 0} → Result A → List A → List A
keep_ok (ok a) rest = a ∷ rest
keep_ok (err e) rest = rest

-- The loop that skips corrupt entries.
unfoldable pub read_regions :
    List MemoryDescriptor → Bytes → Endian → List (MinidumpMemoryBase MemoryDescriptor)
unfolding read_memory
read_regions [] all e = []
read_regions (raw ∷ raws) all e = keep_ok (read_memory raw all e) (read_regions raws all e)

-- The loop of the 64-bit list, in which the memory of a region stands behind that of the last one.
unfoldable pub read_regions64 :
    List MemoryDescriptor64
    → Bytes
    → Endian
    → ℕ
    → Result (List (MinidumpMemoryBase MemoryDescriptor64))
read_regions64 [] all e rva = ok []
read_regions64 (raw ∷ raws) all e rva = do
  end ← ok_or stream_read_failure (checked_add u64_mod rva raw.data_size)
  bytes ← ok_or stream_read_failure (get_range all rva end)
  rest ← read_regions64 raws all e end
  ok (
      record {
        desc = raw;
        base_address = raw.start_of_memory_range;
        size = raw.data_size;
        bytes = bytes;
        endian = e;
      }
      ∷ rest)

module _ (scroll : Scroll) (c : RangeCrate) where
  -- MinidumpMemoryList::read
  unfoldable pub read_memory_list :
      Bytes → Bytes → Endian → Result (Option (MinidumpMemoryListBase c MemoryDescriptor))
  unfolding read_stream_list read_regions from_regions
  read_memory_list bytes all e = do
    descriptors ← read_stream_list (memory_descriptor scroll) scroll e bytes
    ok (from_regions c (read_regions descriptors all e))

  -- MinidumpMemory64List::read
  unfoldable pub read_memory64_list :
      Bytes → Bytes → Endian → Result (Option (MinidumpMemoryListBase c MemoryDescriptor64))
  unfolding ensure_count_in_bound read_entries read_regions64 from_regions
  read_memory64_list bytes all e = do
    u ← ok_or stream_read_failure (scroll.pread 8 e bytes 0)
    rva ← ok_or stream_read_failure (scroll.pread 8 e bytes 8)
    counted ← ensure_count_in_bound bytes u 16 16
    if not (nat_eq (length bytes) counted.1)
        then err (stream_size_mismatch counted.1 (length bytes))
        else (do
          raw_entries ←
              ok_or stream_read_failure
                (read_entries (memory_descriptor64 scroll) e bytes counted.0 16)
          regions ← read_regions64 raw_entries all e rva
          ok (from_regions c regions))
