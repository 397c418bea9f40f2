-- ===== src/Minidump/Infos.antt =====
-- minidump/src/minidump.rs: MinidumpMemoryInfoList, MinidumpLinuxMaps, and UnifiedMemoryInfoList over
-- both. `none` stands for a panic, of `into_rangemap_safe` or of an index. The flag sets of a region
-- and the rest of a mapping come from the crates bitflags and procfs_core.
pub mod Adjacent
use rust_minidump.Base.{ℕ, Option, none, some, List, [], ◌∷◌, map, Bytes, ltb, if◌then◌else◌, ◌>>=◌}
use rust_minidump.Ranges.{Range, RangeCrate}
use rust_minidump.SymFile.Types.{range_of_size}
use rust_minidump.Minidump.Errors
use rust_minidump.Minidump.Errors.{Result, ok}
use rust_minidump.Minidump.Scroll.{Endian, Scroll, Layout}
use rust_minidump.Minidump.Lists.{read_ex_stream_list}
use rust_minidump.Minidump.Indexed.{index_by_addr, element_at}

-- MINIDUMP_MEMORY_INFO
pub record RawMemoryInfo : Type 0 where
  pub base_address : ℕ
  pub allocation_base : ℕ
  pub allocation_protection : ℕ
  pub region_size : ℕ
  pub state : ℕ
  pub protection : ℕ
  pub ty : ℕ

pub record MinidumpMemoryInfo (F : Type 0) : Type 0 where
  pub raw : RawMemoryInfo
  pub flags : F

-- procfs_core's MemoryMap, whose `address` is the pair of `start` and `limit`.
pub record MemoryMap (P : Type 0) : Type 0 where
  pub start : ℕ
  pub limit : ℕ
  pub rest : P

unfoldable pub info_range : {F : Type 0} → MinidumpMemoryInfo F → Option Range
unfolding range_of_size
info_range i = range_of_size i.raw.base_address i.raw.region_size

unfoldable pub map_range : {P : Type 0} → MemoryMap P → Option Range
map_range m = if ltb m.limit m.start then none else some (record { start = m.start; end = m.limit })

pub record RegionList (c : RangeCrate) (A : Type 0) : Type 0 where
  pub regions : List A
  pub regions_by_addr : c.RangeMap ℕ

unfoldable pub info_list_from_regions :
    {F : Type 0} (c : RangeCrate)
    → List (MinidumpMemoryInfo F)
    → Option (RegionList c (MinidumpMemoryInfo F))
unfolding index_by_addr info_range
info_list_from_regions c regions = do
  m ← index_by_addr info_range c regions
  some (record { regions = regions; regions_by_addr = m })

unfoldable pub linux_maps_from_regions :
    {P : Type 0} (c : RangeCrate) → List (MemoryMap P) → Option (RegionList c (MemoryMap P))
unfolding index_by_addr map_range
linux_maps_from_regions c regions = do
  m ← index_by_addr map_range c regions
  some (record { regions = regions; regions_by_addr = m })

-- Both methods `memory_info_at_address`.
unfoldable pub memory_info_at_address :
    {A : Type 0} (c : RangeCrate) → RegionList c A → ℕ → Option (Option A)
unfolding element_at
memory_info_at_address c l address = element_at c l.regions l.regions_by_addr address

pub data UnifiedMemoryInfoList (c : RangeCrate) (F P : Type 0) : Type 0 where
  info_list : RegionList c (MinidumpMemoryInfo F) → UnifiedMemoryInfoList c F P
  maps_list : RegionList c (MemoryMap P) → UnifiedMemoryInfoList c F P

pub data UnifiedMemoryInfo (F P : Type 0) : Type 0 where
  info : MinidumpMemoryInfo F → UnifiedMemoryInfo F P
  mapping : MemoryMap P → UnifiedMemoryInfo F P

abbrev pub map_found : {A B : Type 0} → (A → B) → Option (Option A) → Option (Option B)
map_found f none = none
map_found f (some none) = some none
map_found f (some (some x)) = some (some (f x))

module _ (c : RangeCrate) {F P : Type 0} where
  unfoldable pub unified_new :
      Option (RegionList c (MinidumpMemoryInfo F))
      → Option (RegionList c (MemoryMap P))
      → Option (UnifiedMemoryInfoList c F P)
  unified_new (some i) maps = some (info_list i)
  unified_new none (some maps) = some (maps_list maps)
  unified_new none none = none

  unfoldable pub unified_memory_info_at_address :
      UnifiedMemoryInfoList c F P → ℕ → Option (Option (UnifiedMemoryInfo F P))
  unfolding memory_info_at_address
  unified_memory_info_at_address (info_list l) address =
      map_found info (memory_info_at_address c l address)
  unified_memory_info_at_address (maps_list l) address =
      map_found mapping (memory_info_at_address c l address)

module _ {F : Type 0} (scroll : Scroll) (layout : Layout RawMemoryInfo)
    (flags_of : RawMemoryInfo → F) (c : RangeCrate) where
  -- MinidumpMemoryInfoList::read
  unfoldable pub read_memory_info_list :
      Bytes → Endian → Result (Option (RegionList c (MinidumpMemoryInfo F)))
  unfolding read_ex_stream_list info_list_from_regions
  read_memory_info_list bytes e = Errors.◌>>=◌ (read_ex_stream_list layout scroll e bytes) (λ raws.
      ok (info_list_from_regions c (map (λ raw. record { raw = raw; flags = flags_of raw }) raws)))
