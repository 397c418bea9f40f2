-- ===== src/Minidump/Memory/Lookup.antt =====
-- Which region a memory list answers for an address, and what can be read from it.
use rust_minidump.Base.{
  ℕ, ◌+◌, ◌-◌, ◌≤◌, ◌<◌, ◌≡◌, ◌≢◌, refl, sym, ap, subst, ◌∙◌, none, some, List, [], ◌∷◌, Bytes, In,
  All, All-In, In-of_get_elem?, get_elem?, take, drop, >>=-eq-some, some_inj, arith,
}
use rust_minidump.Ranges.{Range, IsRange, Inside, RangeCrate}
use rust_minidump.SymFile.Types.MemoryRange.{range_of_size_iff, range_of_size-IsRange}
use rust_minidump.Minidump.Errors.{Result, ok, err, >>=-eq-ok, ok_inj}
use rust_minidump.Minidump.Scroll.{Endian, Scroll, uint}
use rust_minidump.Minidump.Lists.{read_stream_list}
use rust_minidump.Minidump.Indexed.{index_by_addr, index_by_addr_total, index_by_addr_sound}
use rust_minidump.Minidump.Memory.{
  MinidumpMemoryBase, MinidumpMemoryListBase, memory_range, from_regions, memory_at_address,
  keep_ok, read_memory, read_regions, read_memory_list, get_memory_at_address,
}
use rust_minidump.Minidump.Memory.Layouts.{MemoryDescriptor, memory_descriptor}
use rust_minidump.Minidump.Memory.Reads.{
  IsDescribed, Holds, read_memory-IsDescribed, get_memory_at_address-Shows,
}

module _ {D : Type 0} (c : RangeCrate) where
  memory_range-IsRange :
      (m : MinidumpMemoryBase D) (r : Range) → memory_range m ≡ some r → IsRange r
  unfolding memory_range
  memory_range-IsRange m r h = range_of_size-IsRange m.base_address m.size r h

  pub from_regions_total :
      (regions : List (MinidumpMemoryBase D))
      → (l : MinidumpMemoryListBase c D) × (from_regions c regions ≡ some l) × (l.regions ≡ regions)
  unfolding from_regions
  from_regions_total regions =
      let (m, made) = index_by_addr_total memory_range memory_range-IsRange c regions in
      (record { regions = regions; regions_by_addr = m }, rw made refl, refl)

  pub memory_at_address_sound :
      (regions : List (MinidumpMemoryBase D)) (l : MinidumpMemoryListBase c D) (a : ℕ)
      (m : MinidumpMemoryBase D)
      → from_regions c regions ≡ some l
      → memory_at_address c l a ≡ some m
      → In m regions × (m.base_address ≤ a) × (a < m.base_address + m.size)
  unfolding from_regions memory_at_address memory_range
  memory_at_address_sound regions l a m made found =
      let (map, mapped, built) = >>=-eq-some (index_by_addr memory_range c regions) _ made in
      let (i, got, elem) =
        >>=-eq-some (c.get map a) (λ index. get_elem? regions index)
          (subst (λ (l : MinidumpMemoryListBase c D). memory_at_address c l a ≡ some m)
            (sym (some_inj built)) found) in
      let (r, (x, e, has), within) =
        index_by_addr_sound memory_range memory_range-IsRange c regions map a i mapped got in
      let same : x ≡ m = some_inj (sym e ∙ elem) in
      subst
        (λ (x : MinidumpMemoryBase D).
          In x regions × (x.base_address ≤ a) × (a < x.base_address + x.size))
        same
        (In-of_get_elem? regions i x e, (inside_of x r has within).0, (inside_of x r has within).1)
    where
      inside_of :
          (x : MinidumpMemoryBase D) (r : Range)
          → memory_range x ≡ some r
          → Inside a r
          → (x.base_address ≤ a) × (a < x.base_address + x.size)
      inside_of x r has (low, high) =
          let (some_size, fits, same) = (range_of_size_iff x.base_address x.size r).0 has in
          let start : r.start ≡ x.base_address = ap (λ (q : Range). q.start) same in
          let end : r.end ≡ x.base_address + x.size - 1 = ap (λ (q : Range). q.end) same in
          (omega (arith, low, start), omega (arith, high, end, some_size))

read_regions-All :
    (raws : List MemoryDescriptor) (all : Bytes) (e : Endian)
    → All (IsDescribed all e) (read_regions raws all e)
unfolding read_regions
read_regions-All [] all e = tt
read_regions-All (raw ∷ raws) all e =
    kept (read_memory raw all e) (λ m h. (read_memory-IsDescribed raw all e m h).1)
      (read_regions-All raws all e)
  where
    kept :
        (r : Result (MinidumpMemoryBase MemoryDescriptor))
        → ((m : MinidumpMemoryBase MemoryDescriptor) → r ≡ ok m → IsDescribed all e m)
        → All (IsDescribed all e) (read_regions raws all e)
        → All (IsDescribed all e) (keep_ok r (read_regions raws all e))
    kept (ok m) h rest = (h m refl, rest)
    kept (err x) h rest = rest

module _ (scroll : Scroll) (c : RangeCrate) where
  -- A memory list that is read is never a panic.
  pub read_memory_list_total :
      (bytes all : Bytes) (e : Endian) → read_memory_list scroll c bytes all e ≢ ok none
  unfolding read_memory_list
  read_memory_list_total bytes all e h =
      let (raws, found, built) =
        >>=-eq-ok (read_stream_list (memory_descriptor scroll) scroll e bytes) _ h in
      let (l, made, same) = from_regions_total c (read_regions raws all e) in cc

  -- In a memory list that is read, a region that is answered for an address holds that address, and
  -- any integer that lies in the region is read as the dump has it, at the region's place in the file.
  pub memory_at_address-read :
      (bytes all : Bytes) (e : Endian) (l : MinidumpMemoryListBase c MemoryDescriptor) (a : ℕ)
      (m : MinidumpMemoryBase MemoryDescriptor) (width b : ℕ)
      → read_memory_list scroll c bytes all e ≡ ok (some l)
      → memory_at_address c l a ≡ some m
      → Holds scroll m width b
      → (m.base_address ≤ a)
        × (a < m.base_address + m.size)
        × (m.base_address ≡ m.desc.start_of_memory_range)
        × (m.size ≡ m.desc.memory.data_size)
        × (get_memory_at_address scroll width m b
            ≡ some (uint e (take width (drop (m.desc.memory.rva + (b - m.base_address)) all))))
  unfolding read_memory_list
  memory_at_address-read bytes all e l a m width b read found holds =
      let (raws, listed, built) =
        >>=-eq-ok (read_stream_list (memory_descriptor scroll) scroll e bytes) _ read in
      let regions = read_regions raws all e in
      let (member, low, high) = memory_at_address_sound c regions l a m (ok_inj built) found in
      let (base, size, shows) =
        All-In (IsDescribed all e) m regions (read_regions-All raws all e) member in
      (
        low,
        high,
        base,
        size,
        get_memory_at_address-Shows scroll all e m.desc.memory.rva m width b shows holds,
      )
