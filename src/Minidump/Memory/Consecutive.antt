-- ===== src/Minidump/Memory/Consecutive.antt =====
-- The 64-bit memory list: one region behind the other.
use rust_minidump.Base.{
  ℕ, ◌+◌, ◌*◌, ◌≡◌, refl, sym, ap, subst, ◌∙◌, false, not, Option, some, List, [], ◌∷◌, Bytes,
  length, nat_eq, checked_add, u64_mod, arith,
}
use rust_minidump.Ranges.{RangeCrate}
use rust_minidump.Minidump.Errors.{
  stream_read_failure, ok, ok_or, >>=-eq-ok, ok_or-eq-ok, if_err-eq-ok, ok_inj,
}
use rust_minidump.Minidump.Scroll.{Endian, Scroll}
use rust_minidump.Minidump.Slices.{get_range, ensure_count_in_bound}
use rust_minidump.Minidump.Lists.{read_entries}
use rust_minidump.Minidump.Lists.Reads.{StandAt, ensure_count_in_bound_sound, read_entries_sound}
use rust_minidump.Minidump.Memory.{
  MinidumpMemoryBase, MinidumpMemoryListBase, read_regions64, read_memory64_list,
}
use rust_minidump.Minidump.Memory.Layouts.{MemoryDescriptor64, memory_descriptor64}
use rust_minidump.Minidump.Memory.Reads.{Shows, get_range-IsSlice}
use rust_minidump.Minidump.Memory.Lookup.{from_regions_total}

-- The regions are those of the descriptors, and their bytes stand one behind the other from `rva` on.
abbrev pub AreConsecutive :
    Bytes
    → Endian
    → ℕ
    → List MemoryDescriptor64
    → List (MinidumpMemoryBase MemoryDescriptor64)
    → Type 0
AreConsecutive all e rva [] [] = Unit
AreConsecutive all e rva [] (m ∷ ms) = ⊥
AreConsecutive all e rva (raw ∷ raws) [] = ⊥
AreConsecutive all e rva (raw ∷ raws) (m ∷ ms) =
    (m.desc ≡ raw)
    × (m.base_address ≡ raw.start_of_memory_range)
    × (m.size ≡ raw.data_size)
    × Shows all e rva m
    × AreConsecutive all e (rva + raw.data_size) raws ms

read_regions64_sound :
    (raws : List MemoryDescriptor64) (all : Bytes) (e : Endian) (rva : ℕ)
    (regions : List (MinidumpMemoryBase MemoryDescriptor64))
    → read_regions64 raws all e rva ≡ ok regions
    → AreConsecutive all e rva raws regions
unfolding read_regions64
read_regions64_sound [] all e rva regions h = subst (AreConsecutive all e rva []) (ok_inj h) tt
read_regions64_sound (raw ∷ raws) all e rva regions h =
    let (end, added, h2) =
      >>=-eq-ok (ok_or stream_read_failure (checked_add u64_mod rva raw.data_size)) _ h in
    let (bytes, got, h3) = >>=-eq-ok (ok_or stream_read_failure (get_range all rva end)) _ h2 in
    let (rest, others, made) = >>=-eq-ok (read_regions64 raws all e end) _ h3 in
    let (sum, slice) =
      get_range-IsSlice all rva raw.data_size end bytes (ok_or-eq-ok stream_read_failure _ added)
        (ok_or-eq-ok stream_read_failure _ got) in
    subst (AreConsecutive all e rva (raw ∷ raws)) (ok_inj made) (
      refl,
      refl,
      refl,
      (slice, refl),
      subst (λ (n : ℕ). AreConsecutive all e n raws rest) sum
          (read_regions64_sound raws all e end rest others),
    )

module _ (scroll : Scroll) (c : RangeCrate) where
  -- A 64-bit memory list that is read is never a panic: its descriptors stand behind the 16 bytes of
  -- the counts up to the end of the stream, and the regions are theirs, in order, with their bytes one
  -- behind the other from the place in the file that the stream gives.
  pub read_memory64_list_sound :
      (bytes all : Bytes) (e : Endian) (o : Option (MinidumpMemoryListBase c MemoryDescriptor64))
      → read_memory64_list scroll c bytes all e ≡ ok o
      → (l : MinidumpMemoryListBase c MemoryDescriptor64) × (o ≡ some l)
        × ((raws : List MemoryDescriptor64) × (rva : ℕ) × (scroll.pread 8 e bytes 0
              ≡ some (length raws))
            × (scroll.pread 8 e bytes 8 ≡ some rva)
            × (length bytes ≡ length raws * 16 + 16)
            × StandAt (memory_descriptor64 scroll) e bytes 16 raws
            × AreConsecutive all e rva raws l.regions)
  unfolding read_memory64_list
  read_memory64_list_sound bytes all e o h =
      let (u, counted, h2) = >>=-eq-ok (ok_or stream_read_failure (scroll.pread 8 e bytes 0)) _ h in
      let (rva, placed, h3) =
        >>=-eq-ok (ok_or stream_read_failure (scroll.pread 8 e bytes 8)) _ h2 in
      let (bound, bounded, h4) = >>=-eq-ok (ensure_count_in_bound bytes u 16 16) _ h3 in
      let (exact, h5) = if_err-eq-ok (not (nat_eq (length bytes) bound.1)) _ _ h4 in
      let (raws, listed, h6) =
        >>=-eq-ok
          (ok_or stream_read_failure (read_entries (memory_descriptor64 scroll) e bytes bound.0 16))
          _ h5 in
      let (regions, made, built) = >>=-eq-ok (read_regions64 raws all e rva) _ h6 in
      let (same, expected, within) = ensure_count_in_bound_sound bytes u 16 16 bound bounded in
      let (number, stand) =
        read_entries_sound (memory_descriptor64 scroll) e bytes bound.0 16 raws
          (ok_or-eq-ok stream_read_failure _ listed) in
      let (l, found, kept) = from_regions_total c regions in
      let count : length raws ≡ u = number ∙ same in
      (
        l,
        sym (ok_inj built) ∙ found,
        (
          raws,
          rva,
          ok_or-eq-ok stream_read_failure _ counted ∙ ap some (sym count),
          ok_or-eq-ok stream_read_failure _ placed,
          rw count (total_of (length bytes) bound.1 (u * 16 + 16) exact expected),
          stand,
          subst (AreConsecutive all e rva raws) (sym kept)
              (read_regions64_sound raws all e rva regions made),
        ),
      )
    where
      total_of : (n k t : ℕ) → not (nat_eq n k) ≡ false → k ≡ t → n ≡ t
      total_of n k t exact same = ground arith
