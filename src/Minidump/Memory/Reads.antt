-- ===== src/Minidump/Memory/Reads.antt =====
-- Reading from one region: what is read is what the dump holds at the region's place in the file.
use rust_minidump.Base.{
  ℕ, zero, suc, ◌+◌, ◌-◌, ◌≤◌, ◌<◌, ◌≡◌, ◌⊎◌, refl, sym, ap, subst, ◌∙◌, Bool-cases, ◌&&◌, ◌||◌,
  none, some, List, [], ◌∷◌, Bytes, length, take, drop, leb, nat_eq, u64_mod, checked_add,
  >>=-eq-some, if-eq-some, inl, inr, arith, some_inj,
}
use rust_minidump.Minidump.Errors.{
  stream_read_failure, Result, ok, ok_or, to_option, >>=-eq-ok, ok_or-eq-ok, if_err-eq-ok, ok_inj,
}
use rust_minidump.Minidump.Scroll.{Endian, Scroll, uint}
use rust_minidump.Minidump.Slices.{Location, location_slice, get_range, length-take-drop}
use rust_minidump.Minidump.Memory.{MinidumpMemoryBase, read_memory, get_memory_at_address}
use rust_minidump.Minidump.Memory.Layouts.{MemoryDescriptor}

module _ {A : Type 0} where
  drop_nil : (k : ℕ) → drop {A = A} k [] ≡ []
  drop_nil zero = refl
  drop_nil (suc k) = refl

  drop-drop : (k s j : ℕ) (xs : List A) → s + k ≡ j → drop k (drop s xs) ≡ drop j xs
  drop-drop k zero j xs e = ap (λ (i : ℕ). drop i xs) (omega (arith, e))
  drop-drop k (suc s) zero xs e = absurd (omega (arith, e))
  drop-drop k (suc s) (suc j) [] e = drop_nil k
  drop-drop k (suc s) (suc j) (x ∷ xs) e = drop-drop k s j xs (omega (arith, e))

  take-drop-take :
      (w k n : ℕ) (xs : List A) → k + w ≤ n → take w (drop k (take n xs)) ≡ take w (drop k xs)
  take-drop-take w k zero xs h = let none_left : w ≡ 0 = omega (arith, h) in rw none_left refl
  take-drop-take zero zero (suc n) xs h = refl
  take-drop-take (suc w) zero (suc n) [] h = refl
  take-drop-take (suc w) zero (suc n) (x ∷ xs) h =
      ap (◌∷◌ x) (take-drop-take w 0 n xs (omega (arith, h)))
  take-drop-take w (suc k) (suc n) [] h = refl
  take-drop-take w (suc k) (suc n) (x ∷ xs) h = take-drop-take w k n xs (omega (arith, h))

get_range_sound :
    (bytes : Bytes) (start end : ℕ) (slice : Bytes)
    → get_range bytes start end ≡ some slice
    → (start ≤ end) × (end ≤ length bytes) × (slice ≡ take (end - start) (drop start bytes))
get_range_sound bytes start end slice h =
    let (both, made) = if-eq-some (leb start end && leb end (length bytes)) _ h in
    (ground arith, ground arith, sym (some_inj made))

-- The slice of the dump from `rva` on of which `bytes` is a copy.
abbrev pub IsSlice : Bytes → ℕ → ℕ → Bytes → Type 0
IsSlice all rva size bytes = (rva + size ≤ length all) × (bytes ≡ take size (drop rva all))

pub get_range-IsSlice :
    (all : Bytes) (rva size end : ℕ) (bytes : Bytes)
    → checked_add u64_mod rva size ≡ some end
    → get_range all rva end ≡ some bytes
    → (end ≡ rva + size) × IsSlice all rva size bytes
get_range-IsSlice all rva size end bytes added got =
    let (low, high, same) = get_range_sound all rva end bytes got in
    let sum : end ≡ rva + size = sum_of rva size end added in
    (
      sum,
      (omega (arith, high, sum), same ∙ ap (λ (n : ℕ). take n (drop rva all)) (omega (arith, sum))),
    )
  where
    sum_of : (a b c : ℕ) → checked_add u64_mod a b ≡ some c → c ≡ a + b
    sum_of a b c e = ground arith

pub location_slice-IsSlice :
    (all : Bytes) (loc : Location) (bytes : Bytes)
    → location_slice all loc ≡ ok bytes
    → IsSlice all loc.rva loc.data_size bytes
unfolding location_slice
location_slice-IsSlice all loc bytes h =
    let (end, added, got) =
      >>=-eq-some (checked_add u64_mod loc.rva loc.data_size) _
        (ok_or-eq-ok stream_read_failure _ h) in
    (get_range-IsSlice all loc.rva loc.data_size end bytes added got).1

to_option-eq-some : {A : Type 0} (r : Result A) {a : A} → to_option r ≡ some a → r ≡ ok a
to_option-eq-some (Result.ok a) h = cc
to_option-eq-some (Result.err e) h = cc

-- The region `m` holds the bytes of the dump from `rva` on.
abbrev pub Shows : {D : Type 0} → Bytes → Endian → ℕ → MinidumpMemoryBase D → Type 0
Shows all e rva m = IsSlice all rva m.size m.bytes × (m.endian ≡ e)

-- The region is the one that its descriptor describes.
abbrev pub IsDescribed : Bytes → Endian → MinidumpMemoryBase MemoryDescriptor → Type 0
IsDescribed all e m =
    (m.base_address ≡ m.desc.start_of_memory_range)
    × (m.size ≡ m.desc.memory.data_size)
    × Shows all e m.desc.memory.rva m

pub read_memory-IsDescribed :
    (desc : MemoryDescriptor) (all : Bytes) (e : Endian) (m : MinidumpMemoryBase MemoryDescriptor)
    → read_memory desc all e ≡ ok m
    → (m.desc ≡ desc) × IsDescribed all e m
unfolding read_memory
read_memory-IsDescribed desc all e m h =
    let (there, rest) =
      if_err-eq-ok (nat_eq desc.memory.rva 0 || nat_eq desc.memory.data_size 0) _ _ h in
    let (bytes, found, made) =
      >>=-eq-ok (ok_or stream_read_failure (to_option (location_slice all desc.memory))) _ rest in
    let slice =
      location_slice-IsSlice all desc.memory bytes
        (to_option-eq-some _ (ok_or-eq-ok stream_read_failure _ found)) in
    subst (λ (m : MinidumpMemoryBase MemoryDescriptor). (m.desc ≡ desc) × IsDescribed all e m)
      (ok_inj made) (refl, (refl, refl, (slice, refl)))

module _ {D : Type 0} (scroll : Scroll) where
  -- The bytes from `b` on, `width` of them, lie in the region.
  abbrev pub Holds : MinidumpMemoryBase D → ℕ → ℕ → Type 0
  Holds m width b = (m.base_address ≤ b) × (b + width ≤ m.base_address + m.size)

  checked_pread :
      (width : ℕ) (m : MinidumpMemoryBase D) (b : ℕ)
      → m.base_address ≤ b
      → get_memory_at_address scroll width m b
        ≡ scroll.pread width m.endian m.bytes (b - m.base_address)
  unfolding get_memory_at_address
  checked_pread width m b h = ground arith

  pub get_memory_at_address-Shows :
      (all : Bytes) (e : Endian) (rva : ℕ) (m : MinidumpMemoryBase D) (width b : ℕ)
      → Shows all e rva m
      → Holds m width b
      → get_memory_at_address scroll width m b
        ≡ some (uint e (take width (drop (rva + (b - m.base_address)) all)))
  get_memory_at_address-Shows all e rva m width b ((fits, copy), same) (low, high) =
      let start = b - m.base_address in
      let within : start + width ≤ m.size = omega (arith, low, high) in
      let size : length m.bytes ≡ m.size = ap length copy ∙ length-take-drop m.size rva all fits in
      checked_pread width m b low
      ∙ scroll.pread_ok width m.endian m.bytes start (omega (arith, size, within))
      ∙ ap (λ (o : Endian). some (uint o (take width (drop start m.bytes)))) same
      ∙ ap (λ (bs : Bytes). some (uint e bs))
          (ap (λ (bs : Bytes). take width (drop start bs)) copy
            ∙ take-drop-take width start m.size (drop rva all) within
            ∙ ap (take width) (drop-drop start rva (rva + start) all refl))

  pub get_memory_at_address_outside :
      (all : Bytes) (e : Endian) (rva : ℕ) (m : MinidumpMemoryBase D) (width b : ℕ)
      → Shows all e rva m
      → (b < m.base_address) ⊎ (m.base_address + m.size < b + width)
      → get_memory_at_address scroll width m b ≡ none
  unfolding get_memory_at_address
  get_memory_at_address_outside all e rva m width b shows (inl low) = ground arith
  get_memory_at_address_outside all e rva m width b ((fits, copy), same) (inr high) =
      let size : length m.bytes ≡ m.size = ap length copy ∙ length-take-drop m.size rva all fits in
      elim (Bool-cases (leb m.base_address b)) [
        | inl d ↦
            let beyond : length m.bytes < b - m.base_address + width =
              ground (arith, size, high, d) in
            rw (d, scroll.pread_err width m.endian m.bytes (b - m.base_address) beyond) refl
        | inr d ↦ rw d refl
      ]
