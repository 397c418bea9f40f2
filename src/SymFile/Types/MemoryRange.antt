-- ===== src/SymFile/Types/MemoryRange.antt =====
-- The methods `memory_range`.
use rust_minidump.Base.{ℕ, ◌+◌, ◌-◌, ◌<◌, ◌≡◌, ◌↔◌, some, arith, ℕ-PartialEq, u64_mod}
use rust_minidump.Ranges.{Range, IsRange}
use rust_minidump.SymFile.Types.{range_of_size}

-- `memory_range` gives a range exactly when the size is not 0 and `address + size` fits 64 bits;
-- the range is then `[address, address + size - 1]`.
pub range_of_size_iff :
    (address size : ℕ) (r : Range)
    → (range_of_size address size ≡ some r) ↔ (
        (0 < size)
        × (address + size < u64_mod)
        × (r ≡ record { start = address; end = address + size - 1 }))
unfolding range_of_size
range_of_size_iff address size r = (λ h. ground arith, λ h. ground arith)

-- `Range::new` never panics in `memory_range`.
pub range_of_size-IsRange :
    (address size : ℕ) (r : Range) → range_of_size address size ≡ some r → IsRange r
unfolding range_of_size
range_of_size-IsRange address size r h = ground arith
