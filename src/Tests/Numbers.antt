-- ===== src/Tests/Numbers.antt =====
-- Decimal numbers.
use rust_minidump.Base.{
  ◌<◌, ◌≤◌, ◌≡◌, ◌↔◌, refl, none, some, Bytes, text, All, ◌++◌, length, ◌⊎◌, u32_mod,
}
use rust_minidump.SymFile.Parser.Numbers.{decimal_u32, decimal_u32_iff, IsDigit, NoDigit, spelled}

run_largest : decimal_u32 (text "4294967295 x") ≡ some (text " x", 4294967295)
unfolding decimal_u32
run_largest = refl

run_too_large : decimal_u32 (text "4294967296") ≡ none
unfolding decimal_u32
run_too_large = refl

decimal_u32_iff_example : (decimal_u32 (text "12 a") ≡ some (text " a", 12)) ↔ (
    (ds : Bytes) × All IsDigit ds
    × (text "12 a" ≡ ds ++ text " a")
    × (0 < length ds)
    × (length ds ≤ 10)
    × ((length ds ≡ 10) ⊎ NoDigit (text " a"))
    × (12 ≡ spelled 0 ds)
    × (12 < u32_mod))
decimal_u32_iff_example = decimal_u32_iff (text "12 a") (text " a") 12
