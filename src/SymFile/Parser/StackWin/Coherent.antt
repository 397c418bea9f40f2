-- ===== src/SymFile/Parser/StackWin/Coherent.antt =====
-- `unwrap` never panics in `insert_win_stack_info`, and every record keeps the range that it says.
use rust_minidump.Base.{
  ℕ, ◌-◌, ◌<◌, ◌≤◌, ◌≡◌, refl, true, Option, none, some, [], ◌∷◌, All, arith, ltb, not, ◌&&◌,
  if◌then◌else◌, u32_mod,
}
use rust_minidump.Ranges.{Range, RangeCrate, Entries}
use rust_minidump.SymFile.Types.{StackInfoWin, win_memory_range}
use rust_minidump.SymFile.Types.MemoryRange.{range_of_size_iff}
use rust_minidump.SymFile.Parser.StackWin.{range_eq, cut_last, insert_ranged, insert_win_stack_info}

-- An entry's range is its record's `memory_range`, and the record's size fits 32 bits.
abbrev pub IsCoherent : Entries StackInfoWin → Type 0
IsCoherent = All (λ x. (win_memory_range x.1 ≡ some x.0) × (x.1.size < u32_mod))

-- The record ends where `address` begins.
abbrev pub ends_before : StackInfoWin → ℕ → Range × StackInfoWin
ends_before info address = (
  record { start = info.address; end = address - 1 },
  record info { size = address - info.address },
)

module _ (last_range : Range) (last_info : StackInfoWin) (address : ℕ) where
  cut_last_lem :
      win_memory_range last_info ≡ some last_range
      → last_info.size < u32_mod
      → last_info.address < address
      → address ≤ last_range.end
      → (cut_last last_info address ≡ some (ends_before last_info address))
        × (win_memory_range (ends_before last_info address).1
            ≡ some (ends_before last_info address).0)
        × (address - last_info.address < u32_mod)
  unfolding cut_last win_memory_range
  cut_last_lem h fits before within = (ground arith, ground arith, ground arith)

module _ (c : RangeCrate) where
  -- What the insertion amounts to, with no arithmetic that could fail.
  abbrev pub inserted : Entries StackInfoWin → Range → StackInfoWin → Entries StackInfoWin
  inserted [] range info = (range, info) ∷ []
  inserted ((last_range, last_info) ∷ rest) range info =
      if c.intersects last_range range && not (ltb last_info.address info.address)
      then (if range_eq last_range range
          then (range, info) ∷ (last_range, last_info) ∷ rest
          else (last_range, last_info) ∷ rest)
      else if c.intersects last_range range
      then (range, info) ∷ ends_before last_info info.address ∷ rest
      else (range, info) ∷ (last_range, last_info) ∷ rest

  cut_fits :
      (last_range range : Range) (last_info info : StackInfoWin)
      → win_memory_range info ≡ some range
      → c.intersects last_range range ≡ true
      → info.address ≤ last_range.end
  unfolding win_memory_range
  cut_fits last_range range last_info info e meets = ground (
    arith,
    (range_of_size_iff info.address info.size range).0 e,
    (c.intersects_iff last_range range).0 meets,
  )

  insert_ranged-eq-inserted :
      (stack : Entries StackInfoWin) (range : Range) (info : StackInfoWin)
      → IsCoherent stack
      → win_memory_range info ≡ some range
      → insert_ranged c stack range info ≡ some (inserted stack range info)
  unfolding insert_ranged
  insert_ranged-eq-inserted [] range info coherent e = refl
  insert_ranged-eq-inserted ((last_range, last_info) ∷ rest) range info coherent e = ground (
    arith,
    cut_fits last_range range last_info info e,
    cut_last_lem last_range last_info info.address coherent.0.0 coherent.0.1,
  )

  inserted-IsCoherent :
      (stack : Entries StackInfoWin) (range : Range) (info : StackInfoWin)
      → IsCoherent stack
      → win_memory_range info ≡ some range
      → info.size < u32_mod
      → IsCoherent (inserted stack range info)
  inserted-IsCoherent [] range info coherent e fits = ((e, fits), tt)
  inserted-IsCoherent ((last_range, last_info) ∷ rest) range info coherent e fits = ground (
    arith,
    cut_fits last_range range last_info info e,
    cut_last_lem last_range last_info info.address coherent.0.0 coherent.0.1,
  )

  abbrev pub inserted_if : Entries StackInfoWin → Option Range → StackInfoWin → Entries StackInfoWin
  inserted_if stack none info = stack
  inserted_if stack (some range) info = inserted stack range info

  inserted_at :
      (stack : Entries StackInfoWin) (o : Option Range) (info : StackInfoWin)
      → win_memory_range info ≡ o
      → IsCoherent stack
      → info.size < u32_mod
      → (insert_win_stack_info c stack info ≡ some (inserted_if stack o info))
        × IsCoherent (inserted_if stack o info)
  unfolding insert_win_stack_info
  inserted_at stack none info e coherent fits = (rw e refl, coherent)
  inserted_at stack (some range) info e coherent fits = (
    rw e (insert_ranged-eq-inserted stack range info coherent e),
    inserted-IsCoherent stack range info coherent e fits,
  )

  -- On records whose sizes fit 32 bits, inserting a STACK WIN record never panics: the result is
  -- that of `inserted`, which computes nothing that could fail, or the old vector if the record
  -- has no range. Every entry goes on to hold the `memory_range` of its record.
  pub insert_win_stack_info_total :
      (stack : Entries StackInfoWin) (info : StackInfoWin)
      → IsCoherent stack
      → info.size < u32_mod
      → (insert_win_stack_info c stack info ≡ some (inserted_if stack (win_memory_range info) info))
        × IsCoherent (inserted_if stack (win_memory_range info) info)
  insert_win_stack_info_total stack info coherent fits =
      inserted_at stack (win_memory_range info) info refl coherent fits
