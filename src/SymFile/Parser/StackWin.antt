-- ===== src/SymFile/Parser/StackWin.antt =====
-- parser.rs `insert_win_stack_info`: STACK WIN records that overlap are cut or dropped.
pub mod Coherent
pub mod Kinds
use rust_minidump.Base.{
  ℕ, ◌+◌, ◌-◌, ◌%◌, ◌<◌, ◌≡◌, Bool, true, false, not, ◌&&◌, Option, none, some, List, [], ◌∷◌,
  arith, ltb, nat_eq, if◌then◌else◌, u32_mod, ◌>>=◌,
}
use rust_minidump.Ranges.{Range, RangeCrate, Entries}
use rust_minidump.SymFile.Types.{StackInfoWin, win_memory_range}

-- `==` of `Range`
abbrev pub range_eq : Range → Range → Bool
range_eq r s = nat_eq r.start s.start && nat_eq r.end s.end

-- The last record, cut to end where the next one begins; `none` is a panic of `unwrap`.
unfoldable pub cut_last : StackInfoWin → ℕ → Option (Range × StackInfoWin)
cut_last last_info address = do
  let cut = record last_info { size = (address - last_info.address) % u32_mod }
  last_range ← win_memory_range cut
  some (last_range, cut)

module _ (c : RangeCrate) where
  -- The record has a range. The vector is kept last element first.
  unfoldable pub insert_ranged :
      Entries StackInfoWin → Range → StackInfoWin → Option (Entries StackInfoWin)
  insert_ranged [] memory_range info = some ((memory_range, info) ∷ [])
  insert_ranged ((last_range, last_info) ∷ rest) memory_range info =
      if c.intersects last_range memory_range
      then (if ltb last_info.address info.address
          then (do
            last ← cut_last last_info info.address
            some ((memory_range, info) ∷ last ∷ rest))
          else if not (range_eq last_range memory_range)
          then some ((last_range, last_info) ∷ rest)
          else some ((memory_range, info) ∷ (last_range, last_info) ∷ rest))
      else some ((memory_range, info) ∷ (last_range, last_info) ∷ rest)

  abbrev insert_if_ranged :
      Entries StackInfoWin → Option Range → StackInfoWin → Option (Entries StackInfoWin)
  insert_if_ranged stack_win none info = some stack_win
  insert_if_ranged stack_win (some memory_range) info = insert_ranged stack_win memory_range info

  unfoldable pub insert_win_stack_info :
      Entries StackInfoWin → StackInfoWin → Option (Entries StackInfoWin)
  insert_win_stack_info stack_win info = insert_if_ranged stack_win (win_memory_range info) info
