-- ===== src/SymFile/Parser/StackWin/Kinds.antt =====
-- Inserting a STACK WIN record keeps what the vector's records are.
use rust_minidump.Base.{
  ℕ, ◌<◌, ◌≡◌, Bool, true, false, Option, none, some, [], ◌∷◌, All, u32_mod, ltb, not, ◌&&◌,
  if◌then◌else◌,
}
use rust_minidump.Ranges.{Range, RangeCrate, Entries}
use rust_minidump.SymFile.Types.{StackInfoWin, win_memory_range}
use rust_minidump.SymFile.Parser.StackWin.{range_eq, insert_win_stack_info}
use rust_minidump.SymFile.Parser.StackWin.Coherent.{
  IsCoherent, ends_before, inserted, inserted_if, insert_win_stack_info_total,
}

module _ (P : StackInfoWin → Type 0)
    (resized : (info : StackInfoWin) (n : ℕ) → P info → P (record info { size = n })) where
  -- Insertion keeps what does not depend on a record's size.
  inserted-All :
      (c : RangeCrate) (stack : Entries StackInfoWin) (range : Range) (info : StackInfoWin)
      → All (λ x. P x.1) stack
      → P info
      → All (λ x. P x.1) (inserted c stack range info)
  inserted-All c [] range info h p = (p, tt)
  inserted-All c ((last_range, last_info) ∷ rest) range info h p =
      go (c.intersects last_range range && not (ltb last_info.address info.address))
        (range_eq last_range range) (c.intersects last_range range)
    where
      go :
          (meets same cuts : Bool)
          → All
              (λ x. P x.1)
              (if meets
                then (if same
                    then (range, info) ∷ (last_range, last_info) ∷ rest
                    else (last_range, last_info) ∷ rest)
                else if cuts
                then (range, info) ∷ ends_before last_info info.address ∷ rest
                else (range, info) ∷ (last_range, last_info) ∷ rest)
      go true true cuts = (p, h)
      go true false cuts = h
      go false same true = (p, (resized last_info _ h.0, h.1))
      go false same false = (p, h)

  inserted_if-All :
      (c : RangeCrate) (stack : Entries StackInfoWin) (o : Option Range) (info : StackInfoWin)
      → All (λ x. P x.1) stack
      → P info
      → All (λ x. P x.1) (inserted_if c stack o info)
  inserted_if-All c stack none info h p = h
  inserted_if-All c stack (some range) info h p = inserted-All c stack range info h p

  -- Insertion of a record never crashes, and leaves entries that are coherent and of their kind.
  pub insert_kept :
      (c : RangeCrate) (stack : Entries StackInfoWin) (info : StackInfoWin)
      → IsCoherent stack
      → All (λ x. P x.1) stack
      → info.size < u32_mod
      → P info
      → (entries : Entries StackInfoWin) × (insert_win_stack_info c stack info ≡ some entries)
        × IsCoherent entries
        × All (λ x. P x.1) entries
  insert_kept c stack info coherent kinds fits p =
      let (made, kept) = insert_win_stack_info_total c stack info coherent fits in
      (_, made, kept, inserted_if-All c stack (win_memory_range info) info kinds p)
