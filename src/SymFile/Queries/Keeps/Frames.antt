-- ===== src/SymFile/Queries/Keeps/Frames.antt =====
-- Unwinding a frame by a symbol file.
use rust_minidump.Base.{ℕ, ◌-◌, Bool, Option, none, some, Bytes-PartialEq, ltb}
use rust_minidump.Ranges.{RangeCrate}
use rust_minidump.SymFile.FrameWalker.{FrameWalker}
use rust_minidump.SymFile.Types.{StackInfoCfi, StackInfoWin, SymbolFile}
use rust_minidump.SymFile.Cfi.Rules.{CfiReg-PartialEq}
use rust_minidump.SymFile.Cfi.Walk.{failed, walk_with_stack_cfi}
use rust_minidump.SymFile.Win.Walks.{walk_with_stack_win_framedata, walk_with_stack_win_fpo}
use rust_minidump.SymFile.Queries.{or_else_walk, rules_until, walk_win, walk_cfi, walk_frame}
use rust_minidump.SymFile.Queries.Keeps.{Keeps, or_else_walk-Keeps, if-Keeps, IsKept}
use rust_minidump.SymFile.Queries.Keeps.Cfi.{walk_with_stack_cfi-Keeps}
use rust_minidump.SymFile.Queries.Keeps.Win.{framedata-Keeps, fpo-Keeps}

module _ {S : Type 0} (P : S → Type 0) where
  module _ (w : FrameWalker S) (kept : IsKept P w) where
    module _ {c : RangeCrate} (file : SymbolFile c) (checks : Bool) where
      walk_win-Keeps : (addr : ℕ) (s : S) → P s → Keeps P (walk_win file w checks addr s)
      unfolding walk_win
      walk_win-Keeps addr s p =
          go (c.get file.win_stack_framedata_info addr) (c.get file.win_stack_fpo_info addr)
        where
          by_fpo :
              (o : Option StackInfoWin)
              → Keeps P
                  (elim o [ some info ↦ walk_with_stack_win_fpo w checks info s | none ↦ failed s ])
          by_fpo (some info) = fpo-Keeps P w kept checks info s p
          by_fpo none = p

          go :
              (o q : Option StackInfoWin)
              → Keeps P (elim o [
                | some info ↦ walk_with_stack_win_framedata w checks info s
                | none ↦ elim q [
                  | some info ↦ walk_with_stack_win_fpo w checks info s
                  | none ↦ failed s
                ]
              ])
          go (some info) q = framedata-Keeps P w kept checks info s p
          go none q = by_fpo q

      walk_cfi-Keeps : (addr : ℕ) (s : S) → P s → Keeps P (walk_cfi file w checks addr s)
      unfolding walk_cfi
      walk_cfi-Keeps addr s p = go (c.get file.cfi_stack_info addr)
        where
          go :
              (o : Option StackInfoCfi)
              → Keeps P (elim o [
                | some info ↦ walk_with_stack_cfi w info.init (rules_until addr info.add_rules) s
                | none ↦ failed s
              ])
          go (some info) =
              walk_with_stack_cfi-Keeps P w kept info.init (rules_until addr info.add_rules) s p
          go none = p

      -- However unwinding a frame by a symbol file ends, what every method of the walker keeps holds
      -- of the walker's state.
      pub walk_frame-Keeps : (base : ℕ) (s : S) → P s → Keeps P (walk_frame file w checks base s)
      unfolding walk_frame
      walk_frame-Keeps base s p =
          let addr = w.get_instruction s - base in
          if-Keeps P (ltb (w.get_instruction s) base) (failed s)
            (or_else_walk (walk_win file w checks addr s) (walk_cfi file w checks addr)) p
            (or_else_walk-Keeps P (walk_win file w checks addr s) (walk_cfi file w checks addr)
              (walk_win-Keeps addr s p) (λ s' p'. walk_cfi-Keeps addr s' p'))
