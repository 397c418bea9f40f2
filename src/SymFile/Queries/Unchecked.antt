-- ===== src/SymFile/Queries/Unchecked.antt =====
-- A frame unwound in a build without overflow checks.
use rust_minidump.Base.{ℕ, ◌-◌, ◌≡◌, ◌≢◌, refl, Bool, false, Option, none, some, List}
use rust_minidump.Ranges.{RangeCrate}
use rust_minidump.SymFile.Types.{StackInfoWin, SymbolFile, program_string, allocates_base_pointer}
use rust_minidump.SymFile.FrameWalker.{FrameWalker}
use rust_minidump.SymFile.Cfi.Walk.{Outcome, failed, panicked}
use rust_minidump.SymFile.Cfi.Walk.Safe.{Survives}
use rust_minidump.SymFile.Win.Walks.{walk_with_stack_win_framedata, walk_with_stack_win_fpo}
use rust_minidump.SymFile.Win.Unchecked.{
  walk_with_stack_win_framedata-unchecked, walk_with_stack_win_fpo-unchecked,
}
use rust_minidump.SymFile.Queries.{walk_win, walk_frame}
use rust_minidump.SymFile.Queries.Walks.{walk_frame-Survives}

abbrev pub HasProgram : StackInfoWin → Type 0
HasProgram info =
    (program : List ℕ) × (info.program_string_or_base_pointer ≡ program_string program)

abbrev pub HasNoProgram : StackInfoWin → Type 0
HasNoProgram info =
    (allocates : Bool) × (info.program_string_or_base_pointer ≡ allocates_base_pointer allocates)

-- Framedata records have programs, and fpo records have none.
pub record WinOk {c : RangeCrate} (file : SymbolFile c) : Type 0 where
  pub programs :
      (addr : ℕ) (info : StackInfoWin)
      → c.get file.win_stack_framedata_info addr ≡ some info
      → HasProgram info
  pub base_pointers :
      (addr : ℕ) (info : StackInfoWin)
      → c.get file.win_stack_fpo_info addr ≡ some info
      → HasNoProgram info

-- Without overflow checks, any state of any walker returns from a file with records of their kinds.
module _ {c : RangeCrate} (file : SymbolFile c) (kinds : WinOk file) {S : Type 0}
    (w : FrameWalker S) where
  walk_win-unchecked : (addr : ℕ) (s : S) → Survives (walk_win file w false addr s)
  unfolding walk_win
  walk_win-unchecked addr s =
      framedata (c.get file.win_stack_framedata_info addr) (kinds.programs addr)
        (fpo (c.get file.win_stack_fpo_info addr) (kinds.base_pointers addr))
    where
      fpo :
          (o : Option StackInfoWin)
          → ((info : StackInfoWin) → o ≡ some info → HasNoProgram info)
          → Survives
              (elim o [ some info ↦ walk_with_stack_win_fpo w false info s | none ↦ failed s ])
      fpo none h = λ e. cc
      fpo (some info) h =
          let (allocates, e) = h info refl in walk_with_stack_win_fpo-unchecked w info allocates s e

      framedata :
          (o : Option StackInfoWin) {other : Outcome S}
          → ((info : StackInfoWin) → o ≡ some info → HasProgram info)
          → Survives other
          → Survives
              (elim o [ some info ↦ walk_with_stack_win_framedata w false info s | none ↦ other ])
      framedata none h k = k
      framedata (some info) h k =
          let (program, e) = h info refl in
          walk_with_stack_win_framedata-unchecked w info program s e

  pub walk_frame-unchecked : (base : ℕ) (s : S) → walk_frame file w false base s ≢ panicked
  walk_frame-unchecked base s =
      walk_frame-Survives file w false base s (walk_win-unchecked (w.get_instruction s - base) s)
