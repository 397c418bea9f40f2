-- ===== src/Tests/StackWins.antt =====
-- STACK WIN records whose lengths each cover the rest of the function.
use rust_minidump.Base.{ℕ, ◌≡◌, refl, false, some, [], ◌∷◌, arith}
use rust_minidump.Ranges.{Range}
use rust_minidump.SymFile.Types.{StackInfoWin, win_memory_range, allocates_base_pointer}
use rust_minidump.SymFile.Parser.StackWin.{insert_win_stack_info, insert_ranged, cut_last}
use rust_minidump.SymFile.Parser.StackWin.Coherent.{
  IsCoherent, inserted_if, insert_win_stack_info_total,
}
use rust_minidump.Tests.Crates.{list_crate}

abbrev win_record : ℕ → ℕ → StackInfoWin
win_record address size = record {
  address = address;
  size = size;
  prologue_size = 0;
  epilogue_size = 0;
  parameter_size = 0;
  saved_register_size = 0;
  local_size = 0;
  max_stack_size = 0;
  program_string_or_base_pointer = allocates_base_pointer false;
}

abbrev entry : ℕ → ℕ → ℕ → Range × StackInfoWin
entry address end size = (record { start = address; end = end }, win_record address size)

-- addr 1, len 9 after addr 0, len 10
cut_example :
    insert_win_stack_info list_crate (entry 0 9 10 ∷ []) (win_record 1 9)
    ≡ some (entry 1 9 9 ∷ entry 0 0 1 ∷ [])
unfolding insert_win_stack_info insert_ranged cut_last win_memory_range
cut_example = refl

first-IsCoherent : IsCoherent (entry 0 9 10 ∷ [])
unfolding win_memory_range
first-IsCoherent = ((refl, omega arith), tt)

insert_win_stack_info_total_example :
    (insert_win_stack_info list_crate (entry 0 9 10 ∷ []) (win_record 1 9)
      ≡ some (
          inserted_if list_crate
            (entry 0 9 10 ∷ [])
            (win_memory_range (win_record 1 9))
            (win_record 1 9)))
    × IsCoherent (
        inserted_if list_crate
          (entry 0 9 10 ∷ [])
          (win_memory_range (win_record 1 9))
          (win_record 1 9))
insert_win_stack_info_total_example =
    insert_win_stack_info_total list_crate (entry 0 9 10 ∷ []) (win_record 1 9) first-IsCoherent
      (omega arith)
