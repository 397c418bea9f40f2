-- ===== src/Tests/Equalities.antt =====
-- Derived equality at concrete types, and a parse of a file's lines.
use rust_minidump.Base.{
  ℕ, zero, suc, ◌≡◌, ◌↔◌, refl, sym, ◌∙◌, ap, Bool, true, false, ◌&&◌, Option, none, some, ◌⊎◌,
  List, [], ◌∷◌, ltb, PartialEq, ℕ-PartialEq, Bytes, Bytes-PartialEq, arith,
}
use rust_minidump.Ranges.{Range, Entries}
use rust_minidump.SymFile.Types.{
  win_memory_range, PublicSymbol, SourceLine, Inlinee, Function, CfiRules, StackInfoCfi,
  WinStackThing, program_string, allocates_base_pointer, StackInfoWin, frame_data, SymbolFile,
}
use rust_minidump.SymFile.Queries.Loops.{FileOk}
use rust_minidump.SymFile.Queries.Nearest.{IsSortedPublics}
use rust_minidump.SymFile.Queries.Unchecked.{WinOk}
use rust_minidump.SymFile.Parser.StackWin.{insert_ranged, insert_win_stack_info}
use rust_minidump.SymFile.Parser.Finish.{
  public, function, stack_win, SymbolParser, source_line_eq, source_line_eq_iff, finish_function,
}
use rust_minidump.SymFile.Parser.Lines.{
  Parse, parsed, rejected, crashed, inline_subline, line_subline, RawLine, new_parser, parse_more,
  parse_file,
}
use rust_minidump.SymFile.Parser.Lines.Ready.{parse_file_ok}
use rust_minidump.RangeMapSafe.{into_rangemap_safe_opt, rev_onto, push_valid, push_range}
use rust_minidump.RangeMapSafe.Sort.{sort_by_key}
use rust_minidump.Tests.Crates.{list_crate}
use rust_minidump.Tests.Inlines.{caller, outer, inner}
use rust_minidump.Tests.Wins.{with_program}

module _ {A : Type 0} where
  -- By the fields, as a tuple.
  by_fields :
      {B : Type 0} (f : A → B) (g : B → A) → ((x : A) → g (f x) ≡ x) → PartialEq B → PartialEq A
  by_fields f g back p = record {
    eq_iff = λ x y. (
      λ h. sym (back x) ∙ ap g ((p.eq_iff (f x) (f y)).0 h) ∙ back y,
      λ h. (p.eq_iff (f x) (f y)).1 (ap f h),
    );
    eq = λ x y. p.eq (f x) (f y);
  }

  abbrev list_eq : PartialEq A → List A → List A → Bool
  list_eq p [] [] = true
  list_eq p [] (y ∷ ys) = false
  list_eq p (x ∷ xs) [] = false
  list_eq p (x ∷ xs) (y ∷ ys) = p.eq x y && list_eq p xs ys

  list_eq_iff : (p : PartialEq A) (xs ys : List A) → (list_eq p xs ys ≡ true) ↔ (xs ≡ ys)
  list_eq_iff p [] [] = (λ h. refl, λ h. refl)
  list_eq_iff p [] (y ∷ ys) = (λ h. cc, λ h. cc)
  list_eq_iff p (x ∷ xs) [] = (λ h. cc, λ h. cc)
  list_eq_iff p (x ∷ xs) (y ∷ ys) = (
    λ h. ground (arith, p.eq_iff x y, list_eq_iff p xs ys),
    λ h. ground (arith, p.eq_iff x y, list_eq_iff p xs ys),
  )

  list_equality : PartialEq A → PartialEq (List A)
  list_equality p = record { eq_iff = list_eq_iff p; eq = list_eq p }

pair_equality : {A B : Type 0} → PartialEq A → PartialEq B → PartialEq (A × B)
pair_equality p q = record {
  eq_iff = λ x y. (
    λ h. ground (arith, p.eq_iff x.0 y.0, q.eq_iff x.1 y.1),
    λ h. ground (arith, p.eq_iff x.0 y.0, q.eq_iff x.1 y.1),
  );
  eq = λ x y. p.eq x.0 y.0 && q.eq x.1 y.1;
}

nat2 : PartialEq (ℕ × ℕ)
nat2 = pair_equality ℕ-PartialEq ℕ-PartialEq

nat4 : PartialEq ((ℕ × ℕ) × (ℕ × ℕ))
nat4 = pair_equality nat2 nat2

range_equality : PartialEq Range
range_equality =
    by_fields (λ (r : Range). (r.start, r.end)) (λ x. record { start = x.0; end = x.1 }) (λ x. refl)
      nat2

inlinee_equality : PartialEq Inlinee
inlinee_equality =
    by_fields
      (λ (x : Inlinee). (((x.depth, x.address), (x.size, x.call_file)), (x.call_line, x.origin_id)))
      (λ t. record {
        depth = t.0.0.0;
        address = t.0.0.1;
        size = t.0.1.0;
        call_file = t.0.1.1;
        call_line = t.1.0;
        origin_id = t.1.1;
      })
      (λ x. refl) (pair_equality nat4 nat2)

line_equality : PartialEq SourceLine
line_equality = record { eq_iff = source_line_eq_iff; eq = source_line_eq }

instance function_equality : PartialEq (Function list_crate)
function_equality =
    by_fields
      (λ (f : Function list_crate).
        (((f.address, f.size), (f.parameter_size, f.name)), (f.lines, f.inlinees)))
      (λ t. record {
        address = t.0.0.0;
        size = t.0.0.1;
        parameter_size = t.0.1.0;
        name = t.0.1.1;
        lines = t.1.0;
        inlinees = t.1.1;
      })
      (λ x. refl)
      (pair_equality (pair_equality nat2 (pair_equality ℕ-PartialEq Bytes-PartialEq)) (
        pair_equality (list_equality (pair_equality range_equality line_equality))
          (list_equality inlinee_equality)))

rules_equality : PartialEq CfiRules
rules_equality =
    by_fields (λ (r : CfiRules). (r.address, r.rules)) (λ t. record { address = t.0; rules = t.1 })
      (λ x. refl) (pair_equality ℕ-PartialEq Bytes-PartialEq)

instance cfi_equality : PartialEq StackInfoCfi
cfi_equality =
    by_fields (λ (s : StackInfoCfi). ((s.init, s.size), s.add_rules))
      (λ t. record { init = t.0.0; size = t.0.1; add_rules = t.1 }) (λ x. refl)
      (pair_equality (pair_equality rules_equality ℕ-PartialEq) (list_equality rules_equality))

-- A number and a text stand for either kind.
thing_equality : PartialEq WinStackThing
thing_equality = by_fields fields thing fields_back (pair_equality ℕ-PartialEq Bytes-PartialEq)
  where
    fields : WinStackThing → ℕ × Bytes
    fields (program_string s) = (0, s)
    fields (allocates_base_pointer false) = (1, [])
    fields (allocates_base_pointer true) = (2, [])

    thing : ℕ × Bytes → WinStackThing
    thing (zero, s) = program_string s
    thing (suc n, s) = allocates_base_pointer (ltb 0 n)

    fields_back : (x : WinStackThing) → thing (fields x) ≡ x
    fields_back (program_string s) = refl
    fields_back (allocates_base_pointer false) = refl
    fields_back (allocates_base_pointer true) = refl

instance win_equality : PartialEq StackInfoWin
win_equality =
    by_fields
      (λ (s : StackInfoWin). (
        (
          ((s.address, s.size), (s.prologue_size, s.epilogue_size)),
          ((s.parameter_size, s.saved_register_size), (s.local_size, s.max_stack_size)),
        ),
        s.program_string_or_base_pointer,
      ))
      (λ t. record {
        address = t.0.0.0.0;
        size = t.0.0.0.1;
        prologue_size = t.0.0.1.0;
        epilogue_size = t.0.0.1.1;
        parameter_size = t.0.1.0.0;
        saved_register_size = t.0.1.0.1;
        local_size = t.0.1.1.0;
        max_stack_size = t.0.1.1.1;
        program_string_or_base_pointer = t.1;
      })
      (λ x. refl) (pair_equality (pair_equality nat4 nat4) thing_equality)

-- A FUNC with a line and two inlined calls, a STACK WIN record that ends it, and a PUBLIC symbol.
abbrev no_line : RawLine list_crate
no_line = record { func_subline = none; cfi_subline = none; is_empty = false; item = none }

abbrev raw_lines : List (RawLine list_crate)
raw_lines =
    record no_line { item = some (function caller [] []) }
    ∷ record no_line {
      func_subline = some (line_subline (record { address = 100; size = 0; file = 1; line = 2 }));
    }
    ∷ record no_line { func_subline = some (inline_subline (inner ∷ outer ∷ [])) }
    ∷ record no_line { item = some (stack_win (frame_data with_program)) }
    ∷ record no_line { is_empty = true }
    ∷ record no_line {
      item = some (public (record { address = 3; name = []; parameter_size = 0 }));
    }
    ∷ []

-- What two of a file's vectors hold, and how many lines were read.
abbrev summary :
    Parse (SymbolParser list_crate) → Option (List PublicSymbol × Entries StackInfoWin × ℕ)
summary (parsed p) = some (p.publics, p.win_stack_framedata_info, p.lines)
summary rejected = none
summary crashed = none

run_parse_more :
    summary (parse_more raw_lines new_parser)
    ≡ some (
      record { address = 3; name = []; parameter_size = 0 } ∷ [],
      (record { start = 16; end = 79 }, with_program) ∷ [],
      6,
    )
unfolding parse_more finish_function into_rangemap_safe_opt rev_onto push_valid sort_by_key
    push_range insert_win_stack_info win_memory_range insert_ranged
run_parse_more = refl

parse_file_ok_example :
    ((out : SymbolFile list_crate) × (parse_file raw_lines ≡ parsed out)
      × FileOk out
      × WinOk out
      × IsSortedPublics out.publics)
    ⊎ (parse_file raw_lines ≡ rejected)
parse_file_ok_example = parse_file_ok raw_lines (
  record { subline_ok = tt; item_ok = refl },
  (
    record { subline_ok = tt; item_ok = tt },
    (
      record { subline_ok = (omega arith, (omega arith, tt)); item_ok = tt },
      (
        record { subline_ok = tt; item_ok = (omega arith, (_, refl)) },
        (record { subline_ok = tt; item_ok = tt }, (record { subline_ok = tt; item_ok = tt }, tt)),
      ),
    ),
  ),
)
