-- ===== src/SymFile/Parser/Finish.antt =====
-- breakpad-symbols/src/sym_file/parser.rs: how records with sublines and the whole file are
-- finished.
pub mod Sorted
pub mod Vectors
pub mod Ready
use rust_minidump.Base.{
  arith, ◌≡◌, ◌↔◌, ℕ, ◌+◌, ◌-◌, Bool, true, false, ◌&&◌, Option, none, some, List, [], ◌∷◌, map,
  nat_eq, ltb, leb, if◌then◌else◌, Bytes, HashMap, PartialEq, u64_mod, checked_add, ◌>>=◌,
}
use rust_minidump.Ranges.{Range, RangeCrate, Entries}
use rust_minidump.RangeMapSafe.{rev_onto, into_rangemap_safe, into_rangemap_safe_opt}
use rust_minidump.RangeMapSafe.Sort.{sort_by_key}
use rust_minidump.SymFile.Types.{
  PublicSymbol, SourceLine, Inlinee, Function, CfiRules, StackInfoCfi, StackInfoWin, WinFrameType,
  SymbolFile, function_memory_range, cfi_memory_range,
}

pub data Info : Type 0 where
  url : Bytes → Info
  unknown : Info

pub data Line (c : RangeCrate) : Type 0 where
  module_line : Bytes → Bytes → Bytes → Bytes → Line c
  info : Info → Line c
  file inline_origin : ℕ → Bytes → Line c
  public : PublicSymbol → Line c
  function : Function c → List SourceLine → List Inlinee → Line c
  stack_win : WinFrameType → Line c
  stack_cfi : StackInfoCfi → Line c

-- The four vectors of entries are kept last element first.
pub record SymbolParser (c : RangeCrate) : Type 0 where
  pub module_id : Bytes
  pub debug_file : Bytes
  pub files : HashMap ℕ Bytes
  pub inline_origins : HashMap ℕ Bytes
  pub publics : List PublicSymbol
  pub functions : Entries (Function c)
  pub cfi_stack_info : Entries StackInfoCfi
  pub win_stack_framedata_info : Entries StackInfoWin
  pub win_stack_fpo_info : Entries StackInfoWin
  pub url : Option Bytes
  pub lines : ℕ
  pub cur_item : Option (Line c)

-- The derived orders compare the fields one after the other.
abbrev pub lex : ℕ → ℕ → Bool → Bool
lex a b rest = if ltb a b then true else if ltb b a then false else rest

abbrev pub bytes_le : Bytes → Bytes → Bool
bytes_le [] bs = true
bytes_le (a ∷ as') [] = false
bytes_le (a ∷ as') (b ∷ bs) = let rest = bytes_le as' bs in lex a b rest

abbrev pub inlinee_le : Inlinee → Inlinee → Bool
inlinee_le x y = lex x.depth y.depth (
    lex x.address y.address (
      lex x.size y.size
        (lex x.call_file y.call_file (lex x.call_line y.call_line (leb x.origin_id y.origin_id)))))

abbrev pub cfi_rules_le : CfiRules → CfiRules → Bool
cfi_rules_le x y = lex x.address y.address (bytes_le x.rules y.rules)

abbrev pub names_le : Bytes → Bytes → Bool → Bool
names_le a b rest = if bytes_le a b then (if bytes_le b a then rest else true) else false

abbrev pub public_le : PublicSymbol → PublicSymbol → Bool
public_le x y =
    lex x.address y.address (names_le x.name y.name (leb x.parameter_size y.parameter_size))

abbrev pub source_line_eq : SourceLine → SourceLine → Bool
source_line_eq x y =
    nat_eq x.address y.address
    && nat_eq x.size y.size
    && nat_eq x.file y.file
    && nat_eq x.line y.line

pub source_line_eq_iff : (x y : SourceLine) → (source_line_eq x y ≡ true) ↔ (x ≡ y)
source_line_eq_iff x y = (λ h. ground arith, λ h. ground arith)

instance abbrev pub SourceLine-PartialEq : PartialEq SourceLine
SourceLine-PartialEq = record { eq_iff = source_line_eq_iff; eq = source_line_eq }

-- Lines of size zero are filtered out.
abbrev pub sized_lines : List SourceLine → List SourceLine
sized_lines [] = []
sized_lines (l ∷ ls) = if ltb 0 l.size then l ∷ sized_lines ls else sized_lines ls

abbrev pub up_to : ℕ → Option ℕ → Option Range
up_to address none = none
up_to address (some end) = some (record { start = address; end = end })

abbrev pub line_entry : SourceLine → Option Range × SourceLine
line_entry l = (up_to l.address (checked_add u64_mod l.address (l.size - 1)), l)

abbrev pub push_ranged : {V : Type 0} → Option Range → V → Entries V → Entries V
push_ranged none v vec = vec
push_ranged (some range) v vec = (range, v) ∷ vec

unfoldable pub finish_cfi : StackInfoCfi → StackInfoCfi
finish_cfi cur = record cur { add_rules = sort_by_key cfi_rules_le (λ x. x) cur.add_rules }

-- Equality of the records with range maps in them is derived, with the crate's on the maps.
module _ {c : RangeCrate} ⦃function_eq : PartialEq (Function c)⦄ ⦃cfi_eq : PartialEq StackInfoCfi⦄
    ⦃win_eq : PartialEq StackInfoWin⦄ where
  -- The function with its lines in a map and its inlined calls sorted.
  unfoldable pub finish_function : Function c → List SourceLine → List Inlinee → Option (Function c)
  finish_function cur lines inlinees = do
    lines' ← into_rangemap_safe_opt c (map line_entry (sized_lines lines))
    some (record cur { lines = lines'; inlinees = sort_by_key inlinee_le (λ x. x) inlinees })

  -- `none` is a panic: of `unwrap`, or `unreachable!` for the other lines.
  unfoldable pub finish_item : Line c → SymbolParser c → Option (SymbolParser c)
  unfolding finish_function finish_cfi
  finish_item (function cur lines inlinees) p = do
    cur' ← finish_function cur lines inlinees
    some (record p { functions = push_ranged (function_memory_range cur') cur' p.functions })
  finish_item (stack_cfi cur) p = some (record p {
    cfi_stack_info =
        push_ranged (cfi_memory_range (finish_cfi cur)) (finish_cfi cur) p.cfi_stack_info;
  })
  finish_item _ p = none

  -- The pending item, which `take` removes.
  unfoldable pub finish_pending : SymbolParser c → Option (SymbolParser c)
  unfolding finish_item
  finish_pending p = elim p.cur_item [
    | some item ↦ finish_item item (record p { cur_item = none })
    | none ↦ some p
  ]

  -- The file; the statistics are 0.
  abbrev pub file_of :
      SymbolParser c
      → c.RangeMap (Function c)
      → c.RangeMap StackInfoCfi
      → c.RangeMap StackInfoWin
      → c.RangeMap StackInfoWin
      → SymbolFile c
  file_of p functions cfis framedatas fpos = record {
    module_id = p.module_id;
    debug_file = p.debug_file;
    files = p.files;
    publics = sort_by_key public_le (λ x. x) p.publics;
    functions = functions;
    inline_origins = p.inline_origins;
    cfi_stack_info = cfis;
    win_stack_framedata_info = framedatas;
    win_stack_fpo_info = fpos;
    url = p.url;
  }

  unfoldable pub bundle : SymbolParser c → Option (SymbolFile c)
  bundle p = do
    functions ← into_rangemap_safe c (rev_onto p.functions [])
    cfi_stack_info ← into_rangemap_safe c (rev_onto p.cfi_stack_info [])
    win_stack_framedata_info ← into_rangemap_safe c (rev_onto p.win_stack_framedata_info [])
    win_stack_fpo_info ← into_rangemap_safe c (rev_onto p.win_stack_fpo_info [])
    some (file_of p functions cfi_stack_info win_stack_framedata_info win_stack_fpo_info)

  unfoldable pub finish : SymbolParser c → Option (SymbolFile c)
  unfolding finish_pending bundle
  finish p = do p' ← finish_pending p; bundle p'
