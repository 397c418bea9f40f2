-- ===== src/SymFile/Parser/Lines.antt =====
-- breakpad-symbols/src/sym_file/parser.rs `parse_more`: what the parser does with the lines of a file.
-- What the line parsers make of a line's text is given with the line.
pub mod Invariant
pub mod Kept
pub mod Ready
use rust_minidump.Base.{
  ℕ, ◌+◌, Bool, Option, none, some, List, [], ◌∷◌, ◌++◌, Bytes, insert, ℕ-PartialEq, PartialEq,
  nat_eq, if◌then◌else◌,
}
use rust_minidump.Ranges.{RangeCrate, Entries}
use rust_minidump.SymFile.Types.{
  SourceLine, Inlinee, Function, CfiRules, StackInfoCfi, StackInfoWin, SymbolFile, WinFrameType,
  frame_data, fpo, unhandled,
}
use rust_minidump.SymFile.Parser.StackWin.{insert_win_stack_info}
use rust_minidump.SymFile.Parser.Finish.{
  Line, module_line, info, file, inline_origin, public, function, stack_win, stack_cfi, url,
  unknown, SymbolParser, finish_item, finish,
}

-- How a parse ends: with a value, with an error, or in a panic.
pub data Parse (A : Type 0) : Type 0 where
  parsed : A → Parse A
  rejected crashed : Parse A

abbrev pub then_parse : {A B : Type 0} → Parse A → (A → Parse B) → Parse B
then_parse (parsed a) k = k a
then_parse rejected k = rejected
then_parse crashed k = crashed

abbrev pub unless_crash : {A : Type 0} → Option A → Parse A
unless_crash (some a) = parsed a
unless_crash none = crashed

-- The three kinds of sublines of a FUNC.
pub data Subline : Type 0 where
  origin_subline : ℕ → Bytes → Subline
  inline_subline : List Inlinee → Subline
  line_subline : SourceLine → Subline

-- A line, as each of the line parsers reads it.
pub record RawLine (c : RangeCrate) : Type 0 where
  pub func_subline : Option Subline
  pub cfi_subline : Option CfiRules
  pub is_empty : Bool
  pub item : Option (Line c)

-- `SymbolParser::new`
abbrev pub new_parser : {c : RangeCrate} → SymbolParser c
new_parser = record {
  module_id = [];
  debug_file = [];
  files = [];
  inline_origins = [];
  publics = [];
  functions = [];
  cfi_stack_info = [];
  win_stack_framedata_info = [];
  win_stack_fpo_info = [];
  url = none;
  lines = 0;
  cur_item = none;
}

-- `self.lines += 1`; there are fewer than 2 ^ 64 lines.
abbrev pub counted : {c : RangeCrate} → SymbolParser c → SymbolParser c
counted p = record p { lines = p.lines + 1 }

module _ {c : RangeCrate} ⦃function_eq : PartialEq (Function c)⦄ ⦃cfi_eq : PartialEq StackInfoCfi⦄
    ⦃win_eq : PartialEq StackInfoWin⦄ where
  -- The effects of `parse_func_subline`, and the item put back.
  unfoldable pub push_subline :
      Subline → Function c → List SourceLine → List Inlinee → SymbolParser c → SymbolParser c
  push_subline (origin_subline id name) cur lines inlinees p = counted (record p {
    inline_origins = insert p.inline_origins id name;
    cur_item = some (function cur lines inlinees);
  })
  push_subline (inline_subline new) cur lines inlinees p =
      counted (record p { cur_item = some (function cur lines (inlinees ++ new)) })
  push_subline (line_subline l) cur lines inlinees p =
      counted (record p { cur_item = some (function cur (lines ++ l ∷ []) inlinees) })

  unfoldable pub push_rules : CfiRules → StackInfoCfi → SymbolParser c → SymbolParser c
  push_rules rules cur p = counted (record p {
    cur_item = some (stack_cfi (record cur { add_rules = cur.add_rules ++ rules ∷ [] }));
  })

  abbrev pub with_framedata : SymbolParser c → Entries StackInfoWin → SymbolParser c
  with_framedata p entries = counted (record p { win_stack_framedata_info = entries })

  abbrev pub with_fpo : SymbolParser c → Entries StackInfoWin → SymbolParser c
  with_fpo p entries = counted (record p { win_stack_fpo_info = entries })

  -- Storing an item: at once, or as the current item if it can have sublines.
  unfoldable pub store_item : Line c → SymbolParser c → Parse (SymbolParser c)
  store_item (module_line os arch module_id debug_file) p =
      if nat_eq p.lines 0
      then parsed (counted (record p { module_id = module_id; debug_file = debug_file }))
      else rejected
  store_item (info (url cached_url)) p = parsed (counted (record p { url = some cached_url }))
  store_item (info unknown) p = parsed (counted p)
  store_item (file id name) p = parsed (counted (record p { files = insert p.files id name }))
  store_item (inline_origin id name) p =
      parsed (counted (record p { inline_origins = insert p.inline_origins id name }))
  store_item (public symbol) p = parsed (counted (record p { publics = p.publics ++ symbol ∷ [] }))
  store_item (stack_win (frame_data s)) p =
      then_parse (unless_crash (insert_win_stack_info c p.win_stack_framedata_info s))
        λ entries. parsed (with_framedata p entries)
  store_item (stack_win (fpo s)) p =
      then_parse (unless_crash (insert_win_stack_info c p.win_stack_fpo_info s))
        λ entries. parsed (with_fpo p entries)
  store_item (stack_win unhandled) p = parsed (counted p)
  store_item (function cur lines inlinees) p =
      parsed (counted (record p { cur_item = some (function cur lines inlinees) }))
  store_item (stack_cfi cur) p = parsed (counted (record p { cur_item = some (stack_cfi cur) }))

  -- A line at top level.
  unfoldable pub read_item : RawLine c → SymbolParser c → Parse (SymbolParser c)
  unfolding store_item
  read_item raw p =
      if raw.is_empty then parsed (counted p) else elim raw.item as (λ _. Parse (SymbolParser c)) [
        | some item ↦ store_item item p
        | none ↦ rejected
      ]

  -- A line that is no subline of the item ends it, and is read again at top level.
  abbrev pub end_item : Line c → RawLine c → SymbolParser c → Parse (SymbolParser c)
  end_item item raw p = then_parse (unless_crash (finish_item item p)) λ q. read_item raw q

  abbrev pub subline_or_end :
      Option Subline
      → Function c
      → List SourceLine
      → List Inlinee
      → RawLine c
      → SymbolParser c
      → Parse (SymbolParser c)
  subline_or_end (some s) cur lines inlinees raw p = parsed (push_subline s cur lines inlinees p)
  subline_or_end none cur lines inlinees raw p = end_item (function cur lines inlinees) raw p

  abbrev pub rules_or_end :
      Option CfiRules → StackInfoCfi → RawLine c → SymbolParser c → Parse (SymbolParser c)
  rules_or_end (some rules) cur raw p = parsed (push_rules rules cur p)
  rules_or_end none cur raw p = end_item (stack_cfi cur) raw p

  -- The current item has been taken.
  abbrev pub read_after : Option (Line c) → RawLine c → SymbolParser c → Parse (SymbolParser c)
  read_after (some (function cur lines inlinees)) raw p =
      subline_or_end raw.func_subline cur lines inlinees raw p
  read_after (some (stack_cfi cur)) raw p = rules_or_end raw.cfi_subline cur raw p
  read_after (some (module_line a b d e)) raw p = read_item raw p
  read_after (some (info a)) raw p = read_item raw p
  read_after (some (file a b)) raw p = read_item raw p
  read_after (some (inline_origin a b)) raw p = read_item raw p
  read_after (some (public a)) raw p = read_item raw p
  read_after (some (stack_win a)) raw p = read_item raw p
  read_after none raw p = read_item raw p

  unfoldable pub read_raw : RawLine c → SymbolParser c → Parse (SymbolParser c)
  unfolding push_subline push_rules read_item finish_item
  read_raw raw p = read_after p.cur_item raw (record p { cur_item = none })

  -- The lines in order.
  unfoldable pub parse_more : List (RawLine c) → SymbolParser c → Parse (SymbolParser c)
  unfolding read_raw
  parse_more [] p = parsed p
  parse_more (raw ∷ raws) p = then_parse (read_raw raw p) λ q. parse_more raws q

  -- A whole file.
  unfoldable pub parse_file : List (RawLine c) → Parse (SymbolFile c)
  unfolding parse_more finish
  parse_file raws = then_parse (parse_more raws new_parser) λ p. unless_crash (finish p)
