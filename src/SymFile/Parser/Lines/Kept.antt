-- ===== src/SymFile/Parser/Lines/Kept.antt =====
-- Every line keeps the parser in order.
use rust_minidump.Base.{
  ◌+◌, ◌<◌, refl, Bool, true, false, Option, none, some, List, [], ◌∷◌, All, PartialEq, u32_mod,
  if◌then◌else◌, ℕ-PartialEq, ◌∙◌,
}
use rust_minidump.Ranges.{RangeCrate}
use rust_minidump.SymFile.Types.{
  SourceLine, Inlinee, Function, CfiRules, StackInfoCfi, StackInfoWin,
}
use rust_minidump.SymFile.Queries.{max_depth}
use rust_minidump.SymFile.Parser.Finish.{
  Line, module_line, info, file, inline_origin, public, function, stack_win, stack_cfi,
  SymbolParser,
}
use rust_minidump.SymFile.Parser.Finish.Ready.{IsItem, IsPending, finish_item_ok}
use rust_minidump.SymFile.Parser.Lines.{
  Parse, parsed, rejected, Subline, RawLine, counted, store_item, read_item, end_item,
  subline_or_end, rules_or_end, read_after, read_raw, parse_more,
}
use rust_minidump.SymFile.Parser.Lines.Invariant.{
  SublineOk, ItemOk, RawOk, Leaves, Leaves-then_parse, IsReading, IsIdle, reading,
  push_subline-IsReading, push_rules-IsReading, store_item-IsReading,
}

module _ {c : RangeCrate} ⦃function_eq : PartialEq (Function c)⦄ ⦃cfi_eq : PartialEq StackInfoCfi⦄
    ⦃win_eq : PartialEq StackInfoWin⦄ where
  read_item-IsReading :
      (raw : RawLine c) (p : SymbolParser c)
      → IsIdle p
      → RawOk raw
      → Leaves IsReading (read_item raw p)
  unfolding read_item
  read_item-IsReading raw p h ok = go raw.is_empty raw.item ok.item_ok
    where
      go :
          (b : Bool) (o : Option (Line c))
          → ItemOk o
          → Leaves IsReading (
              if b then parsed (counted p) else elim o as (λ _. Parse (SymbolParser c)) [
                | some item ↦ store_item item p
                | none ↦ rejected
              ])
      go true o i = reading (counted p) h
      go false none i = tt
      go false (some item) i = store_item-IsReading item p h i

  end_item-IsReading :
      (item : Line c) (raw : RawLine c) (p : SymbolParser c)
      → IsItem item
      → IsIdle p
      → RawOk raw
      → Leaves IsReading (end_item item raw p)
  end_item-IsReading item raw p i (ok, idle) raw_ok =
      let (q, made, ok', same) = finish_item_ok item p i ok in
      rw made (read_item-IsReading raw q (ok', same ∙ idle) raw_ok)

  -- A line leaves the parser in order, or is rejected; it never crashes.
  read_raw-IsReading :
      (raw : RawLine c) (p : SymbolParser c)
      → IsReading p
      → RawOk raw
      → Leaves IsReading (read_raw raw p)
  unfolding read_raw
  read_raw-IsReading raw p h raw_ok = go p.cur_item h.pending
    where
      subline :
          (o : Option Subline) (cur : Function c) (lines : List SourceLine)
          (inlinees : List Inlinee)
          → SublineOk o
          → max_depth inlinees + 2 < u32_mod
          → Leaves IsReading
              (subline_or_end o cur lines inlinees raw (record p { cur_item = none }))
      subline (some s) cur lines inlinees s_ok small =
          push_subline-IsReading s cur lines inlinees (record p { cur_item = none }) s_ok small
            h.entries
      subline none cur lines inlinees s_ok small =
          end_item-IsReading (function cur lines inlinees) raw (record p { cur_item = none }) small
            (h.entries, refl) raw_ok

      rules :
          (o : Option CfiRules) (cur : StackInfoCfi)
          → Leaves IsReading (rules_or_end o cur raw (record p { cur_item = none }))
      rules (some r) cur = push_rules-IsReading r cur (record p { cur_item = none }) h.entries
      rules none cur =
          end_item-IsReading (stack_cfi cur) raw (record p { cur_item = none }) tt (h.entries, refl)
            raw_ok

      go :
          (o : Option (Line c))
          → IsPending o
          → Leaves IsReading (read_after o raw (record p { cur_item = none }))
      go (some (function cur lines inlinees)) small =
          subline raw.func_subline cur lines inlinees raw_ok.subline_ok small
      go (some (stack_cfi cur)) i = rules raw.cfi_subline cur
      go (some (module_line a b d e)) i = absurd i
      go (some (info a)) i = absurd i
      go (some (file a b)) i = absurd i
      go (some (inline_origin a b)) i = absurd i
      go (some (public a)) i = absurd i
      go (some (stack_win a)) i = absurd i
      go none i = read_item-IsReading raw (record p { cur_item = none }) (h.entries, refl) raw_ok

  pub parse_more-IsReading :
      (raws : List (RawLine c)) (p : SymbolParser c)
      → IsReading p
      → All RawOk raws
      → Leaves IsReading (parse_more raws p)
  unfolding parse_more
  parse_more-IsReading [] p h ok = h
  parse_more-IsReading (raw ∷ raws) p h ok =
      Leaves-then_parse IsReading IsReading (read_raw raw p) _ (read_raw-IsReading raw p h ok.0)
        (λ q k. parse_more-IsReading raws q k ok.1)
