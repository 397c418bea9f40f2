-- ===== src/SymFile/Parser/Lines/Invariant.antt =====
-- What holds of the parser after every line.
use rust_minidump.Base.{
  ◌+◌, ◌<◌, ◌≡◌, Bool, true, false, Option, none, some, List, [], ◌∷◌, ◌++◌, All, PartialEq,
  u32_mod, nat_eq, if◌then◌else◌, arith, insert, ℕ-PartialEq, sym, subst,
}
use rust_minidump.Ranges.{RangeCrate}
use rust_minidump.SymFile.Types.{
  SourceLine, Inlinee, Function, CfiRules, StackInfoCfi, StackInfoWin, frame_data, fpo, unhandled,
}
use rust_minidump.SymFile.Queries.{max_depth}
use rust_minidump.SymFile.Queries.Unchecked.{HasProgram, HasNoProgram}
use rust_minidump.SymFile.Parser.StackWin.Kinds.{insert_kept}
use rust_minidump.SymFile.Parser.Finish.{
  Line, module_line, info, file, inline_origin, public, function, stack_win, stack_cfi, url,
  unknown, SymbolParser,
}
use rust_minidump.SymFile.Parser.Finish.Ready.{IsPending, ParserOk}
use rust_minidump.SymFile.Parser.Lines.{
  Parse, parsed, rejected, crashed, then_parse, Subline, origin_subline, inline_subline,
  line_subline, RawLine, counted, push_subline, push_rules, with_framedata, with_fpo, store_item,
}

-- Depths of inlined calls, so that counting past the deepest one does not overflow.
abbrev pub IsDepth : Inlinee → Type 0
IsDepth x = x.depth + 2 < u32_mod

abbrev pub SublineOk : Option Subline → Type 0
SublineOk (some (inline_subline new)) = All IsDepth new
SublineOk _ = Unit {0}

-- What the line parsers give: FUNC items have no sublines yet, sizes fit 32 bits, and a STACK WIN
-- record is of its kind.
abbrev pub ItemOk : {c : RangeCrate} → Option (Line c) → Type 0
ItemOk (some (function cur lines inlinees)) = inlinees ≡ []
ItemOk (some (stack_win (frame_data s))) = (s.size < u32_mod) × HasProgram s
ItemOk (some (stack_win (fpo s))) = (s.size < u32_mod) × HasNoProgram s
ItemOk _ = Unit {0}

pub record RawOk {c : RangeCrate} (raw : RawLine c) : Type 0 where
  pub subline_ok : SublineOk raw.func_subline
  pub item_ok : ItemOk raw.item

max_depth-append :
    (xs ys : List Inlinee)
    → max_depth xs + 2 < u32_mod
    → All IsDepth ys
    → max_depth (xs ++ ys) + 2 < u32_mod
max_depth-append [] [] h k = omega arith
max_depth-append [] (y ∷ ys) h k = ground (arith, max_depth-append [] ys h k.1, k.0)
max_depth-append (x ∷ xs) ys h k = ground (arith, h, max_depth-append xs ys (omega (arith, h)) k)

-- The parse goes on with a parser of which `P` holds, or is rejected; it does not crash.
abbrev pub Leaves : {A : Type 0} → (A → Type 0) → Parse A → Type 0
Leaves P (parsed a) = P a
Leaves P rejected = Unit {0}
Leaves P crashed = ⊥

pub Leaves-then_parse :
    {A B : Type 0} (P : A → Type 0) (Q : B → Type 0) (r : Parse A) (k : A → Parse B)
    → Leaves P r
    → ((a : A) → P a → Leaves Q (k a))
    → Leaves Q (then_parse r k)
Leaves-then_parse P Q (parsed a) k h f = f a h
Leaves-then_parse P Q rejected k h f = tt
Leaves-then_parse P Q crashed k h f = absurd h

module _ {c : RangeCrate} ⦃function_eq : PartialEq (Function c)⦄ ⦃cfi_eq : PartialEq StackInfoCfi⦄
    ⦃win_eq : PartialEq StackInfoWin⦄ where
  -- Between two lines: the vectors hold what they should, and the current item has sublines.
  pub record IsReading (p : SymbolParser c) : Type 0 where
    pub entries : ParserOk p
    pub pending : IsPending p.cur_item

  -- What is read while there is no current item.
  abbrev pub IsIdle : SymbolParser c → Type 0
  IsIdle p = ParserOk p × (p.cur_item ≡ none)

  pub reading : (p : SymbolParser c) → IsIdle p → IsReading p
  reading p (ok, idle) = record { entries = ok; pending = subst IsPending (sym idle) tt }

  pub push_subline-IsReading :
      (s : Subline) (cur : Function c) (lines : List SourceLine) (inlinees : List Inlinee)
      (p : SymbolParser c)
      → SublineOk (some s)
      → max_depth inlinees + 2 < u32_mod
      → ParserOk p
      → IsReading (push_subline s cur lines inlinees p)
  unfolding push_subline
  push_subline-IsReading (origin_subline id name) cur lines inlinees p h small ok = record {
    entries = ok;
    pending = small;
  }
  push_subline-IsReading (inline_subline new) cur lines inlinees p h small ok = record {
    entries = ok;
    pending = max_depth-append inlinees new small h;
  }
  push_subline-IsReading (line_subline l) cur lines inlinees p h small ok = record {
    entries = ok;
    pending = small;
  }

  pub push_rules-IsReading :
      (rules : CfiRules) (cur : StackInfoCfi) (p : SymbolParser c)
      → ParserOk p
      → IsReading (push_rules rules cur p)
  unfolding push_rules
  push_rules-IsReading rules cur p ok = record { entries = ok; pending = tt }

  store_framedata :
      (s : StackInfoWin) (p : SymbolParser c)
      → IsIdle p
      → (s.size < u32_mod) × HasProgram s
      → Leaves IsReading (store_item (stack_win (frame_data s)) p)
  unfolding store_item
  store_framedata s p (ok, idle) (fits, has) =
      let (entries, made, coherent, kinds) =
        insert_kept HasProgram (λ info n h. h) c p.win_stack_framedata_info s ok.framedatas_ok
          ok.programs fits has in
      rw made (
        reading (with_framedata p entries) (
          record {
            functions_ok = ok.functions_ok;
            cfis_ok = ok.cfis_ok;
            framedatas_ok = coherent;
            fpos_ok = ok.fpos_ok;
            programs = kinds;
            base_pointers = ok.base_pointers;
          },
          idle,
        ))

  store_fpo :
      (s : StackInfoWin) (p : SymbolParser c)
      → IsIdle p
      → (s.size < u32_mod) × HasNoProgram s
      → Leaves IsReading (store_item (stack_win (fpo s)) p)
  unfolding store_item
  store_fpo s p (ok, idle) (fits, has) =
      let (entries, made, coherent, kinds) =
        insert_kept HasNoProgram (λ info n h. h) c p.win_stack_fpo_info s ok.fpos_ok
          ok.base_pointers fits has in
      rw made (
        reading (with_fpo p entries) (
          record {
            functions_ok = ok.functions_ok;
            cfis_ok = ok.cfis_ok;
            framedatas_ok = ok.framedatas_ok;
            fpos_ok = coherent;
            programs = ok.programs;
            base_pointers = kinds;
          },
          idle,
        ))

  pub store_item-IsReading :
      (item : Line c) (p : SymbolParser c)
      → IsIdle p
      → ItemOk (some item)
      → Leaves IsReading (store_item item p)
  unfolding store_item
  store_item-IsReading (module_line os arch module_id debug_file) p h i =
      go (nat_eq p.lines 0)
        (reading (counted (record p { module_id = module_id; debug_file = debug_file })) h)
    where
      go :
          (b : Bool) {q : SymbolParser c}
          → IsReading q
          → Leaves IsReading (if b then parsed q else rejected)
      go true k = k
      go false k = tt
  store_item-IsReading (info (url u)) p h i = reading (counted (record p { url = some u })) h
  store_item-IsReading (info unknown) p h i = reading (counted p) h
  store_item-IsReading (file id name) p h i =
      reading (counted (record p { files = insert p.files id name })) h
  store_item-IsReading (inline_origin id name) p h i =
      reading (counted (record p { inline_origins = insert p.inline_origins id name })) h
  store_item-IsReading (public symbol) p h i =
      reading (counted (record p { publics = p.publics ++ symbol ∷ [] })) h
  store_item-IsReading (stack_win (frame_data s)) p h i = store_framedata s p h i
  store_item-IsReading (stack_win (fpo s)) p h i = store_fpo s p h i
  store_item-IsReading (stack_win unhandled) p h i = reading (counted p) h
  store_item-IsReading (function cur lines inlinees) p h i = record {
    entries = h.0;
    pending = subst (λ (l : List Inlinee). max_depth l + 2 < u32_mod) (sym i) (omega arith);
  }
  store_item-IsReading (stack_cfi cur) p h i = record { entries = h.0; pending = tt }
