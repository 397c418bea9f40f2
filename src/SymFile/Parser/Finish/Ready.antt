-- ===== src/SymFile/Parser/Finish/Ready.antt =====
-- A finished file is in the order that its queries rely on.
use rust_minidump.Base.{
  ℕ, ◌+◌, ◌<◌, ◌≤◌, ◌≡◌, refl, ap, ◌∙◌, Option, none, some, List, [], ◌∷◌, map, All, PartialEq,
  u32_mod, ◌>>=◌, arith,
}
use rust_minidump.Ranges.{Range, Inside, RangeCrate, Entries}
use rust_minidump.RangeMapSafe.Sort.{sort_by_key}
use rust_minidump.RangeMapSafe.Finished.{
  valid_entries, into_rangemap_safe_total, into_rangemap_safe_sound,
}
use rust_minidump.RangeMapSafe.Agreement.{into_rangemap_safe_agree}
use rust_minidump.SymFile.Types.{
  SourceLine, Inlinee, Function, StackInfoCfi, StackInfoWin, SymbolFile, function_memory_range,
  cfi_memory_range, win_memory_range,
}
use rust_minidump.SymFile.Types.MemoryRange.{range_of_size_iff, range_of_size-IsRange}
use rust_minidump.SymFile.Queries.{max_depth}
use rust_minidump.SymFile.Queries.Loops.{FunctionOk, FileOk}
use rust_minidump.SymFile.Queries.Nearest.{IsSortedPublics}
use rust_minidump.SymFile.Queries.Unchecked.{HasProgram, HasNoProgram, WinOk}
use rust_minidump.SymFile.Parser.StackWin.Coherent.{IsCoherent}
use rust_minidump.RangeMapSafe.{rev_onto, into_rangemap_safe}
use rust_minidump.SymFile.Parser.Finish.{
  Line, module_line, info, file, inline_origin, public, stack_win, function, stack_cfi,
  SymbolParser, inlinee_le, SourceLine-PartialEq, sized_lines, line_entry, push_ranged,
  finish_function, finish_cfi, finish_item, finish_pending, file_of, bundle, finish,
}
use rust_minidump.SymFile.Parser.Finish.Sorted.{sorted_inlinees, sorted_publics, sorted_depth}
use rust_minidump.SymFile.Parser.Finish.Vectors.{
  push_ranged-All, into_rangemap_safe_vec, line_ranges, Covers-line,
}

All-both : {A : Type 0} (P Q : A → Type 0) (l : List A) → All P l → All Q l → All (λ x. P x × Q x) l
All-both P Q [] h k = tt
All-both P Q (x ∷ xs) h k = ((h.0, k.0), All-both P Q xs h.1 k.1)

abbrev pub HasCfiRange : Range × StackInfoCfi → Type 0
HasCfiRange x = cfi_memory_range x.1 ≡ some x.0

-- What the map of STACK WIN entries gives is of its kind.
win_map :
    (c : RangeCrate) ⦃win_eq : PartialEq StackInfoWin⦄ (P : StackInfoWin → Type 0)
    (entries : Entries StackInfoWin)
    → IsCoherent entries
    → All (λ x. P x.1) entries
    → (m : c.RangeMap StackInfoWin) × (into_rangemap_safe c (rev_onto entries []) ≡ some m)
      × ((addr : ℕ) (info : StackInfoWin) → c.get m addr ≡ some info → P info)
unfolding win_memory_range
win_map c P entries coherent kinds =
    let (m, made, found) =
      into_rangemap_safe_vec c
        (λ x. ((win_memory_range x.1 ≡ some x.0) × (x.1.size < u32_mod)) × P x.1)
        (λ x h. range_of_size-IsRange x.1.address x.1.size x.0 h.0.0) entries
        (All-both (λ x. (win_memory_range x.1 ≡ some x.0) × (x.1.size < u32_mod)) (λ x. P x.1)
          entries coherent kinds) in
    (m, made, λ addr info e. let (r, within, has) = found addr info e in has.1)

module _ {c : RangeCrate} ⦃function_eq : PartialEq (Function c)⦄ ⦃cfi_eq : PartialEq StackInfoCfi⦄
    ⦃win_eq : PartialEq StackInfoWin⦄ where
  -- The depths of an item's inlined calls fit; only items with sublines are kept.
  abbrev pub IsItem : Line c → Type 0
  IsItem (function cur lines inlinees) = max_depth inlinees + 2 < u32_mod
  IsItem (stack_cfi cur) = Unit
  IsItem _ = ⊥

  abbrev pub IsPending : Option (Line c) → Type 0
  IsPending none = Unit
  IsPending (some item) = IsItem item

  abbrev pub HasFunction : Range × Function c → Type 0
  HasFunction x = (function_memory_range x.1 ≡ some x.0) × FunctionOk x.1

  -- Every entry has its record's range, the functions are finished, and the STACK WIN records are of
  -- their kinds.
  pub record IsParsed (functions : Entries (Function c)) (cfis : Entries StackInfoCfi)
      (framedatas fpos : Entries StackInfoWin) : Type 0 where
    pub functions_ok : All HasFunction functions
    pub cfis_ok : All HasCfiRange cfis
    pub framedatas_ok : IsCoherent framedatas
    pub fpos_ok : IsCoherent fpos
    pub programs : All (λ x. HasProgram x.1) framedatas
    pub base_pointers : All (λ x. HasNoProgram x.1) fpos

  abbrev pub ParserOk : SymbolParser c → Type 0
  ParserOk p = IsParsed p.functions p.cfi_stack_info p.win_stack_framedata_info p.win_stack_fpo_info

  finish_function_ok :
      (cur : Function c) (lines : List SourceLine) (inlinees : List Inlinee)
      → max_depth inlinees + 2 < u32_mod
      → (f : Function c) × (finish_function cur lines inlinees ≡ some f) × FunctionOk f
  unfolding finish_function
  finish_function_ok cur lines inlinees small =
      let entries = map line_entry (sized_lines lines) in
      let (m, made, normal) =
        into_rangemap_safe_total c (valid_entries entries) (line_ranges lines) in
      let sorted = sort_by_key inlinee_le (λ x. x) inlinees in
      let done = record cur { lines = m; inlinees = sorted } in
      (
        done,
        ap
            (λ (o : Option (c.RangeMap SourceLine)).
              o >>= λ l. some (record cur { lines = l; inlinees = sorted }))
            (into_rangemap_safe_agree c entries ∙ made),
        (
          sorted_inlinees inlinees,
          omega (arith, sorted_depth inlinees, small),
          λ addr line e. Covers-line lines addr line (
              into_rangemap_safe_sound c (valid_entries entries) m addr line (line_ranges lines)
                made e),
        ),
      )

  -- Finishing an item never panics, and keeps the entries in order.
  pub finish_item_ok :
      (item : Line c) (p : SymbolParser c)
      → IsItem item
      → ParserOk p
      → (q : SymbolParser c) × (finish_item item p ≡ some q)
        × ParserOk q
        × (q.cur_item ≡ p.cur_item)
  unfolding finish_item
  finish_item_ok (function cur lines inlinees) p small ok =
      let (f, made, done) = finish_function_ok cur lines inlinees small in
      (
        record p { functions = push_ranged (function_memory_range f) f p.functions },
        ap
            (λ (o : Option (Function c)). o >>= λ g.
              some (record p { functions = push_ranged (function_memory_range g) g p.functions }))
            made,
        record {
          functions_ok =
              push_ranged-All HasFunction (function_memory_range f) f p.functions (λ r e. (e, done))
                ok.functions_ok;
          cfis_ok = ok.cfis_ok;
          framedatas_ok = ok.framedatas_ok;
          fpos_ok = ok.fpos_ok;
          programs = ok.programs;
          base_pointers = ok.base_pointers;
        },
        refl,
      )
  finish_item_ok (stack_cfi cur) p i ok = (
    _,
    refl,
    record {
      functions_ok = ok.functions_ok;
      framedatas_ok = ok.framedatas_ok;
      fpos_ok = ok.fpos_ok;
      programs = ok.programs;
      base_pointers = ok.base_pointers;
      cfis_ok =
          push_ranged-All HasCfiRange (cfi_memory_range (finish_cfi cur)) (finish_cfi cur)
            p.cfi_stack_info (λ r e. e) ok.cfis_ok;
    },
    refl,
  )
  finish_item_ok (module_line a b d e) p i ok = absurd i
  finish_item_ok (info a) p i ok = absurd i
  finish_item_ok (file a b) p i ok = absurd i
  finish_item_ok (inline_origin a b) p i ok = absurd i
  finish_item_ok (public a) p i ok = absurd i
  finish_item_ok (stack_win a) p i ok = absurd i

  finish_pending_ok :
      (p : SymbolParser c)
      → IsPending p.cur_item
      → ParserOk p
      → (q : SymbolParser c) × (finish_pending p ≡ some q) × ParserOk q
  unfolding finish_pending
  finish_pending_ok p pending ok = go p.cur_item pending
    where
      go :
          (o : Option (Line c))
          → IsPending o
          → (q : SymbolParser c) × (elim o as (λ _. Option (SymbolParser c)) [
            | some item ↦ finish_item item (record p { cur_item = none })
            | none ↦ some p
          ]
              ≡ some q)
            × ParserOk q
      go none i = (p, refl, ok)
      go (some item) i =
          let (q, made, done, same) = finish_item_ok item (record p { cur_item = none }) i ok in
          (q, made, done)

  function_start :
      (f : Function c) (r : Range) (addr : ℕ)
      → function_memory_range f ≡ some r
      → Inside addr r
      → f.address ≤ addr
  unfolding function_memory_range
  function_start f r addr h within = ground (arith, ((range_of_size_iff f.address f.size r).0 h).2)

  bundle_ok :
      (p : SymbolParser c)
      → ParserOk p
      → (out : SymbolFile c) × (bundle p ≡ some out)
        × FileOk out
        × WinOk out
        × IsSortedPublics out.publics
  unfolding bundle function_memory_range cfi_memory_range
  bundle_ok p ok =
      let (functions, made1, found) =
        into_rangemap_safe_vec c HasFunction
          (λ x h. range_of_size-IsRange x.1.address x.1.size x.0 h.0) p.functions ok.functions_ok in
      let (cfis, made2, found2) =
        into_rangemap_safe_vec c HasCfiRange
          (λ x h. range_of_size-IsRange x.1.init.address x.1.size x.0 h) p.cfi_stack_info
          ok.cfis_ok in
      let (framedatas, made3, programs) =
        win_map c HasProgram p.win_stack_framedata_info ok.framedatas_ok ok.programs in
      let (fpos, made4, base_pointers) =
        win_map c HasNoProgram p.win_stack_fpo_info ok.fpos_ok ok.base_pointers in
      (
        file_of p functions cfis framedatas fpos,
        rw (made1, made2, made3, made4) refl,
        λ addr f e.
            let (r, within, has) = found addr f e in (function_start f r addr has.0 within, has.1),
        record { programs = programs; base_pointers = base_pointers },
        sorted_publics p.publics,
      )

  -- Finishing the parse never panics, and gives a file in the order that its queries rely on.
  pub finish_ok :
      (p : SymbolParser c)
      → IsPending p.cur_item
      → ParserOk p
      → (out : SymbolFile c) × (finish p ≡ some out)
        × FileOk out
        × WinOk out
        × IsSortedPublics out.publics
  unfolding finish
  finish_ok p pending ok =
      let (q, made, ok') = finish_pending_ok p pending ok in
      let (out, bundled, ready, kinds, sorted) = bundle_ok q ok' in
      (
        out,
        ap (λ (o : Option (SymbolParser c)). o >>= λ x. bundle x) made ∙ bundled,
        ready,
        kinds,
        sorted,
      )
