-- ===== src/SymFile/Queries.antt =====
-- breakpad-symbols/src/sym_file/mod.rs: what is asked of a symbol file, and the trait
-- `FrameSymbolizer` of breakpad-symbols/src/lib.rs.
pub mod Nearest
pub mod Starts
pub mod Publics
pub mod Loops
pub mod Bounds
pub mod Walks
pub mod Unchecked
pub mod Keeps
pub mod Fills
use Prim.Native.Nat.{compare}
use rust_minidump.Base.{
  ℕ, zero, suc, ◌+◌, ◌-◌, max, Bool, true, false, Option, none, some, List, [], ◌∷◌, ltb, leb,
  nat_eq, if◌then◌else◌, Bytes, get, ℕ-PartialEq, get_elem?, take, u32_mod, u64_mod,
}
use rust_minidump.Ranges.{Range, RangeCrate, Entries}
use rust_minidump.SymFile.Search.{Side, SearchResult, found, insert_at, BinarySearch}
use rust_minidump.SymFile.Types.{
  PublicSymbol, Function, Inlinee, CallSite, CfiRules, StackInfoCfi, SymbolFile, side,
  get_inlinee_at_depth, get_innermost_sourceloc, get_outermost_sourceloc,
}
use rust_minidump.SymFile.FrameWalker.{FrameWalker}
use rust_minidump.SymFile.Cfi.Walk.{Outcome, done, failed, panicked, walk_with_stack_cfi}
use rust_minidump.SymFile.Win.Walks.{
  plain_add, walk_with_stack_win_framedata, walk_with_stack_win_fpo,
}

pub record FrameSymbolizer (S : Type 0) : Type 0 where
  pub get_instruction : S → ℕ
  pub set_function : Bytes → ℕ → ℕ → S → S
  pub set_source_file : Bytes → ℕ → ℕ → S → S
  pub add_inline_frame : Bytes → Option Bytes → Option ℕ → S → S

-- How a run ends: with a value, in an addition that panics, or out of fuel.
pub data Run (A : Type 0) : Type 0 where
  finished : A → Run A
  overflowed exhausted : Run A

abbrev pub and_then : {A B : Type 0} → Run A → (A → Run B) → Run B
and_then (finished a) k = k a
and_then overflowed k = overflowed
and_then exhausted k = exhausted

abbrev pub plain : {A : Type 0} → Option A → Run A
plain (some a) = finished a
plain none = overflowed

-- The largest depth of the records.
abbrev pub max_depth : List Inlinee → ℕ
max_depth [] = 0
max_depth (x ∷ xs) = max x.depth (max_depth xs)

-- `publics.iter().rev().find(|&p| p.address <= addr)`
unfoldable pub find_nearest_public : List PublicSymbol → ℕ → Option PublicSymbol
find_nearest_public [] addr = none
find_nearest_public (p ∷ ps) addr = elim (find_nearest_public ps addr) [
  | some q ↦ some q
  | none ↦ if leb p.address addr then some p else none
]

-- The order of the functions' starts.
abbrev pub compare_start : {A : Type 0} → ℕ → Range × A → Side
compare_start addr x = side (compare x.0.start addr)

module _ {c : RangeCrate} (search : BinarySearch) (file : SymbolFile c) where
  abbrev pub before : SearchResult → Option (Range × Function c)
  before (found index) = none
  before (insert_at zero) = none
  before (insert_at (suc index)) = get_elem? (c.ranges_values file.functions) index

  -- The last FUNC that starts before the address, if none starts at it.
  unfoldable pub prev_func : ℕ → Option (Range × Function c)
  prev_func addr =
      before (search.binary_search_by (compare_start addr) (c.ranges_values file.functions))

  -- A PUBLIC that a FUNC cuts off before the address is not used.
  abbrev pub unless_truncated : PublicSymbol → Option (Range × Function c) → Option PublicSymbol
  unless_truncated public (some (r, f)) = if leb public.address f.address then none else some public
  unless_truncated public none = some public

  -- The PUBLIC that an address without a FUNC belongs to.
  unfoldable pub public_for : ℕ → Option PublicSymbol
  unfolding prev_func
  public_for addr = elim (find_nearest_public file.publics addr) [
    | some public ↦ unless_truncated public (prev_func addr)
    | none ↦ none
  ]

  -- STACK WIN records are more reliable than the FUNC record.
  unfoldable pub parameter_size_at : Function c → ℕ → ℕ
  parameter_size_at func addr = elim (c.get file.win_stack_framedata_info addr) [
    | some info ↦ info.parameter_size
    | none ↦ elim (c.get file.win_stack_fpo_info addr) [
      | some info ↦ info.parameter_size
      | none ↦ func.parameter_size
    ]
  ]

  module _ {S : Type 0} (fs : FrameSymbolizer S) (checks : Bool) (base : ℕ) where
    abbrev pub add_named : ℕ → Option Bytes → Option ℕ → S → S
    add_named origin name_of_file line s = elim (get file.inline_origins origin) [
      | some name ↦ fs.add_inline_frame name name_of_file line s
      | none ↦ s
    ]

    -- `for depth in 1..`, on fuel; the innermost call's origin is left.
    unfoldable pub fill_inlines : Function c → ℕ → ℕ → ℕ → ℕ → S → Run (ℕ × S)
    fill_inlines func addr zero depth origin s = exhausted
    fill_inlines func addr (suc fuel) depth origin s =
        and_then (plain (plain_add checks u32_mod depth 1)) λ next_depth.
          elim (get_inlinee_at_depth search func depth addr) [
            | some (call_file, call_line, address, next_origin) ↦
                fill_inlines func addr fuel next_depth next_origin
                  (add_named origin (get file.files call_file) (some call_line) s)
            | none ↦ finished (origin, s)
          ]

    abbrev pub nonzero : ℕ → Option ℕ
    nonzero line = if nat_eq line 0 then none else some line

    -- The frame inside the innermost inlined call.
    unfoldable pub add_innermost : Function c → ℕ → ℕ → S → S
    add_innermost func addr origin s = elim (get_innermost_sourceloc search func addr) [
      | some (file_id, line, address) ↦ add_named origin (get file.files file_id) (nonzero line) s
      | none ↦ add_named origin none none s
    ]

    unfoldable pub set_source : ℕ → ℕ → ℕ → S → Run S
    set_source file_id line address s = elim (get file.files file_id) [
      | some name ↦
          and_then (plain (plain_add checks u64_mod address base))
            λ a. finished (fs.set_source_file name line a s)
      | none ↦ finished s
    ]

    unfoldable pub fill_lines : Function c → ℕ → S → Run S
    unfolding set_source fill_inlines add_innermost
    fill_lines func addr s = elim (get_outermost_sourceloc search func addr) [
      | some (file_id, line, address, some origin) ↦
          and_then (set_source file_id line address s) λ s1.
            and_then (fill_inlines func addr (suc (max_depth func.inlinees)) 1 origin s1)
              λ r. finished (add_innermost func addr r.0 r.1)
      | some (file_id, line, address, none) ↦ set_source file_id line address s
      | none ↦ finished s
    ]

    unfoldable pub fill_function : Function c → ℕ → S → Run S
    unfolding fill_lines parameter_size_at
    fill_function func addr s =
        and_then (plain (plain_add checks u64_mod func.address base))
          λ a. fill_lines func addr (fs.set_function func.name a (parameter_size_at func addr) s)

    unfoldable pub fill_public : ℕ → S → Run S
    unfolding public_for
    fill_public addr s = elim (public_for addr) [
      | some public ↦
          and_then (plain (plain_add checks u64_mod public.address base))
            λ a. finished (fs.set_function public.name a public.parameter_size s)
      | none ↦ finished s
    ]

    unfoldable pub fill_symbol : S → Run S
    unfolding fill_function fill_public
    fill_symbol s =
        if ltb (fs.get_instruction s) base
        then finished s
        else (let addr = fs.get_instruction s - base in
            elim (c.get file.functions addr) [
              | some func ↦ fill_function func addr s
              | none ↦ fill_public addr s
            ])

-- How many rules stand before the first one that comes after the address.
unfoldable pub count_rules : ℕ → List CfiRules → ℕ
count_rules addr [] = 0
count_rules addr (r ∷ rules) =
    let rest = count_rules addr rules in if leb r.address addr then suc rest else 0

-- `add_rules[0..count]`
unfoldable pub rules_until : ℕ → List CfiRules → List CfiRules
unfolding count_rules
rules_until addr rules = take (count_rules addr rules) rules

-- `or_else` of a walk: the next walk begins where the failed one left the walker.
abbrev pub or_else_walk : {S : Type 0} → Outcome S → (S → Outcome S) → Outcome S
or_else_walk (done s) k = done s
or_else_walk (failed s) k = k s
or_else_walk panicked k = panicked

module _ {c : RangeCrate} (file : SymbolFile c) {S : Type 0} (w : FrameWalker S)
    (checks : Bool) where
  -- Framedata is preferred over fpo.
  unfoldable pub walk_win : ℕ → S → Outcome S
  walk_win addr s = elim (c.get file.win_stack_framedata_info addr) [
    | some info ↦ walk_with_stack_win_framedata w checks info s
    | none ↦ elim (c.get file.win_stack_fpo_info addr) [
      | some info ↦ walk_with_stack_win_fpo w checks info s
      | none ↦ failed s
    ]
  ]

  unfoldable pub walk_cfi : ℕ → S → Outcome S
  unfolding rules_until
  walk_cfi addr s = elim (c.get file.cfi_stack_info addr) [
    | some info ↦ walk_with_stack_cfi w info.init (rules_until addr info.add_rules) s
    | none ↦ failed s
  ]

  unfoldable pub walk_frame : ℕ → S → Outcome S
  unfolding walk_win walk_cfi
  walk_frame base s =
      if ltb (w.get_instruction s) base
      then failed s
      else (let addr = w.get_instruction s - base in or_else_walk (walk_win addr s) (walk_cfi addr))
