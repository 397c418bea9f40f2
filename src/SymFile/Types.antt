-- ===== src/SymFile/Types.antt =====
-- breakpad-symbols/src/sym_file/types.rs
pub mod Inlinees
pub mod MemoryRange
use rust_minidump.Base.{
  ℕ, zero, suc, ◌+◌, ◌-◌, ◌<◌, ◌≤◌, ◌≡◌, ◌≢◌, refl, Bool, Option, none, some, List, [], ◌∷◌,
  get_elem?, arith, ◌==◌, ℕ-PartialEq, ltb, if◌then◌else◌, Bytes, HashMap, checked_add, u64_mod,
  ◌>>=◌,
}
use Prim.Native.Nat.{compare, Ordering}
use rust_minidump.Ranges.{Range, RangeCrate}
use rust_minidump.SymFile.Search.{
  Side, less, equal, greater, SearchResult, found, insert_at, BinarySearch,
}

pub record PublicSymbol : Type 0 where
  pub address : ℕ
  pub name : Bytes
  pub parameter_size : ℕ

pub record SourceLine : Type 0 where
  pub address : ℕ
  pub size : ℕ
  pub file : ℕ
  pub line : ℕ

pub record Inlinee : Type 0 where
  pub depth : ℕ
  pub address : ℕ
  pub size : ℕ
  pub call_file : ℕ
  pub call_line : ℕ
  pub origin_id : ℕ

pub record Function (c : RangeCrate) : Type 0 where
  pub address : ℕ
  pub size : ℕ
  pub parameter_size : ℕ
  pub name : Bytes
  pub lines : c.RangeMap SourceLine
  pub inlinees : List Inlinee

pub record CfiRules : Type 0 where
  pub address : ℕ
  pub rules : Bytes

pub record StackInfoCfi : Type 0 where
  pub init : CfiRules
  pub size : ℕ
  pub add_rules : List CfiRules

pub data WinStackThing : Type 0 where
  program_string : Bytes → WinStackThing
  allocates_base_pointer : Bool → WinStackThing

pub record StackInfoWin : Type 0 where
  pub address : ℕ
  pub size : ℕ
  pub prologue_size : ℕ
  pub epilogue_size : ℕ
  pub parameter_size : ℕ
  pub saved_register_size : ℕ
  pub local_size : ℕ
  pub max_stack_size : ℕ
  pub program_string_or_base_pointer : WinStackThing

pub data WinFrameType : Type 0 where
  fpo frame_data : StackInfoWin → WinFrameType
  unhandled : WinFrameType

-- The statistics fields, which every code path sets to 0, are left out.
pub record SymbolFile (c : RangeCrate) : Type 0 where
  pub module_id : Bytes
  pub debug_file : Bytes
  pub files : HashMap ℕ Bytes
  pub publics : List PublicSymbol
  pub functions : c.RangeMap (Function c)
  pub inline_origins : HashMap ℕ Bytes
  pub cfi_stack_info : c.RangeMap StackInfoCfi
  pub win_stack_framedata_info : c.RangeMap StackInfoWin
  pub win_stack_fpo_info : c.RangeMap StackInfoWin
  pub url : Option Bytes

-- The body that the three methods `memory_range` share; `end` is where `address + size` stands.
unfoldable pub range_of_size : ℕ → ℕ → Option Range
range_of_size address size = if size == 0 then none else (do
  end ← checked_add u64_mod address size
  some (record { start = address; end = end - 1 }))

unfoldable pub function_memory_range : {c : RangeCrate} → Function c → Option Range
unfolding range_of_size
function_memory_range f = range_of_size f.address f.size

unfoldable pub cfi_memory_range : StackInfoCfi → Option Range
unfolding range_of_size
cfi_memory_range s = range_of_size s.init.address s.size

unfoldable pub win_memory_range : StackInfoWin → Option Range
unfolding range_of_size
win_memory_range s = range_of_size s.address s.size

abbrev pub side : Ordering → Side
side o = elim o [ Ordering.lt ↦ less | Ordering.eq ↦ equal | Ordering.gt ↦ greater ]

-- The order of the tuples `(depth, address)`.
abbrev pub compare_key : ℕ → ℕ → Inlinee → Side
compare_key depth addr x = elim (compare x.depth depth) [
  | Ordering.lt ↦ less
  | Ordering.eq ↦ side (compare x.address addr)
  | Ordering.gt ↦ greater
]

-- `(call_file, call_line, address, origin_id)`
abbrev pub CallSite : Type 0
CallSite = ℕ × ℕ × ℕ × ℕ

unfoldable pub call_site : Inlinee → ℕ → ℕ → Option CallSite
call_site x depth addr =
    if x.depth == depth
    then (do
      end_address ← checked_add u64_mod x.address x.size
      if ltb addr end_address
          then some (x.call_file, x.call_line, x.address, x.origin_id)
          else none)
    else none

module _ {c : RangeCrate} (search : BinarySearch) (f : Function c) where
  -- The element that the `match` on the search's result picks.
  abbrev pub candidate : SearchResult → Option Inlinee
  candidate (found index) = get_elem? f.inlinees index
  candidate (insert_at zero) = none
  candidate (insert_at (suc index)) = get_elem? f.inlinees index

  unfoldable pub get_inlinee_at_depth : ℕ → ℕ → Option CallSite
  unfolding call_site
  get_inlinee_at_depth depth addr = do
    inlinee ← candidate (search.binary_search_by (compare_key depth addr) f.inlinees)
    call_site inlinee depth addr

  unfoldable pub get_innermost_sourceloc : ℕ → Option (ℕ × ℕ × ℕ)
  get_innermost_sourceloc addr = do
    line ← c.get f.lines addr
    some (line.file, line.line, line.address)

  abbrev pub outermost : Option CallSite → ℕ → Option (ℕ × ℕ × ℕ × Option ℕ)
  outermost (some (call_file, call_line, address, origin)) addr =
      some (call_file, call_line, address, some origin)
  outermost none addr = do
    line ← c.get f.lines addr
    some (line.file, line.line, line.address, none)

  unfoldable pub get_outermost_sourceloc : ℕ → Option (ℕ × ℕ × ℕ × Option ℕ)
  get_outermost_sourceloc addr = outermost (get_inlinee_at_depth 0 addr) addr
