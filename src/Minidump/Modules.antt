-- ===== src/Minidump/Modules.antt =====
-- minidump/src/minidump.rs: MinidumpModule and MinidumpModuleList. `none` stands for a panic, of
-- `into_rangemap_safe` or of an index. Fields of MINIDUMP_MODULE that nothing here reads are left out.
pub mod Lookup
use rust_minidump.Base.{
  ℕ, ◌-◌, ◌||◌, Option, none, some, List, [], ◌∷◌, Bytes, nat_eq, ltb, if◌then◌else◌, u64_mod,
}
use rust_minidump.Base
use rust_minidump.Ranges.{Range, RangeCrate}
use rust_minidump.SymFile.Types.{range_of_size}
use rust_minidump.Minidump.Errors.{Result, ok, err, code_view_read_failure, ◌>>=◌, ok_or}
use rust_minidump.Minidump.Scroll.{Endian, Scroll, Layout}
use rust_minidump.Minidump.Slices.{Location}
use rust_minidump.Minidump.Lists.{read_stream_list}
use rust_minidump.Minidump.Indexed.{index_by_addr, element_at}
use rust_minidump.Minidump.Strings.{Decoder, read_string_utf16}
use rust_minidump.Minidump.CodeViews.{CodeView, DebugCrate, read_codeview, read_debug_id}

-- minidump/src/system_info.rs
pub data Os : Type 0 where
  windows mac_os ios linux solaris android ps3 na_cl : Os
  unknown_os : ℕ → Os

-- MINIDUMP_MODULE
pub record RawModule : Type 0 where
  pub base_of_image : ℕ
  pub size_of_image : ℕ
  pub checksum : ℕ
  pub time_date_stamp : ℕ
  pub module_name_rva : ℕ
  pub cv_record : Location

-- `misc_info` is never read from a dump.
pub record MinidumpModule (d : DebugCrate) : Type 0 where
  pub raw : RawModule
  pub name : Bytes
  pub codeview_info : Option CodeView
  pub os : Os
  pub debug_id : Option d.DebugId

pub record MinidumpModuleList (c : RangeCrate) (d : DebugCrate) : Type 0 where
  pub modules : List (MinidumpModule d)
  pub modules_by_addr : c.RangeMap ℕ

-- The test of the image's size, of loaded and of unloaded modules.
abbrev pub bad_size : ℕ → ℕ → Base.Bool
bad_size base size = nat_eq size 0 || ltb (u64_mod - 1 - base) size

abbrev pub os_or_unknown : Option Os → Os
os_or_unknown none = unknown_os 0
os_or_unknown (some os) = os

module _ (d : DebugCrate) where
  unfoldable pub module_range : MinidumpModule d → Option Range
  unfolding range_of_size
  module_range m = range_of_size m.raw.base_of_image m.raw.size_of_image

  abbrev pub debug_id_of : Scroll → Endian → Option CodeView → Option d.DebugId
  debug_id_of scroll e none = none
  debug_id_of scroll e (some cv) = read_debug_id scroll d cv e

  abbrev pub wrap_some : Option CodeView → Option (Option CodeView)
  wrap_some none = none
  wrap_some (some cv) = some (some cv)

  -- MinidumpModule::read; of the system info, `os` is used.
  unfoldable pub read_module :
      Scroll → Decoder → RawModule → Bytes → Endian → Option Os → Result (MinidumpModule d)
  unfolding read_string_utf16 read_codeview read_debug_id
  read_module scroll decode raw all e os = do
    name ← ok_or code_view_read_failure (read_string_utf16 scroll decode raw.module_name_rva all e)
    codeview_info ←
        if nat_eq raw.cv_record.data_size 0
        then ok none
        else ok_or code_view_read_failure (wrap_some (read_codeview scroll raw.cv_record all e))
    ok (record {
      raw = raw;
      name = name.0;
      codeview_info = codeview_info;
      os = os_or_unknown os;
      debug_id = debug_id_of scroll e codeview_info;
    })

  -- The loop that skips modules of a bad size, and fails where one cannot be read.
  unfoldable pub read_modules :
      Scroll
      → Decoder
      → List RawModule
      → Bytes
      → Endian
      → Option Os
      → Result (List (MinidumpModule d))
  unfolding read_module
  read_modules scroll decode [] all e os = ok []
  read_modules scroll decode (raw ∷ raws) all e os =
      let rest = read_modules scroll decode raws all e os in
      if bad_size raw.base_of_image raw.size_of_image
      then rest
      else (do m ← read_module scroll decode raw all e os; ms ← rest; ok (m ∷ ms))

  module _ (c : RangeCrate) where
    unfoldable pub from_modules : List (MinidumpModule d) → Option (MinidumpModuleList c d)
    unfolding index_by_addr module_range
    from_modules modules =
        Base.◌>>=◌ (index_by_addr module_range c modules)
          (λ m. some (record { modules = modules; modules_by_addr = m }))

    unfoldable pub main_module : MinidumpModuleList c d → Option (MinidumpModule d)
    main_module l = first l.modules
      where
        first : List (MinidumpModule d) → Option (MinidumpModule d)
        first [] = none
        first (m ∷ ms) = some m

    unfoldable pub module_at_address :
        MinidumpModuleList c d → ℕ → Option (Option (MinidumpModule d))
    unfolding element_at
    module_at_address l address = element_at c l.modules l.modules_by_addr address

    -- MinidumpModuleList::read
    unfoldable pub read_module_list :
        Scroll
        → Decoder
        → Layout RawModule
        → Bytes
        → Bytes
        → Endian
        → Option Os
        → Result (Option (MinidumpModuleList c d))
    unfolding read_stream_list read_modules from_modules
    read_module_list scroll decode layout bytes all e os = do
      raws ← read_stream_list layout scroll e bytes
      modules ← read_modules scroll decode raws all e os
      ok (from_modules modules)
