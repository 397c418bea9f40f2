-- ===== src/Minidump/Unloaded.antt =====
-- minidump/src/minidump.rs: MinidumpUnloadedModule and MinidumpUnloadedModuleList. `none` stands for
-- a panic of an index.
pub mod Lookup
use rust_minidump.Base.{ℕ, Option, none, some, List, [], ◌∷◌, Bytes, get_elem?, if◌then◌else◌}
use rust_minidump.Base
use rust_minidump.Ranges.{Range, RangeCrate, Entries, inside}
use rust_minidump.RangeMapSafe.Sort.{sort_by_key}
use rust_minidump.RangeMapSafe.Finished.{valid_entries}
use rust_minidump.SymFile.Types.{range_of_size}
use rust_minidump.Minidump.Errors.{Result, ok, err, module_read_failure, data_error, ◌>>=◌, ok_or}
use rust_minidump.Minidump.Scroll.{Endian, Scroll, Layout}
use rust_minidump.Minidump.Lists.{read_ex_stream_list}
use rust_minidump.Minidump.Indexed.{indexed}
use rust_minidump.Minidump.Strings.{Decoder, read_string_utf16}
use rust_minidump.Minidump.Modules.{bad_size}

-- MINIDUMP_UNLOADED_MODULE
pub record RawUnloadedModule : Type 0 where
  pub base_of_image : ℕ
  pub size_of_image : ℕ
  pub checksum : ℕ
  pub time_date_stamp : ℕ
  pub module_name_rva : ℕ

pub record MinidumpUnloadedModule : Type 0 where
  pub raw : RawUnloadedModule
  pub name : Bytes

pub record MinidumpUnloadedModuleList : Type 0 where
  pub modules : List MinidumpUnloadedModule
  pub modules_by_addr : Entries ℕ

unfoldable pub unloaded_range : MinidumpUnloadedModule → Option Range
unfolding range_of_size
unloaded_range m = range_of_size m.raw.base_of_image m.raw.size_of_image

-- MinidumpUnloadedModule::read
unfoldable pub read_unloaded_module :
    Scroll → Decoder → RawUnloadedModule → Bytes → Endian → Result MinidumpUnloadedModule
unfolding read_string_utf16
read_unloaded_module scroll decode raw all e = do
  name ← ok_or data_error (read_string_utf16 scroll decode raw.module_name_rva all e)
  ok (record { raw = raw; name = name.0 })

-- The loop, which fails where an image has a bad size.
unfoldable pub read_unloaded_modules :
    Scroll
    → Decoder
    → List RawUnloadedModule
    → Bytes
    → Endian
    → Result (List MinidumpUnloadedModule)
unfolding read_unloaded_module
read_unloaded_modules scroll decode [] all e = ok []
read_unloaded_modules scroll decode (raw ∷ raws) all e =
    let rest = read_unloaded_modules scroll decode raws all e in
    if bad_size raw.base_of_image raw.size_of_image
    then err module_read_failure
    else (do m ← read_unloaded_module scroll decode raw all e; ms ← rest; ok (m ∷ ms))

-- MinidumpUnloadedModuleList::from_modules
unfoldable pub unloaded_from_modules :
    RangeCrate → List MinidumpUnloadedModule → MinidumpUnloadedModuleList
unfolding indexed unloaded_range sort_by_key
unloaded_from_modules c modules = record {
  modules = modules;
  modules_by_addr =
      sort_by_key c.range_le (λ x. x.0) (valid_entries (indexed unloaded_range 0 modules));
}

-- The modules of the entries whose ranges hold the address.
unfoldable pub held_at :
    List MinidumpUnloadedModule → ℕ → Entries ℕ → Option (List MinidumpUnloadedModule)
held_at modules address [] = some []
held_at modules address ((range, index) ∷ entries) =
    let rest = held_at modules address entries in
    if inside address range
    then Base.◌>>=◌ (get_elem? modules index) (λ m. Base.◌>>=◌ rest (λ ms. some (m ∷ ms)))
    else rest

unfoldable pub modules_at_address :
    MinidumpUnloadedModuleList → ℕ → Option (List MinidumpUnloadedModule)
unfolding held_at
modules_at_address l address = held_at l.modules address l.modules_by_addr

-- MinidumpUnloadedModuleList::read
unfoldable pub read_unloaded_list :
    RangeCrate
    → Scroll
    → Decoder
    → Layout RawUnloadedModule
    → Bytes
    → Bytes
    → Endian
    → Result MinidumpUnloadedModuleList
unfolding read_ex_stream_list read_unloaded_modules unloaded_from_modules
read_unloaded_list c scroll decode layout bytes all e = do
  raws ← read_ex_stream_list layout scroll e bytes
  modules ← read_unloaded_modules scroll decode raws all e
  ok (unloaded_from_modules c modules)
