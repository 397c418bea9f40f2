-- ===== src/Tests/Modules.antt =====
-- Lists of modules and of mappings.
use rust_minidump.Base.{
  ℕ, ◌+◌, ◌≤◌, ◌≡◌, ◌↔◌, refl, Bool, true, ◌&&◌, Option, none, some, List, [], ◌∷◌, Bytes, In, All,
  leb, nat_eq, if◌then◌else◌, length, get_elem?, arith, ◌>>=◌,
}
use rust_minidump.RangeMapSafe.{into_rangemap_safe_opt, rev_onto, push_valid, push_range}
use rust_minidump.RangeMapSafe.Sort.{sort_by_key}
use rust_minidump.Unwind.Contexts.{is_some}
use rust_minidump.Tests.Crates.{list_crate}
use rust_minidump.Tests.Dumps.{list_scroll}
use rust_minidump.Minidump.Errors.{ok}
use rust_minidump.Minidump.Scroll.{Endian, little, Layout}
use rust_minidump.Minidump.Strings.{read_thread_names}
use rust_minidump.Minidump.CodeViews.{elf, DebugCrate, all_zero, read_debug_id}
use rust_minidump.Minidump.Modules.{
  linux, RawModule, MinidumpModule, MinidumpModuleList, read_module_list, module_at_address,
}
use rust_minidump.Minidump.Modules.Lookup.{HasImage, IsAnswer, module_at_address-read}
use rust_minidump.Minidump.Unloaded.{
  RawUnloadedModule, MinidumpUnloadedModule, MinidumpUnloadedModuleList, modules_at_address,
  read_unloaded_list,
}
use rust_minidump.Minidump.Unloaded.Lookup.{HoldsAt, modules_at_address-read}
use rust_minidump.Minidump.Infos.{
  MemoryMap, RegionList, linux_maps_from_regions, memory_info_at_address,
}
use rust_minidump.Minidump.Infos.Adjacent.{memory_info_at_address-adjacent}

-- A GUID's first number is its id; only that of a GUID of zeros is nil.
abbrev pub debug_crate : DebugCrate
debug_crate = record {
  DebugId = ℕ × ℕ;
  is_nil = λ g. nat_eq g.data1 0 && nat_eq g.data2 0 && nat_eq g.data3 0 && all_zero g.data4;
  from_parts = λ g age. (g.data1, age);
  from_pdb20 = λ signature age. (signature, age);
  from_uuid = λ g. (g.data1, 0);
}

-- Every second byte is a letter.
abbrev decode : Endian → Bytes → Option Bytes
decode e [] = some []
decode e (b ∷ []) = none
decode e (b ∷ x ∷ bs) = do rest ← decode e bs; some (b ∷ rest)

abbrev byte_or : ℕ → Option ℕ → ℕ
byte_or z none = z
byte_or z (some b) = b

-- A structure of three bytes, one for each of its numbers.
abbrev parse_numbers : {T : Type 0} → (ℕ → ℕ → ℕ → T) → Endian → Bytes → ℕ → Option T
parse_numbers make e bytes offset =
    if leb (offset + 3) (length bytes)
    then some (
        make (byte_or 0 (get_elem? bytes offset)) (byte_or 0 (get_elem? bytes (offset + 1)))
          (byte_or 0 (get_elem? bytes (offset + 2))))
    else none

pub parse_numbers_iff :
    {T : Type 0} (make : ℕ → ℕ → ℕ → T) (e : Endian) (bytes : Bytes) (offset : ℕ)
    → (is_some (parse_numbers make e bytes offset) ≡ true) ↔ (offset + 3 ≤ length bytes)
parse_numbers_iff make e bytes offset = (λ h. ground arith, λ h. ground arith)

abbrev numbers : {T : Type 0} → (ℕ → ℕ → ℕ → T) → Layout T
numbers make = record { size = 3; parse = parse_numbers make; parse_iff = parse_numbers_iff make }

abbrev pub raw_module : ℕ → ℕ → ℕ → RawModule
raw_module base size rva = record {
  base_of_image = base;
  size_of_image = size;
  checksum = 0;
  time_date_stamp = 0;
  module_name_rva = rva;
  cv_record = record { data_size = 0; rva = 0 };
}

abbrev raw_unloaded : ℕ → ℕ → ℕ → RawUnloadedModule
raw_unloaded base size rva = record {
  base_of_image = base;
  size_of_image = size;
  checksum = 0;
  time_date_stamp = 0;
  module_name_rva = rva;
}

-- The name "ab", at 0.
abbrev names : Bytes
names = 4 ∷ 0 ∷ 0 ∷ 0 ∷ 97 ∷ 0 ∷ 98 ∷ 0 ∷ []

-- The second module has no image.
abbrev module_stream : Bytes
module_stream = 3 ∷ 0 ∷ 0 ∷ 0 ∷ 100 ∷ 10 ∷ 0 ∷ 200 ∷ 0 ∷ 0 ∷ 120 ∷ 10 ∷ 0 ∷ []

abbrev module_at : ℕ → MinidumpModule debug_crate
module_at base = record {
  raw = raw_module base 10 0;
  name = 97 ∷ 98 ∷ [];
  codeview_info = none;
  os = linux;
  debug_id = none;
}

abbrev modules : MinidumpModuleList list_crate debug_crate
modules = record {
  modules = module_at 100 ∷ module_at 120 ∷ [];
  modules_by_addr =
      (record { start = 100; end = 109 }, 0) ∷ (record { start = 120; end = 129 }, 1) ∷ [];
}

modules-read :
    read_module_list debug_crate list_crate list_scroll decode
      (numbers raw_module)
      module_stream
      names
      little
      (some linux)
    ≡ ok (some modules)
unfolding read_module_list into_rangemap_safe_opt rev_onto push_valid sort_by_key push_range
modules-read = refl

module_at_address-read_example :
    (l : MinidumpModuleList list_crate debug_crate) × (some modules ≡ some l)
    × All (λ (m : MinidumpModule debug_crate). HasImage debug_crate m.raw) l.modules
    × ((a : ℕ)
        → (answer : Option (MinidumpModule debug_crate)) × (module_at_address debug_crate list_crate
              l a
            ≡ some answer)
          × IsAnswer debug_crate l.modules a answer)
module_at_address-read_example =
    module_at_address-read debug_crate list_crate list_scroll decode (numbers raw_module)
      module_stream names little (some linux) (some modules) modules-read

-- The header of 12 bytes, with the size of an entry and their number.
abbrev unloaded_stream : Bytes
unloaded_stream = 12 ∷ 0 ∷ 0 ∷ 0 ∷ 3 ∷ 0 ∷ 0 ∷ 0 ∷ 2 ∷ 0 ∷ 0 ∷ 0 ∷ 120 ∷ 10 ∷ 0 ∷ 115 ∷ 10 ∷ 0 ∷ []

abbrev unloaded_at : ℕ → MinidumpUnloadedModule
unloaded_at base = record { raw = raw_unloaded base 10 0; name = 97 ∷ 98 ∷ [] }

abbrev unloaded : MinidumpUnloadedModuleList
unloaded = record {
  modules = unloaded_at 120 ∷ unloaded_at 115 ∷ [];
  modules_by_addr =
      (record { start = 115; end = 124 }, 1) ∷ (record { start = 120; end = 129 }, 0) ∷ [];
}

unloaded-read :
    read_unloaded_list list_crate list_scroll decode
      (numbers raw_unloaded)
      unloaded_stream
      names
      little
    ≡ ok unloaded
unfolding read_unloaded_list
unloaded-read = refl

both_unloaded : modules_at_address unloaded 122 ≡ some (unloaded_at 115 ∷ unloaded_at 120 ∷ [])
unfolding modules_at_address
both_unloaded = refl

modules_at_address-read_example :
    (out : List MinidumpUnloadedModule) × (modules_at_address unloaded 122 ≡ some out)
    × ((m : MinidumpUnloadedModule) → In m out ↔ (In m unloaded.modules × HoldsAt 122 m))
modules_at_address-read_example =
    modules_at_address-read list_crate list_scroll decode (numbers raw_unloaded) unloaded_stream
      names little unloaded 122 unloaded-read

-- A build id of three bytes is filled up with zeros.
short_build_id :
    read_debug_id list_scroll debug_crate
      (elf (record { cv_signature = 0x4270454c; build_id = 1 ∷ 2 ∷ 3 ∷ [] }))
      little
    ≡ some (197121, 0)
unfolding read_debug_id
short_build_id = refl

no_build_id :
    read_debug_id list_scroll debug_crate
      (elf (record { cv_signature = 0x4270454c; build_id = 0 ∷ 0 ∷ [] }))
      little
    ≡ none
unfolding read_debug_id
no_build_id = refl

-- The thread 7, with its name at 0, and the thread 8, whose name cannot be read.
threads_read :
    read_thread_names list_scroll decode
      (numbers (λ id rva spare. record { thread_id = id; thread_name_rva = rva }))
      (2 ∷ 0 ∷ 0 ∷ 0 ∷ 7 ∷ 0 ∷ 0 ∷ 8 ∷ 5 ∷ 0 ∷ [])
      names
      little
    ≡ ok ((7, 97 ∷ 98 ∷ []) ∷ [])
unfolding read_thread_names
threads_read = refl

abbrev mapped : ℕ → ℕ → MemoryMap Bool
mapped start limit = record { start = start; limit = limit; rest = true }

abbrev maps : RegionList list_crate (MemoryMap Bool)
maps = record {
  regions = mapped 0x1000 0x2000 ∷ mapped 0x2000 0x3000 ∷ [];
  regions_by_addr = (record { start = 0x1000; end = 0x2000 }, 0) ∷ [];
}

maps-made :
    linux_maps_from_regions list_crate (mapped 0x1000 0x2000 ∷ mapped 0x2000 0x3000 ∷ [])
    ≡ some maps
unfolding linux_maps_from_regions into_rangemap_safe_opt rev_onto push_valid sort_by_key push_range
maps-made = refl

memory_info_at_address-adjacent_example :
    (memory_info_at_address list_crate maps 0x2000 ≡ some (some (mapped 0x1000 0x2000)))
    × (memory_info_at_address list_crate maps 0x2800 ≡ some none)
memory_info_at_address-adjacent_example =
    memory_info_at_address-adjacent list_crate true true 0x1000 0x2000 0x3000 0x2800 maps
      (omega arith) (omega arith) (omega arith) (omega arith) maps-made
