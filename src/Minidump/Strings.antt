-- ===== src/Minidump/Strings.antt =====
-- minidump/src/minidump.rs: strings with their length before them, and the names of threads. What
-- bytes spell in UTF-16 is the crate encoding_rs's, a parameter.
use rust_minidump.Base.{
  ℕ, ◌+◌, ◌%◌, not, ◌||◌, Option, none, some, List, [], ◌∷◌, Bytes, HashMap, ℕ-PartialEq, insert,
  get, nat_eq, ltb, if◌then◌else◌, length, take, drop, ◌>>=◌,
}
use rust_minidump.Minidump.Errors
use rust_minidump.Minidump.Errors.{Result, ok}
use rust_minidump.Minidump.Scroll.{Endian, Scroll, Layout}
use rust_minidump.Minidump.Lists.{read_stream_list}

-- `decode_without_bom_handling_and_without_replacement` of UTF_16LE or UTF_16BE
abbrev pub Decoder : Type 0
Decoder = Endian → Bytes → Option Bytes

-- MINIDUMP_THREAD_NAME
pub record RawThreadName : Type 0 where
  pub thread_id : ℕ
  pub thread_name_rva : ℕ

module _ (scroll : Scroll) (decode : Decoder) where
  -- The string, and the offset behind it.
  unfoldable pub read_string_utf16 : ℕ → Bytes → Endian → Option (Bytes × ℕ)
  read_string_utf16 offset bytes e = do
    size ← scroll.pread 4 e bytes offset
    if not (nat_eq (size % 2) 0) || ltb (length bytes) (offset + 4 + size)
        then none
        else (do s ← decode e (take size (drop (offset + 4) bytes)); some (s, offset + 4 + size))

  -- Unreadable names are dropped. The map is BTreeMap's, of which only look-ups are used.
  unfoldable pub add_names : Bytes → Endian → List RawThreadName → HashMap ℕ Bytes → HashMap ℕ Bytes
  unfolding read_string_utf16 insert
  add_names all e [] names = names
  add_names all e (raw ∷ raws) names =
      add_names all e raws
        (add_name raw.thread_id (read_string_utf16 raw.thread_name_rva all e) names)
    where
      add_name : ℕ → Option (Bytes × ℕ) → HashMap ℕ Bytes → HashMap ℕ Bytes
      add_name id none m = m
      add_name id (some (name, end)) m = insert m id name

  -- MinidumpThreadNames::read
  unfoldable pub read_thread_names :
      Layout RawThreadName → Bytes → Bytes → Endian → Result (HashMap ℕ Bytes)
  unfolding read_stream_list add_names
  read_thread_names layout bytes all e =
      Errors.◌>>=◌ (read_stream_list layout scroll e bytes) (λ raws. ok (add_names all e raws []))

-- MinidumpThreadNames::get_name
unfoldable pub get_name : HashMap ℕ Bytes → ℕ → Option Bytes
unfolding get
get_name names thread_id = get names thread_id
