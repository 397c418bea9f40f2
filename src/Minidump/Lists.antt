-- ===== src/Minidump/Lists.antt =====
-- minidump/src/minidump.rs: streams that are lists of structures, read_stream_list and
-- read_ex_stream_list. The offset starts at 0, as in every call.
pub mod Reads
use rust_minidump.Base.{
  ℕ, zero, suc, ◌+◌, ◌-◌, Bool, true, false, Option, none, some, List, [], ◌∷◌, Bytes, nat_eq, ltb,
  if◌then◌else◌, length,
}
use rust_minidump.Base
use rust_minidump.Minidump.Errors.{
  stream_read_failure, stream_size_mismatch, Result, ok, err, ◌>>=◌, ok_or,
}
use rust_minidump.Minidump.Scroll.{Endian, Scroll, Layout}
use rust_minidump.Minidump.Slices.{ensure_count_in_bound}

module _ {T : Type 0} (layout : Layout T) where
  -- `for _ in 0..count { gread_with(offset) }`
  unfoldable pub read_entries : Endian → Bytes → ℕ → ℕ → Option (List T)
  read_entries e bytes zero offset = some []
  read_entries e bytes (suc count) offset = Base.◌>>=◌ (layout.parse e bytes offset) (λ raw.
      Base.◌>>=◌ (read_entries e bytes count (offset + layout.size)) (λ rest. some (raw ∷ rest)))

  -- Four bytes of padding may stand before the entries.
  unfoldable pub entries_start : ℕ → ℕ → Result ℕ
  entries_start size counted_size =
      if nat_eq (size - counted_size) 0
      then ok 4
      else if nat_eq (size - counted_size) 4
      then ok 8
      else err (stream_size_mismatch counted_size size)

  unfoldable pub read_stream_list : Scroll → Endian → Bytes → Result (List T)
  unfolding read_entries entries_start ensure_count_in_bound
  read_stream_list scroll e bytes = do
    u ← ok_or stream_read_failure (scroll.pread 4 e bytes 0)
    counted ← ensure_count_in_bound bytes u layout.size 4
    offset ← entries_start (length bytes) counted.1
    ok_or stream_read_failure (read_entries e bytes counted.0 offset)

  -- The header of a newer list gives its own size, which is at least the 12 bytes that are read.
  unfoldable pub read_ex_stream_list : Scroll → Endian → Bytes → Result (List T)
  unfolding read_entries ensure_count_in_bound
  read_ex_stream_list scroll e bytes = do
    size_of_header ← ok_or stream_read_failure (scroll.pread 4 e bytes 0)
    size_of_entry ← ok_or stream_read_failure (scroll.pread 4 e bytes 4)
    number_of_entries ← ok_or stream_read_failure (scroll.pread 4 e bytes 8)
    if nat_eq size_of_entry layout.size
        then (do
          counted ← ensure_count_in_bound bytes number_of_entries size_of_entry size_of_header
          if ltb size_of_header 12
              then err stream_read_failure
              else ok_or stream_read_failure
                  (read_entries e bytes counted.0 (12 + (size_of_header - 12))))
        else err stream_read_failure
