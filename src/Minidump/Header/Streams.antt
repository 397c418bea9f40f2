-- ===== src/Minidump/Header/Streams.antt =====
-- Which bytes a stream of a dump is.
use rust_minidump.Base.{
  ℕ, zero, suc, ◌+◌, ◌%◌, ◌^◌, ◌≡◌, refl, sym, subst, ap, ◌∙◌, Bool, true, false, not, Option, none,
  some, some_inj, List, [], ◌∷◌, Bytes, HashMap, ℕ-PartialEq, insert, get, get-insert, nat_eq,
  if◌then◌else◌, length, >>=-eq-some,
}
use rust_minidump.Minidump.Errors.{
  missing_directory, stream_not_found, Result, ok, err, ok_or, >>=-eq-ok, ok_or-eq-ok, if_err-eq-ok,
  ok_inj,
}
use rust_minidump.Minidump.Scroll.{Endian, Scroll}
use rust_minidump.Minidump.Slices.{location_slice}
use rust_minidump.Minidump.Header.{
  Directory, Minidump, minidump_version, pread_directory, read_header, read_directory,
  raw_stream_at, read, get_raw_stream,
}

-- The last directory entry of a type, after `before`.
abbrev pub last_of : ℕ → Option Directory → List Directory → Option Directory
last_of t before [] = before
last_of t before (d ∷ ds) = last_of t (if nat_eq d.stream_type t then some d else before) ds

abbrev dir_of : Option (ℕ × Directory) → Option Directory
dir_of none = none
dir_of (some (i, d)) = some d

-- The slice that a directory entry gives.
abbrev pub slice_of : Bytes → Option Directory → Result Bytes
slice_of bytes none = err stream_not_found
slice_of bytes (some d) = location_slice bytes d.location

module _ (scroll : Scroll) where
  -- The entries stand one behind the other, 12 bytes each.
  abbrev pub IsDirectory : Endian → Bytes → ℕ → List Directory → Type 0
  IsDirectory e bytes offset [] = Unit
  IsDirectory e bytes offset (d ∷ ds) =
      (pread_directory scroll e bytes offset ≡ some d) × IsDirectory e bytes (offset + 12) ds

  dir_of-insert :
      (m : HashMap ℕ (ℕ × Directory)) (k i : ℕ) (d : Directory) (t : ℕ)
      → dir_of (get (insert m k (i, d)) t) ≡ (if nat_eq k t then some d else dir_of (get m t))
  dir_of-insert m k i d t = ap dir_of (get-insert m k (i, d) t) ∙ go (nat_eq k t)
    where
      go :
          (b : Bool)
          → dir_of (if b then some (i, d) else get m t) ≡ (if b then some d else dir_of (get m t))
      go true = refl
      go false = refl

  read_directory_sound :
      (e : Endian) (bytes : Bytes) (n i offset : ℕ) (streams out : HashMap ℕ (ℕ × Directory))
      → read_directory scroll e bytes n i offset streams ≡ some out
      → (ds : List Directory) × (length ds ≡ n)
        × IsDirectory e bytes offset ds
        × ((t : ℕ) → dir_of (get out t) ≡ last_of t (dir_of (get streams t)) ds)
  unfolding read_directory
  read_directory_sound e bytes zero i offset streams out h = (
    [],
    refl,
    tt,
    λ t. ap (λ (m : HashMap ℕ (ℕ × Directory)). dir_of (get m t)) (sym (some_inj h)),
  )
  read_directory_sound e bytes (suc n) i offset streams out h =
      let (d, parsed, rest) = >>=-eq-some (pread_directory scroll e bytes offset) _ h in
      let (ds, counted, stand, lookups) =
        read_directory_sound e bytes n (i + 1) (offset + 12) (insert streams d.stream_type (i, d))
          out rest in
      (
        d ∷ ds,
        ap suc counted,
        (parsed, stand),
        λ t.
            lookups t
            ∙ ap (λ (o : Option Directory). last_of t o ds)
                (dir_of-insert streams d.stream_type i d t),
      )

module _ {S : Type 0} (scroll : Scroll) (read_system_info : Bytes → Bytes → Endian → Option S) where
  raw_stream_of :
      (bytes : Bytes) (o : Option (ℕ × Directory))
      → raw_stream_at scroll read_system_info bytes o ≡ slice_of bytes (dir_of o)
  raw_stream_of bytes none = refl
  raw_stream_of bytes (some (i, d)) = refl

  -- In a dump that is read the directory has as many entries as the header says, one behind the other
  -- from where the header says, and a stream is the slice that the last entry of its type gives; a
  -- type without an entry is not found.
  pub get_raw_stream-read :
      (bytes : Bytes) (m : Minidump S)
      → read scroll read_system_info bytes ≡ ok m
      → (ds : List Directory) × (length ds ≡ m.header.stream_count)
        × IsDirectory scroll m.endian bytes m.header.stream_directory_rva ds
        × ((t : ℕ)
            → get_raw_stream scroll read_system_info m t ≡ slice_of bytes (last_of t none ds))
  unfolding read get_raw_stream
  get_raw_stream-read bytes m h =
      let (found, head, rest) = >>=-eq-ok (read_header scroll bytes) _ h in
      let (current, rest2) =
        if_err-eq-ok (not (nat_eq (found.0.version % 2 ^ 16) minidump_version)) _ _ rest in
      let (streams, listed, made) =
        >>=-eq-ok
          (ok_or missing_directory (
            read_directory scroll found.1 bytes found.0.stream_count 0 found.0.stream_directory_rva
              []))
          _ rest2 in
      let (ds, counted, stand, lookups) =
        read_directory_sound scroll found.1 bytes found.0.stream_count 0
          found.0.stream_directory_rva [] streams (ok_or-eq-ok missing_directory _ listed) in
      subst
        (λ (d : Minidump S).
          (ds : List Directory) × (length ds ≡ d.header.stream_count)
          × IsDirectory scroll d.endian bytes d.header.stream_directory_rva ds
          × ((t : ℕ)
              → get_raw_stream scroll read_system_info d t ≡ slice_of bytes (last_of t none ds)))
        (ok_inj made)
        (
          ds,
          counted,
          stand,
          λ t.
              raw_stream_of bytes (get streams t)
              ∙ ap (slice_of bytes)
                  (lookups t ∙ ap (λ (o : Option Directory). last_of t o ds) (empty t)),
        )
    where
      empty : (t : ℕ) → dir_of (get (let m : HashMap ℕ (ℕ × Directory) = [] in m) t) ≡ none
      empty t = unfold get in refl
