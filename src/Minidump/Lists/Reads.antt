-- ===== src/Minidump/Lists/Reads.antt =====
-- When a list of structures is read, and what is read.
use rust_minidump.Base.{
  ℕ, zero, suc, ◌+◌, ◌-◌, ◌*◌, ◌<◌, ◌≤◌, ◌≡◌, ◌↔◌, ◌⊎◌, refl, sym, subst, ap, ◌∙◌, Bool, true,
  false, Bool-cases, Option, none, some, List, [], ◌∷◌, Bytes, nat_eq, ltb, if◌then◌else◌, length,
  get_elem?, >>=-eq-some, some_inj, u64_mod, checked_add, inl, inr, arith,
}
use rust_minidump.Base
use rust_minidump.Minidump.Errors.{
  stream_read_failure, stream_size_mismatch, ok, err, ◌>>=◌, ok_or, >>=-eq-ok, ok_or-eq-ok,
  if_err-eq-ok, ok_inj,
}
use rust_minidump.Minidump.Scroll.{Endian, Scroll, Layout}
use rust_minidump.Minidump.Slices.{ensure_count_in_bound, checked_mul}
use rust_minidump.Minidump.Lists.{read_entries, entries_start, read_stream_list}

pub ensure_count_in_bound_sound :
    (buf : Bytes) (n size offset : ℕ) (counted : ℕ × ℕ)
    → ensure_count_in_bound buf n size offset ≡ ok counted
    → (counted.0 ≡ n) × (counted.1 ≡ n * size + offset) × (n * size + offset ≤ length buf)
unfolding ensure_count_in_bound
ensure_count_in_bound_sound buf n size offset counted h =
    let (expected, found, rest) =
      >>=-eq-ok
        (ok_or stream_read_failure
          (Base.◌>>=◌ (checked_mul u64_mod n size) (λ v. checked_add u64_mod v offset)))
        _ h in
    let (v, multiplied, added) =
      >>=-eq-some (checked_mul u64_mod n size) _ (ok_or-eq-ok stream_read_failure _ found) in
    let product : v ≡ n * size = product_of (n * size) v multiplied in
    let total : expected ≡ v + offset = sum_of v offset expected added in
    let (fits, made) = if_err-eq-ok (ltb (length buf) expected) _ _ rest in
    let sum : expected ≡ n * size + offset = total ∙ ap (λ (k : ℕ). k + offset) product in
    let within : expected ≤ length buf = ground arith in
    subst (λ (c : ℕ × ℕ). (c.0 ≡ n) × (c.1 ≡ n * size + offset) × (n * size + offset ≤ length buf))
      (ok_inj made) (refl, sum, omega (arith, sum, within))
  where
    product_of : (t v : ℕ) → (if ltb t u64_mod then some t else none) ≡ some v → v ≡ t
    product_of t v e = ground arith

    sum_of : (a b c : ℕ) → checked_add u64_mod a b ≡ some c → c ≡ a + b
    sum_of a b c e = ground arith

pub ensure_count_in_bound_complete :
    (buf : Bytes) (n size offset : ℕ)
    → n * size + offset ≤ length buf
    → length buf < u64_mod
    → ensure_count_in_bound buf n size offset ≡ ok (n, n * size + offset)
unfolding ensure_count_in_bound
ensure_count_in_bound_complete buf n size offset h fits = go (n * size) h
  where
    go :
        (t : ℕ)
        → t + offset ≤ length buf
        → ◌>>=◌ {A = ℕ} {B = ℕ × ℕ}
            (ok_or stream_read_failure (
              Base.◌>>=◌
                (if ltb t u64_mod then some t else none)
                (λ v. checked_add u64_mod v offset)))
            (λ expected.
              if ltb (length buf) expected
              then err (stream_size_mismatch expected (length buf))
              else ok (n, expected))
          ≡ ok (n, t + offset)
    go t low = ground (arith, fits)

module _ {T : Type 0} (layout : Layout T) where
  -- `entries` are the structures that stand one behind the other from the offset `start` on.
  abbrev pub StandAt : Endian → Bytes → ℕ → List T → Type 0
  StandAt e bytes start [] = Unit
  StandAt e bytes start (x ∷ xs) =
      (layout.parse e bytes start ≡ some x) × StandAt e bytes (start + layout.size) xs

  pub read_entries_sound :
      (e : Endian) (bytes : Bytes) (count offset : ℕ) (entries : List T)
      → read_entries layout e bytes count offset ≡ some entries
      → (length entries ≡ count) × StandAt e bytes offset entries
  unfolding read_entries
  read_entries_sound e bytes zero offset entries h =
      subst (λ (l : List T). (length l ≡ 0) × StandAt e bytes offset l) (some_inj h) (refl, tt)
  read_entries_sound e bytes (suc count) offset entries h =
      let (raw, parsed, rest) = >>=-eq-some (layout.parse e bytes offset) _ h in
      let (more, found, made) =
        >>=-eq-some (read_entries layout e bytes count (offset + layout.size)) _ rest in
      let (counted, stand) = read_entries_sound e bytes count (offset + layout.size) more found in
      subst (λ (l : List T). (length l ≡ suc count) × StandAt e bytes offset l) (some_inj made)
        (ap suc counted, (parsed, stand))

  pub read_entries_complete :
      (e : Endian) (bytes : Bytes) (entries : List T) (offset : ℕ)
      → StandAt e bytes offset entries
      → read_entries layout e bytes (length entries) offset ≡ some entries
  unfolding read_entries
  read_entries_complete e bytes [] offset h = refl
  read_entries_complete e bytes (x ∷ xs) offset h =
      rw (h.0, read_entries_complete e bytes xs (offset + layout.size) h.1) refl

  -- What a list stream looks like: the number of the entries, nothing or four bytes, and the entries,
  -- up to the end.
  abbrev pub IsListStream : Scroll → Endian → Bytes → List T → Type 0
  IsListStream scroll e bytes entries =
      (scroll.pread 4 e bytes 0 ≡ some (length entries))
      × ((pad : ℕ) × ((pad ≡ 0) ⊎ (pad ≡ 4))
          × (length bytes ≡ length entries * layout.size + 4 + pad)
          × StandAt e bytes (4 + pad) entries)

  start_sound :
      (size counted start : ℕ)
      → entries_start layout size counted ≡ ok start
      → counted ≤ size
      → (pad : ℕ) × ((pad ≡ 0) ⊎ (pad ≡ 4)) × (size ≡ counted + pad) × (start ≡ 4 + pad)
  unfolding entries_start
  start_sound size counted start h low = elim (Bool-cases (nat_eq (size - counted) 0)) [
    | inl e ↦ (0, inl refl, ground arith, sym (ok_inj (rw e at h)))
    | inr e ↦ elim (Bool-cases (nat_eq (size - counted) 4)) [
      | inl d ↦ (4, inr refl, ground arith, sym (ok_inj (rw (e, d) at h)))
      | inr d ↦ cc (rw (e, d) at h)
    ]
  ]

  start_complete :
      (size counted pad : ℕ)
      → (pad ≡ 0) ⊎ (pad ≡ 4)
      → size ≡ counted + pad
      → entries_start layout size counted ≡ ok (4 + pad)
  unfolding entries_start
  start_complete size counted pad (inl z) e = ground arith
  start_complete size counted pad (inr z) e = ground arith

  -- A list stream is read exactly where it has the form of one, and then what is read are its
  -- entries, if its length is a 64-bit value; in all other cases an error is returned.
  pub read_stream_list_iff :
      (scroll : Scroll) (e : Endian) (bytes : Bytes) (entries : List T)
      → length bytes < u64_mod
      → (read_stream_list layout scroll e bytes ≡ ok entries) ↔ IsListStream scroll e bytes entries
  unfolding read_stream_list
  read_stream_list_iff scroll e bytes entries fits = (
    λ h.
        let (u, counted_read, rest) =
          >>=-eq-ok (ok_or stream_read_failure (scroll.pread 4 e bytes 0)) _ h in
        let (counted, bounded, rest2) =
          >>=-eq-ok (ensure_count_in_bound bytes u layout.size 4) _ rest in
        let (offset, started, rest3) =
          >>=-eq-ok (entries_start layout (length bytes) counted.1) _ rest2 in
        let (same, expected, within) =
          ensure_count_in_bound_sound bytes u layout.size 4 counted bounded in
        let (pad, kind, total, place) =
          start_sound (length bytes) counted.1 offset started (omega (arith, expected, within)) in
        let (number, stand) =
          read_entries_sound e bytes counted.0 offset entries
            (ok_or-eq-ok stream_read_failure _ rest3) in
        let count : length entries ≡ u = number ∙ same in
        (
          ok_or-eq-ok stream_read_failure _ counted_read ∙ ap some (sym count),
          (
            pad,
            kind,
            rw count (omega (arith, total, expected)),
            subst (λ (o : ℕ). StandAt e bytes o entries) place stand,
          ),
        ),
    λ (counted, (pad, kind, total, stand)).
        rw
          (
            counted,
            ensure_count_in_bound_complete bytes (length entries) layout.size 4
                (omega (arith, total)) fits,
            start_complete (length bytes) (length entries * layout.size + 4) pad kind total,
            read_entries_complete e bytes entries (4 + pad) stand,
          )
          refl,
  )
