-- ===== src/Minidump/Unloaded/Lookup.antt =====
-- Which unloaded modules are given for an address.
use rust_minidump.Base.{
  ℕ, ◌+◌, ◌-◌, ◌≤◌, ◌<◌, ◌≡◌, ◌↔◌, ◌⊎◌, refl, sym, ap, subst, ◌∙◌, Bool-cases, false, some, List,
  [], ◌∷◌, Bytes, In, All, All-In, In-of_get_elem?, get_elem?_of_In, get_elem?, u64_mod, some_inj,
  inl, inr, arith,
}
use rust_minidump.Ranges.{Range, Inside, inside, RangeCrate, Entries}
use rust_minidump.RangeMapSafe.Sort.{sort_by_key, sort_by_key-In}
use rust_minidump.RangeMapSafe.Finished.{valid_entries, All-of_In}
use rust_minidump.SymFile.Types.MemoryRange.{range_of_size_iff}
use rust_minidump.Minidump.Errors.{data_error, ok, ok_or, >>=-eq-ok, ok_inj, if_err-eq-ok}
use rust_minidump.Minidump.Scroll.{Endian, Scroll, Layout}
use rust_minidump.Minidump.Lists.{read_ex_stream_list}
use rust_minidump.Minidump.Indexed.{indexed, HasRange, In-indexed, indexed-In}
use rust_minidump.Minidump.Strings.{Decoder, read_string_utf16}
use rust_minidump.Minidump.Modules.{bad_size}
use rust_minidump.Minidump.Unloaded.{
  RawUnloadedModule, MinidumpUnloadedModule, MinidumpUnloadedModuleList, unloaded_range,
  read_unloaded_module, read_unloaded_modules, unloaded_from_modules, held_at, modules_at_address,
  read_unloaded_list,
}

abbrev pub HoldsAt : ℕ → MinidumpUnloadedModule → Type 0
HoldsAt a m = (m.raw.base_of_image ≤ a) × (a < m.raw.base_of_image + m.raw.size_of_image)

abbrev HasSize : MinidumpUnloadedModule → Type 0
HasSize m = (0 < m.raw.size_of_image) × (m.raw.base_of_image + m.raw.size_of_image < u64_mod)

module _ (modules : List MinidumpUnloadedModule) (a : ℕ) where
  -- Some entry whose range holds the address has the index of `m`.
  abbrev Points : MinidumpUnloadedModule → Entries ℕ → Type 0
  Points m [] = ⊥
  Points m ((r, i) ∷ l) = (Inside a r × (get_elem? modules i ≡ some m)) ⊎ Points m l

  abbrev InBounds : Range × ℕ → Type 0
  InBounds p = (m : MinidumpUnloadedModule) × (get_elem? modules p.1 ≡ some m)

  Points-iff :
      (m : MinidumpUnloadedModule) (l : Entries ℕ)
      → Points m l ↔ ((p : Range × ℕ) × In p l × Inside a p.0 × (get_elem? modules p.1 ≡ some m))
  Points-iff m [] = (λ h. absurd h, λ (p, i, w, e). absurd i)
  Points-iff m ((r, i) ∷ l) = (
    λ h. elim h [
      | inl (w, e) ↦ ((r, i), inl refl, w, e)
      | inr k ↦ let (p, j, w, e) = (Points-iff m l).0 k in (p, inr j, w, e)
    ],
    λ (p, j, w, e). elim j [
      | inl d ↦
          inl (subst (λ (q : Range × ℕ). Inside a q.0 × (get_elem? modules q.1 ≡ some m)) d (w, e))
      | inr k ↦ inr ((Points-iff m l).1 (p, k, w, e))
    ],
  )

  held_at-Points :
      (l : Entries ℕ)
      → All InBounds l
      → (out : List MinidumpUnloadedModule) × (held_at modules a l ≡ some out)
        × ((m : MinidumpUnloadedModule) → In m out ↔ Points m l)
  unfolding held_at
  held_at-Points [] h = ([], refl, λ m. (λ i. i, λ i. i))
  held_at-Points ((r, i) ∷ l) ((n, e), bounds) =
      let (out, made, same) = held_at-Points l bounds in
      elim (Bool-cases (inside a r)) [
        | inl within ↦ (
          n ∷ out,
          rw (within, e, made) refl,
          λ m. (
            λ h. elim h [
              | inl d ↦ inl ((ground arith), e ∙ ap some (sym d))
              | inr k ↦ inr ((same m).0 k)
            ],
            λ h. elim h [ inl (w, d) ↦ inl (some_inj (sym d ∙ e)) | inr k ↦ inr ((same m).1 k) ],
          ),
        )
        | inr out_of ↦ (
          out,
          rw out_of made,
          λ m. (
            λ h. inr ((same m).0 h),
            λ h. elim h [ inl (w, d) ↦ absurd (outside w out_of) | inr k ↦ (same m).1 k ],
          ),
        )
      ]
    where
      outside : Inside a r → inside a r ≡ false → ⊥
      outside w beyond = ground arith

read_unloaded_modules-HasSize :
    (scroll : Scroll) (decode : Decoder) (raws : List RawUnloadedModule) (all : Bytes) (e : Endian)
    (ms : List MinidumpUnloadedModule)
    → read_unloaded_modules scroll decode raws all e ≡ ok ms
    → All HasSize ms
unfolding read_unloaded_modules read_unloaded_module
read_unloaded_modules-HasSize scroll decode [] all e ms h = subst (All HasSize) (ok_inj h) tt
read_unloaded_modules-HasSize scroll decode (raw ∷ raws) all e ms h =
    let (good, h2) = if_err-eq-ok (bad_size raw.base_of_image raw.size_of_image) _ _ h in
    let (m, found, h3) = >>=-eq-ok (read_unloaded_module scroll decode raw all e) _ h2 in
    let (rest, others, made) = >>=-eq-ok (read_unloaded_modules scroll decode raws all e) _ h3 in
    let (name, named, built) =
      >>=-eq-ok (ok_or data_error (read_string_utf16 scroll decode raw.module_name_rva all e)) _
        found in
    let size : HasSize (record { raw = raw; name = name.0 }) =
      sized raw.base_of_image raw.size_of_image good in
    subst (All HasSize) (ok_inj made) (
      subst HasSize (ok_inj built) size,
      read_unloaded_modules-HasSize scroll decode raws all e rest others,
    )
  where
    sized : (base size : ℕ) → bad_size base size ≡ false → (0 < size) × (base + size < u64_mod)
    sized base size good = (ground arith, ground arith)

HoldsAt-iff :
    (m : MinidumpUnloadedModule) (a : ℕ)
    → HasSize m
    → HoldsAt a m ↔ ((r : Range) × (unloaded_range m ≡ some r) × Inside a r)
unfolding unloaded_range
HoldsAt-iff m a (size, fits) = (
  λ (low, high). (
    _,
    (range_of_size_iff m.raw.base_of_image m.raw.size_of_image _).1 (size, fits, refl),
    (low, omega (arith, high)),
  ),
  λ (r, has, (low, high)).
      let (z, f, same) = (range_of_size_iff m.raw.base_of_image m.raw.size_of_image r).0 has in
      let start : r.start ≡ m.raw.base_of_image = ap (λ (q : Range). q.start) same in
      let end : r.end ≡ m.raw.base_of_image + m.raw.size_of_image - 1 =
        ap (λ (q : Range). q.end) same in
      (omega (arith, low, start), omega (arith, high, end, size)),
)

module _ (c : RangeCrate) (ms : List MinidumpUnloadedModule) where
  abbrev entries : Entries ℕ
  entries = sort_by_key c.range_le (λ x. x.0) (valid_entries (indexed unloaded_range 0 ms))

  entries_iff : (r : Range) (i : ℕ) → In (r, i) entries ↔ HasRange unloaded_range ms i r
  entries_iff r i = (
    λ h.
        let (j, e, has) = In-indexed unloaded_range 0 ms r i (
          (sort_by_key-In c.range_le (λ x. x.0) (valid_entries (indexed unloaded_range 0 ms))
              (r, i)).0
            h) in
        subst (λ (k : ℕ). HasRange unloaded_range ms k r) (omega (arith, e)) has,
    λ has.
        (sort_by_key-In c.range_le (λ x. x.0) (valid_entries (indexed unloaded_range 0 ms))
            (r, i)).1
          (subst (λ (k : ℕ). In (r, k) (valid_entries (indexed unloaded_range 0 ms))) (omega arith)
            (indexed-In unloaded_range 0 ms r i has)),
  )

  entries-InBounds : (a : ℕ) → All (InBounds ms a) entries
  entries-InBounds a =
      All-of_In (InBounds ms a) entries
        (λ p i. let (x, e, has) = (entries_iff p.0 p.1).0 i in (x, e))

  Points-entries_iff :
      (a : ℕ) (m : MinidumpUnloadedModule)
      → All HasSize ms
      → Points ms a m entries ↔ (In m ms × HoldsAt a m)
  Points-entries_iff a m sizes = (
    λ h.
        let (p, i, within, e) = (Points-iff ms a m entries).0 h in
        let (x, d, has) = (entries_iff p.0 p.1).0 i in
        let same : x ≡ m = some_inj (sym d ∙ e) in
        let member = In-of_get_elem? ms p.1 m e in
        (
          member,
          (HoldsAt-iff m a (All-In HasSize m ms sizes member)).1
              (p.0, ap unloaded_range (sym same) ∙ has, within),
        ),
    λ (member, holds).
        let (i, e) = get_elem?_of_In ms m member in
        let (r, has, within) = (HoldsAt-iff m a (All-In HasSize m ms sizes member)).0 holds in
        (Points-iff ms a m entries).1 ((r, i), (entries_iff r i).1 (m, e, has), within, e),
  )

  pub held_at-entries :
      (a : ℕ)
      → All HasSize ms
      → (out : List MinidumpUnloadedModule) × (held_at ms a entries ≡ some out)
        × ((m : MinidumpUnloadedModule) → In m out ↔ (In m ms × HoldsAt a m))
  held_at-entries a sizes =
      let (out, made, same) = held_at-Points ms a entries (entries-InBounds a) in
      (
        out,
        made,
        λ m.
            let (there, back) = Points-entries_iff a m sizes in
            (λ h. there ((same m).0 h), λ h. (same m).1 (back h)),
      )

-- In a list of unloaded modules that is read, the look-up of an address is never a panic, and gives
-- exactly the modules of the list whose images hold the address.
pub modules_at_address-read :
    (c : RangeCrate) (scroll : Scroll) (decode : Decoder) (layout : Layout RawUnloadedModule)
    (bytes all : Bytes) (e : Endian) (l : MinidumpUnloadedModuleList) (a : ℕ)
    → read_unloaded_list c scroll decode layout bytes all e ≡ ok l
    → (out : List MinidumpUnloadedModule) × (modules_at_address l a ≡ some out)
      × ((m : MinidumpUnloadedModule) → In m out ↔ (In m l.modules × HoldsAt a m))
unfolding read_unloaded_list modules_at_address unloaded_from_modules
modules_at_address-read c scroll decode layout bytes all e l a h =
    let (raws, listed, h2) = >>=-eq-ok (read_ex_stream_list layout scroll e bytes) _ h in
    let (ms, found, built) = >>=-eq-ok (read_unloaded_modules scroll decode raws all e) _ h2 in
    subst
      (λ (l : MinidumpUnloadedModuleList).
        (out : List MinidumpUnloadedModule) × (modules_at_address l a ≡ some out)
        × ((m : MinidumpUnloadedModule) → In m out ↔ (In m l.modules × HoldsAt a m)))
      (ok_inj built)
      (held_at-entries c ms a (read_unloaded_modules-HasSize scroll decode raws all e ms found))
