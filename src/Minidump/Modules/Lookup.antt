-- ===== src/Minidump/Modules/Lookup.antt =====
-- Which module a list answers for an address.
use rust_minidump.Base.{
  ℕ, ◌+◌, ◌-◌, ◌≤◌, ◌<◌, ◌≡◌, ◌≢◌, refl, sym, ap, subst, ◌∙◌, Bool-cases, false, Option, none, some,
  List, [], ◌∷◌, Bytes, In, All, All-get, get_elem?, nat_eq, if◌then◌else◌, u64_mod, some_inj, inl,
  inr, arith,
}
use rust_minidump.Ranges.{Range, IsRange, Inside, RangeCrate}
use rust_minidump.SymFile.Types.MemoryRange.{range_of_size_iff, range_of_size-IsRange}
use rust_minidump.Minidump.Errors.{code_view_read_failure, ok, ok_or, >>=-eq-ok, ok_inj}
use rust_minidump.Minidump.Scroll.{Endian, Scroll, Layout}
use rust_minidump.Minidump.Lists.{read_stream_list}
use rust_minidump.Minidump.Indexed.{
  index_by_addr, index_by_addr_total, element_at_sound, element_at_complete, Answers,
}
use rust_minidump.Minidump.Strings.{Decoder, read_string_utf16}
use rust_minidump.Minidump.CodeViews.{DebugCrate, read_codeview}
use rust_minidump.Minidump.Modules.{
  Os, RawModule, MinidumpModule, MinidumpModuleList, bad_size, wrap_some, module_range, read_module,
  read_modules, from_modules, module_at_address, read_module_list,
}

module _ (d : DebugCrate) where
  -- The image is not empty and ends below 2 ^ 64.
  abbrev pub HasImage : RawModule → Type 0
  HasImage raw = (0 < raw.size_of_image) × (raw.base_of_image + raw.size_of_image < u64_mod)

  -- The address lies in the module's image.
  abbrev pub Contains : ℕ → MinidumpModule d → Type 0
  Contains a m = (m.raw.base_of_image ≤ a) × (a < m.raw.base_of_image + m.raw.size_of_image)

  -- What may be answered for an address: nothing, or a module of the list that holds it.
  abbrev pub IsAnswer : List (MinidumpModule d) → ℕ → Option (MinidumpModule d) → Type 0
  IsAnswer ms a none = Unit
  IsAnswer ms a (some m) = In m ms × Contains a m

  module_range-IsRange : (m : MinidumpModule d) (r : Range) → module_range d m ≡ some r → IsRange r
  unfolding module_range
  module_range-IsRange m r h = range_of_size-IsRange m.raw.base_of_image m.raw.size_of_image r h

  Contains-of_range :
      (m : MinidumpModule d) (r : Range) (a : ℕ)
      → module_range d m ≡ some r
      → Inside a r
      → Contains a m
  unfolding module_range
  Contains-of_range m r a has (low, high) =
      let (size, fits, same) =
        (range_of_size_iff m.raw.base_of_image m.raw.size_of_image r).0 has in
      let start : r.start ≡ m.raw.base_of_image = ap (λ (q : Range). q.start) same in
      let end : r.end ≡ m.raw.base_of_image + m.raw.size_of_image - 1 =
        ap (λ (q : Range). q.end) same in
      (omega (arith, low, start), omega (arith, high, end, size))

  image_range :
      (m : MinidumpModule d)
      → HasImage m.raw
      → module_range d m
        ≡ some (record {
          start = m.raw.base_of_image;
          end = m.raw.base_of_image + m.raw.size_of_image - 1;
        })
  unfolding module_range
  image_range m (size, fits) =
      (range_of_size_iff m.raw.base_of_image m.raw.size_of_image _).1 (size, fits, refl)

  read_module-raw :
      (scroll : Scroll) (decode : Decoder) (raw : RawModule) (all : Bytes) (e : Endian)
      (os : Option Os) (m : MinidumpModule d)
      → read_module d scroll decode raw all e os ≡ ok m
      → m.raw ≡ raw
  unfolding read_module
  read_module-raw scroll decode raw all e os m h =
      let (name, named, h2) =
        >>=-eq-ok
          (ok_or code_view_read_failure (read_string_utf16 scroll decode raw.module_name_rva all e))
          _ h in
      let (cv, found, made) =
        >>=-eq-ok
          (if nat_eq raw.cv_record.data_size 0
            then ok none
            else ok_or code_view_read_failure
                (wrap_some d (read_codeview scroll raw.cv_record all e)))
          _ h2 in
      sym (ap (λ (n : MinidumpModule d). n.raw) (ok_inj made))

  good_size : (base size : ℕ) → bad_size base size ≡ false → (0 < size) × (base + size < u64_mod)
  good_size base size h = (ground arith, ground arith)

  read_modules-HasImage :
      (scroll : Scroll) (decode : Decoder) (raws : List RawModule) (all : Bytes) (e : Endian)
      (os : Option Os) (ms : List (MinidumpModule d))
      → read_modules d scroll decode raws all e os ≡ ok ms
      → All (λ (m : MinidumpModule d). HasImage m.raw) ms
  unfolding read_modules
  read_modules-HasImage scroll decode [] all e os ms h =
      subst (All (λ (m : MinidumpModule d). HasImage m.raw)) (ok_inj h) tt
  read_modules-HasImage scroll decode (raw ∷ raws) all e os ms h =
      elim (Bool-cases (bad_size raw.base_of_image raw.size_of_image)) [
        | inl bad ↦ read_modules-HasImage scroll decode raws all e os ms (rw bad at h)
        | inr good ↦
            let (m, found, h2) =
              >>=-eq-ok (read_module d scroll decode raw all e os) _ (rw good at h) in
            let (rest, others, made) =
              >>=-eq-ok (read_modules d scroll decode raws all e os) _ h2 in
            subst (All (λ (m : MinidumpModule d). HasImage m.raw)) (ok_inj made) (
              subst HasImage (sym (read_module-raw scroll decode raw all e os m found))
                  (good_size raw.base_of_image raw.size_of_image good),
              read_modules-HasImage scroll decode raws all e os rest others,
            )
      ]

  module _ (c : RangeCrate) where
    from_modules_total :
        (ms : List (MinidumpModule d))
        → (l : MinidumpModuleList c d) × (from_modules d c ms ≡ some l)
          × (l.modules ≡ ms)
          × (index_by_addr (module_range d) c l.modules ≡ some l.modules_by_addr)
    unfolding from_modules
    from_modules_total ms =
        let (m, made) = index_by_addr_total (module_range d) module_range-IsRange c ms in
        (record { modules = ms; modules_by_addr = m }, rw made refl, refl, made)

    -- No lookup in a list that `from_modules` makes is an index panic.
    pub made_at_address :
        (ms : List (MinidumpModule d)) (l : MinidumpModuleList c d)
        → from_modules d c ms ≡ some l
        → (a : ℕ) → module_at_address d c l a ≢ none
    unfolding module_at_address
    made_at_address ms l h a e =
        let (m, made, same, indexed) = from_modules_total ms in
        let (answer, given, right) =
          element_at_sound (module_range d) module_range-IsRange c m.modules m.modules_by_addr a
            indexed in
        let equal : m ≡ l = some_inj (sym made ∙ h) in
        none_ne (
          sym e
          ∙ ap (λ (l : MinidumpModuleList c d). module_at_address d c l a) (sym equal)
          ∙ given)
      where
        none_ne : {A : Type 0} {o : A} → none ≡ some o → ⊥
        none_ne h = cc

    IsAnswer-of_Answers :
        (ms : List (MinidumpModule d)) (a : ℕ) (o : Option (MinidumpModule d))
        → Answers (module_range d) module_range-IsRange ms a o
        → IsAnswer ms a o
    IsAnswer-of_Answers ms a none h = tt
    IsAnswer-of_Answers ms a (some m) (member, (r, has, within)) =
        (member, Contains-of_range m r a has within)

    module _ (scroll : Scroll) (decode : Decoder) (layout : Layout RawModule) where
      -- A module list that is read is never a panic. All its modules have images that are not empty
      -- and end below 2 ^ 64, and looking an address up is never a panic either: it gives nothing or a
      -- module of the list whose image holds the address.
      pub module_at_address-read :
          (bytes all : Bytes) (e : Endian) (os : Option Os) (o : Option (MinidumpModuleList c d))
          → read_module_list d c scroll decode layout bytes all e os ≡ ok o
          → (l : MinidumpModuleList c d) × (o ≡ some l)
            × All (λ (m : MinidumpModule d). HasImage m.raw) l.modules
            × ((a : ℕ)
                → (answer : Option (MinidumpModule d)) × (module_at_address d c l a ≡ some answer)
                  × IsAnswer l.modules a answer)
      unfolding read_module_list module_at_address
      module_at_address-read bytes all e os o h =
          let (raws, listed, h2) = >>=-eq-ok (read_stream_list layout scroll e bytes) _ h in
          let (ms, found, built) = >>=-eq-ok (read_modules d scroll decode raws all e os) _ h2 in
          let (l, made, same, indexed) = from_modules_total ms in
          (
            l,
            sym (ok_inj built) ∙ made,
            subst (All (λ (m : MinidumpModule d). HasImage m.raw)) (sym same)
                (read_modules-HasImage scroll decode raws all e os ms found),
            λ a.
                let (answer, given, right) =
                  element_at_sound (module_range d) module_range-IsRange c l.modules
                    l.modules_by_addr a indexed in
                (answer, given, IsAnswer-of_Answers l.modules a answer right),
          )

      -- In a module list that is read, a module whose image no other image meets is answered for every
      -- address in it.
      pub module_at_address_complete :
          (bytes all : Bytes) (e : Endian) (os : Option Os) (l : MinidumpModuleList c d) (a i : ℕ)
          (m : MinidumpModule d)
          → read_module_list d c scroll decode layout bytes all e os ≡ ok (some l)
          → get_elem? l.modules i ≡ some m
          → Contains a m
          → ((j b : ℕ) (n : MinidumpModule d)
              → get_elem? l.modules j ≡ some n
              → Contains b m
              → Contains b n
              → j ≡ i)
          → module_at_address d c l a ≡ some (some m)
      unfolding read_module_list module_at_address
      module_at_address_complete bytes all e os l a i m h stands within alone =
          let (raws, listed, h2) = >>=-eq-ok (read_stream_list layout scroll e bytes) _ h in
          let (ms, found, built) = >>=-eq-ok (read_modules d scroll decode raws all e os) _ h2 in
          let (l', made, same, indexed) = from_modules_total ms in
          let equal : l' ≡ l = some_inj (sym made ∙ ok_inj built) in
          let images =
            subst
              (λ (l : MinidumpModuleList c d).
                All (λ (m : MinidumpModule d). HasImage m.raw) l.modules)
              equal
              (subst (All (λ (m : MinidumpModule d). HasImage m.raw)) (sym same)
                (read_modules-HasImage scroll decode raws all e os ms found)) in
          let image : HasImage m.raw =
            All-get (λ (m : MinidumpModule d). HasImage m.raw) l.modules i m images stands in
          element_at_complete (module_range d) module_range-IsRange c l.modules l.modules_by_addr a
            i m _
            (subst
              (λ (l : MinidumpModuleList c d).
                index_by_addr (module_range d) c l.modules ≡ some l.modules_by_addr)
              equal indexed)
            stands (image_range m image)
            (λ j b s (n, stands', has) within' inside.
              alone j b n stands' (omega (arith, within'.0), omega (arith, within'.1, image.0))
                (Contains-of_range n s b has inside))
            (within.0, omega (arith, within.1))
