-- ===== src/Minidump/Infos/Adjacent.antt =====
-- Two mappings of Linux, one behind the other. In /proc/PID/maps, which the stream is a copy of,
-- `limit` is the first address that a mapping does not hold any more.
use rust_minidump.Base.{
  ℕ, ◌<◌, ◌≡◌, sym, ap, subst, ◌∙◌, true, Bool-cases, none, some, List, [], ◌∷◌, ℕ-PartialEq,
  some_inj, u64_mod, arith, inl, inr, >>=-eq-some,
}
use rust_minidump.Ranges.{Range, IsNormal, RangeCrate, Entries, find_entry}
use rust_minidump.RangeMapSafe.{into_rangemap_safe, push_all, push_range, rev_onto}
use rust_minidump.RangeMapSafe.Sort.{sort_by_key}
use rust_minidump.RangeMapSafe.Agreement.{into_rangemap_safe_agree}
use rust_minidump.RangeMapSafe.Finished.{valid_entries}
use rust_minidump.Minidump.Indexed.{index_by_addr, indexed, element_at, picked}
use rust_minidump.Minidump.Infos.{
  MemoryMap, RegionList, map_range, linux_maps_from_regions, memory_info_at_address,
}

abbrev span : ℕ → ℕ → Range
span a b = record { start = a; end = b }

first_range :
    {P : Type 0} (a b : ℕ) (p : P)
    → a < b
    → map_range (let m : MemoryMap P = record { start = a; limit = b; rest = p } in m)
      ≡ some (span a b)
unfolding map_range
first_range a b p h = ground arith

module _ (c : RangeCrate) where
  first_le : (a b d : ℕ) → a < b → c.range_le (span a b) (span b d) ≡ true
  first_le a b d h = elim (Bool-cases (c.range_le (span a b) (span b d))) [
    | inl e ↦ e
    | inr e ↦ absurd (omega (arith, h, c.range_le-false (span a b) (span b d) e))
  ]

  -- The second range is dropped.
  kept_entries :
      (a b d : ℕ)
      → a < b
      → rev_onto
          (push_all
            (sort_by_key c.range_le (λ (x : Range × ℕ). x.0) ((span a b, 0) ∷ (span b d, 1) ∷ []))
            [])
          []
        ≡ (span a b, 0) ∷ []
  unfolding rev_onto push_all sort_by_key push_range
  kept_entries a b d h = rw (first_le a b d h) ground arith

  kept_map :
      (a b d : ℕ) (m : c.RangeMap ℕ)
      → a < b
      → b < u64_mod
      → into_rangemap_safe c ((span a b, 0) ∷ (span b d, 1) ∷ []) ≡ some m
      → c.ranges_values m ≡ (span a b, 0) ∷ []
  unfolding into_rangemap_safe
  kept_map a b d m h fits made =
      let single : IsNormal {V = ℕ} ((span a b, 0) ∷ []) = record {
        ordered = omega arith;
        end_fits = fits;
      } in
      let (m', made', same) = c.try_from_iter-IsNormal ((span a b, 0) ∷ []) single in
      let kept = ap (λ (l : Entries ℕ). c.try_from_iter l) (kept_entries a b d h) in
      ap c.ranges_values (some_inj (sym made ∙ kept ∙ made')) ∙ same

  lookup :
      (a b d x : ℕ) (m : c.RangeMap ℕ)
      → c.ranges_values m ≡ (span a b, 0) ∷ []
      → b < x
      → c.get m x ≡ none
  lookup a b d x m same h =
      c.get-ranges_values m x ∙ ap (λ (l : Entries ℕ). find_entry l x) same ∙ ground arith

  lookup_limit :
      (a b : ℕ) (m : c.RangeMap ℕ)
      → a < b
      → c.ranges_values m ≡ (span a b, 0) ∷ []
      → c.get m b ≡ some 0
  lookup_limit a b m h same =
      c.get-ranges_values m b ∙ ap (λ (l : Entries ℕ). find_entry l b) same ∙ ground arith

module _ {P : Type 0} (c : RangeCrate) where
  two_entries :
      (p q : P) (a b d : ℕ)
      → a < b
      → b < d
      → valid_entries (
          indexed map_range 0 (
            record { start = a; limit = b; rest = p }
            ∷ record { start = b; limit = d; rest = q }
            ∷ []))
        ≡ (span a b, 0) ∷ (span b d, 1) ∷ []
  unfolding indexed map_range
  two_entries p q a b d h k = ground arith

  -- Of two mappings, one behind the other, the second is lost: its first address is answered with the
  -- first mapping, and its other addresses with nothing, if its limit is a 64-bit value.
  pub memory_info_at_address-adjacent :
      (p q : P) (a b d x : ℕ) (l : RegionList c (MemoryMap P))
      → a < b
      → b < x
      → x < d
      → d < u64_mod
      → linux_maps_from_regions c (
          record { start = a; limit = b; rest = p }
          ∷ record { start = b; limit = d; rest = q }
          ∷ [])
        ≡ some l
      → (memory_info_at_address c l b ≡ some (some (record { start = a; limit = b; rest = p })))
        × (memory_info_at_address c l x ≡ some none)
  unfolding linux_maps_from_regions memory_info_at_address
  memory_info_at_address-adjacent p q a b d x l first inside second fits made =
      let maps : List (MemoryMap P) =
        record { start = a; limit = b; rest = p }
        ∷ record { start = b; limit = d; rest = q }
        ∷ [] in
      let (m, mapped, built) = >>=-eq-some (index_by_addr map_range c maps) _ made in
      let agreed =
        sym (into_rangemap_safe_agree c (indexed map_range 0 maps))
        ∙ unfold index_by_addr in mapped in
      let same =
        kept_map c a b d m first (omega arith)
          (ap (into_rangemap_safe c) (sym (two_entries p q a b d first (omega arith))) ∙ agreed) in
      subst
        (λ (l : RegionList c (MemoryMap P)).
          (memory_info_at_address c l b ≡ some (some (record { start = a; limit = b; rest = p })))
          × (memory_info_at_address c l x ≡ some none))
        (some_inj built)
        (
          unfold element_at in ap (picked maps) (lookup_limit c a b m first same),
          unfold element_at in ap (picked maps) (lookup c a b d x m same inside),
        )
