-- ===== src/Tests/RangeMaps.antt =====
-- `into_rangemap_safe` on overlapping and repeated ranges.
use rust_minidump.Base.{ℕ, ◌≡◌, refl, Option, none, some, List, [], ◌∷◌, arith, inl, ℕ-PartialEq}
use rust_minidump.Ranges.{Range, Entries, IsNormal}
use rust_minidump.RangeMapSafe.{
  into_rangemap_safe, into_rangemap_safe_opt, push_all, push_range, rev_onto,
}
use rust_minidump.RangeMapSafe.Sort.{sort_by_key, insert_by}
use rust_minidump.RangeMapSafe.Disjoint.{AllRanges}
use rust_minidump.RangeMapSafe.Covers.{Covers, Agrees}
use rust_minidump.RangeMapSafe.Finished.{
  valid_entries, into_rangemap_safe_total, into_rangemap_safe_sound, into_rangemap_safe_complete,
}
use rust_minidump.RangeMapSafe.Agreement.{into_rangemap_safe_agree}
use rust_minidump.Tests.Crates.{list_crate}

abbrev span : ℕ → ℕ → Range
span a b = record { start = a; end = b }

-- Out of order; the second overlaps the third with another value, the first continues the third.
abbrev messy : Entries ℕ
messy = (span 20 29, 1) ∷ (span 15 17, 2) ∷ (span 10 19, 1) ∷ []

messy-AllRanges : AllRanges messy
messy-AllRanges = omega arith

made : into_rangemap_safe list_crate messy ≡ some ((span 10 29, 1) ∷ [])
unfolding into_rangemap_safe push_all push_range sort_by_key insert_by rev_onto
made = refl

into_rangemap_safe_total_example :
    (m : Entries ℕ) × (into_rangemap_safe list_crate messy ≡ some m) × IsNormal m
into_rangemap_safe_total_example = into_rangemap_safe_total list_crate messy messy-AllRanges

into_rangemap_safe_sound_example : Covers messy 21 1
into_rangemap_safe_sound_example =
    into_rangemap_safe_sound list_crate messy ((span 10 29, 1) ∷ []) 21 1 messy-AllRanges made refl

first-Agrees : Agrees (span 20 29) 1 messy
first-Agrees b u h c = ground arith

into_rangemap_safe_complete_example : list_crate.get {V = ℕ} ((span 10 29, 1) ∷ []) 25 ≡ some 1
into_rangemap_safe_complete_example =
    into_rangemap_safe_complete list_crate messy ((span 10 29, 1) ∷ []) (span 20 29) 1 25
      messy-AllRanges made (inl refl) first-Agrees (omega arith)

abbrev partial : List (Option Range × ℕ)
partial = (some (span 20 29), 1) ∷ (none, 2) ∷ (some (span 10 19), 1) ∷ []

into_rangemap_safe_agree_example :
    into_rangemap_safe_opt list_crate partial
    ≡ into_rangemap_safe list_crate (valid_entries partial)
into_rangemap_safe_agree_example = into_rangemap_safe_agree list_crate partial
