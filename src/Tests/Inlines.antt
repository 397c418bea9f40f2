-- ===== src/Tests/Inlines.antt =====
-- Inlined calls A -> B -> C, and ranges of records.
use rust_minidump.Base.{◌+◌, ◌≡◌, ◌↔◌, ◌<◌, ◌-◌, refl, some, [], ◌∷◌, arith, In, inl, inr, u64_mod}
use rust_minidump.Ranges.{Range}
use rust_minidump.SymFile.Types.{
  Function, Inlinee, CallSite, get_inlinee_at_depth, call_site, range_of_size,
}
use rust_minidump.SymFile.Types.Inlinees.{
  CoversAt, IsSortedInlinees, IsNested, AllSized, site_of, get_inlinee_at_depth_sound,
  get_inlinee_at_depth_complete,
}
use rust_minidump.SymFile.Types.MemoryRange.{range_of_size_iff}
use rust_minidump.Tests.Crates.{list_crate, linear_search}

abbrev pub outer : Inlinee
outer = record { depth = 0; address = 100; size = 50; call_file = 1; call_line = 10; origin_id = 7 }

abbrev pub inner : Inlinee
inner = record { depth = 1; address = 110; size = 20; call_file = 2; call_line = 20; origin_id = 8 }

abbrev later : Inlinee
later = record { depth = 1; address = 130; size = 10; call_file = 2; call_line = 30; origin_id = 9 }

abbrev pub caller : Function list_crate
caller = record {
  address = 100;
  size = 60;
  parameter_size = 0;
  name = [];
  lines =
      (record { start = 100; end = 159 }, record { address = 100; size = 60; file = 3; line = 40 })
      ∷ [];
  inlinees = outer ∷ inner ∷ later ∷ [];
}

caller_sorted : IsSortedInlinees caller.inlinees
caller_sorted = grind arith

caller-IsNested : IsNested caller.inlinees
caller-IsNested = grind arith

caller_sized : AllSized caller.inlinees
caller_sized = omega arith

at_depth_one : get_inlinee_at_depth linear_search caller 1 135 ≡ some (2, 30, 130, 9)
unfolding get_inlinee_at_depth call_site
at_depth_one = refl

get_inlinee_at_depth_sound_example :
    (x : Inlinee) × In x caller.inlinees
    × CoversAt 1 135 x
    × (◌≡◌ {A = CallSite} (2, 30, 130, 9) (site_of x))
get_inlinee_at_depth_sound_example =
    get_inlinee_at_depth_sound linear_search caller 1 135 (2, 30, 130, 9) caller_sorted at_depth_one

get_inlinee_at_depth_complete_example :
    get_inlinee_at_depth linear_search caller 1 112 ≡ some (site_of inner)
get_inlinee_at_depth_complete_example =
    get_inlinee_at_depth_complete linear_search caller 1 112 inner caller_sorted caller-IsNested
      caller_sized (inr (inl refl)) (omega arith)

range_of_size_iff_example : (range_of_size 16 4 ≡ some (record { start = 16; end = 19 })) ↔ (
    (0 < 4)
    × (16 + 4 < u64_mod)
    × (◌≡◌ {A = Range} (record { start = 16; end = 19 }) (record { start = 16; end = 16 + 4 - 1 })))
range_of_size_iff_example = range_of_size_iff 16 4 (record { start = 16; end = 19 })
