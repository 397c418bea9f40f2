-- ===== src/Tests/Contexts.antt =====
-- The registers of contexts by their names.
use rust_minidump.Base.{◌≡◌, refl, none, some, text}
use rust_minidump.Unwind.Contexts.Arm64.{ContextArm64, xreg, arm64_index, arm64_context}
use rust_minidump.Unwind.Contexts.Fields.{put_field}
use rust_minidump.Unwind.Contexts.RoundTrip.{arm64, set_register_lem}

abbrev zeros : ContextArm64
zeros r = 0

run_unknown : arm64_context.write (text "eax") 1 zeros ≡ none
run_unknown = refl

run_stack_pointer : arm64_context.memoize (text "x31") ≡ none
run_stack_pointer = refl

set_register_lem_example :
    arm64_context.read (put_field arm64_index (xreg 29) 7 zeros) (text "fp") ≡ some 7
set_register_lem_example =
    set_register_lem arm64 (text "x29") (text "fp") (text "fp") (text "fp") 7 0 zeros
      (put_field arm64_index (xreg 29) 7 zeros) refl refl refl refl
