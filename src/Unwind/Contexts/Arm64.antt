-- ===== src/Unwind/Contexts/Arm64.antt =====
-- minidump/src/context.rs: CONTEXT_ARM64, and CONTEXT_ARM64_OLD, whose code is the same.
use rust_minidump.Base.{ℕ, ◌+◌, Bool, Option, List, [], ◌∷◌, Bytes, text, u64_mod}
use rust_minidump.Unwind.Contexts.{CpuContext, MinidumpContextValidity, all, only, is_some}
use rust_minidump.Unwind.Contexts.Fields.{memoize_aliases, valid_by_alias, read_field, write_field}

-- `iregs[n]`, and the two registers with fields of their own.
pub data Arm64Register : Type 0 where
  xreg : ℕ → Arm64Register
  sp pc : Arm64Register

abbrev pub arm64_index : Arm64Register → ℕ
arm64_index sp = 0
arm64_index pc = 1
arm64_index (xreg n) = n + 2

abbrev pub arm64_fields : List (Bytes × Arm64Register)
arm64_fields =
    (text "x0", xreg 0)
    ∷ (text "x1", xreg 1)
    ∷ (text "x2", xreg 2)
    ∷ (text "x3", xreg 3)
    ∷ (text "x4", xreg 4)
    ∷ (text "x5", xreg 5)
    ∷ (text "x6", xreg 6)
    ∷ (text "x7", xreg 7)
    ∷ (text "x8", xreg 8)
    ∷ (text "x9", xreg 9)
    ∷ (text "x10", xreg 10)
    ∷ (text "x11", xreg 11)
    ∷ (text "x12", xreg 12)
    ∷ (text "x13", xreg 13)
    ∷ (text "x14", xreg 14)
    ∷ (text "x15", xreg 15)
    ∷ (text "x16", xreg 16)
    ∷ (text "x17", xreg 17)
    ∷ (text "x18", xreg 18)
    ∷ (text "x19", xreg 19)
    ∷ (text "x20", xreg 20)
    ∷ (text "x21", xreg 21)
    ∷ (text "x22", xreg 22)
    ∷ (text "x23", xreg 23)
    ∷ (text "x24", xreg 24)
    ∷ (text "x25", xreg 25)
    ∷ (text "x26", xreg 26)
    ∷ (text "x27", xreg 27)
    ∷ (text "x28", xreg 28)
    ∷ (text "x29", xreg 29)
    ∷ (text "x30", xreg 30)
    ∷ (text "pc", pc)
    ∷ (text "sp", sp)
    ∷ (text "lr", xreg 30)
    ∷ (text "fp", xreg 29)
    ∷ []

abbrev pub arm64_registers : List Bytes
arm64_registers =
    text "x0"
    ∷ text "x1"
    ∷ text "x2"
    ∷ text "x3"
    ∷ text "x4"
    ∷ text "x5"
    ∷ text "x6"
    ∷ text "x7"
    ∷ text "x8"
    ∷ text "x9"
    ∷ text "x10"
    ∷ text "x11"
    ∷ text "x12"
    ∷ text "x13"
    ∷ text "x14"
    ∷ text "x15"
    ∷ text "x16"
    ∷ text "x17"
    ∷ text "x18"
    ∷ text "x19"
    ∷ text "x20"
    ∷ text "x21"
    ∷ text "x22"
    ∷ text "x23"
    ∷ text "x24"
    ∷ text "x25"
    ∷ text "x26"
    ∷ text "x27"
    ∷ text "x28"
    ∷ text "fp"
    ∷ text "lr"
    ∷ text "sp"
    ∷ text "pc"
    ∷ []

abbrev pub arm64_aliases : List (Bytes × Bytes)
arm64_aliases = (text "x29", text "fp") ∷ (text "x30", text "lr") ∷ []

abbrev pub arm64_memoize_register : Bytes → Option Bytes
arm64_memoize_register reg = memoize_aliases arm64_aliases arm64_registers reg

unfoldable pub arm64_register_is_valid : Bytes → MinidumpContextValidity → Bool
arm64_register_is_valid reg (only which) = valid_by_alias arm64_aliases reg which
arm64_register_is_valid reg all = is_some (arm64_memoize_register reg)

abbrev pub ContextArm64 : Type 0
ContextArm64 = Arm64Register → ℕ

abbrev pub arm64_context : CpuContext ContextArm64
arm64_context = record {
  register_mod = u64_mod;
  is_valid = arm64_register_is_valid;
  read = read_field arm64_index arm64_fields;
  write = write_field arm64_index arm64_fields;
  memoize = arm64_memoize_register;
  stack_pointer_register_name = text "sp";
  instruction_pointer_register_name = text "pc";
}
