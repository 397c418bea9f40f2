-- ===== src/Unwind/Contexts/Arm.antt =====
-- minidump/src/context.rs: CONTEXT_ARM. The registers are the array `iregs`.
use rust_minidump.Base.{ℕ, Bool, Option, List, [], ◌∷◌, Bytes, text, u32_mod}
use rust_minidump.Unwind.Contexts.{CpuContext, MinidumpContextValidity, all, only, is_some}
use rust_minidump.Unwind.Contexts.Fields.{memoize_aliases, valid_by_alias, read_field, write_field}

-- `iregs[n]`
pub data ArmRegister : Type 0 where
  ireg : ℕ → ArmRegister

abbrev pub arm_index : ArmRegister → ℕ
arm_index (ireg n) = n

abbrev pub arm_fields : List (Bytes × ArmRegister)
arm_fields =
    (text "r0", ireg 0)
    ∷ (text "r1", ireg 1)
    ∷ (text "r2", ireg 2)
    ∷ (text "r3", ireg 3)
    ∷ (text "r4", ireg 4)
    ∷ (text "r5", ireg 5)
    ∷ (text "r6", ireg 6)
    ∷ (text "r7", ireg 7)
    ∷ (text "r8", ireg 8)
    ∷ (text "r9", ireg 9)
    ∷ (text "r10", ireg 10)
    ∷ (text "r11", ireg 11)
    ∷ (text "r12", ireg 12)
    ∷ (text "r13", ireg 13)
    ∷ (text "r14", ireg 14)
    ∷ (text "r15", ireg 15)
    ∷ (text "pc", ireg 15)
    ∷ (text "lr", ireg 14)
    ∷ (text "fp", ireg 11)
    ∷ (text "sp", ireg 13)
    ∷ []

abbrev pub arm_registers : List Bytes
arm_registers =
    text "r0"
    ∷ text "r1"
    ∷ text "r2"
    ∷ text "r3"
    ∷ text "r4"
    ∷ text "r5"
    ∷ text "r6"
    ∷ text "r7"
    ∷ text "r8"
    ∷ text "r9"
    ∷ text "r10"
    ∷ text "r12"
    ∷ text "fp"
    ∷ text "sp"
    ∷ text "lr"
    ∷ text "pc"
    ∷ []

abbrev pub arm_aliases : List (Bytes × Bytes)
arm_aliases =
    (text "r11", text "fp")
    ∷ (text "r13", text "sp")
    ∷ (text "r14", text "lr")
    ∷ (text "r15", text "pc")
    ∷ []

abbrev pub arm_memoize_register : Bytes → Option Bytes
arm_memoize_register reg = memoize_aliases arm_aliases arm_registers reg

unfoldable pub arm_register_is_valid : Bytes → MinidumpContextValidity → Bool
arm_register_is_valid reg (only which) = valid_by_alias arm_aliases reg which
arm_register_is_valid reg all = is_some (arm_memoize_register reg)

abbrev pub ContextArm : Type 0
ContextArm = ArmRegister → ℕ

abbrev pub arm_context : CpuContext ContextArm
arm_context = record {
  register_mod = u32_mod;
  is_valid = arm_register_is_valid;
  read = read_field arm_index arm_fields;
  write = write_field arm_index arm_fields;
  memoize = arm_memoize_register;
  stack_pointer_register_name = text "sp";
  instruction_pointer_register_name = text "pc";
}
