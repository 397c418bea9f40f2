-- ===== src/Unwind/Contexts/RoundTrip.antt =====
-- Writing a register and reading it back, under all its names.
use rust_minidump.Base.{ℕ, ◌≡◌, refl, some, Bytes, bytes_eq, if◌then◌else◌}
use rust_minidump.Unwind.Contexts.{CpuContext}
use rust_minidump.Unwind.Contexts.Fields.{read_field-write_field}
use rust_minidump.Unwind.Contexts.Amd64.{ContextAmd64, amd64_index, amd64_fields, amd64_context}
use rust_minidump.Unwind.Contexts.Arm.{ContextArm, arm_index, arm_fields, arm_context}
use rust_minidump.Unwind.Contexts.Arm64.{ContextArm64, arm64_index, arm64_fields, arm64_context}

-- Variants of `MinidumpRawContext`, with the type of the context and its implementation of the trait.
pub data RawContext : Type 0 where
  amd64 arm arm64 : RawContext

abbrev pub ContextOf : RawContext → Type 0
ContextOf amd64 = ContextAmd64
ContextOf arm = ContextArm
ContextOf arm64 = ContextArm64

abbrev pub cpu_of : (raw : RawContext) → CpuContext (ContextOf raw)
cpu_of amd64 = amd64_context
cpu_of arm = arm_context
cpu_of arm64 = arm64_context

-- On amd64, arm and arm64 a register that is set is read back, under every name that memoizes to the
-- same name, and any other register keeps its value: a register's alias stands for the same field,
-- and no other name does.
pub set_register_lem :
    (raw : RawContext) (reg other m n : Bytes) (val old : ℕ) (ctx ctx' : ContextOf raw)
    → (cpu_of raw).memoize reg ≡ some m
    → (cpu_of raw).memoize other ≡ some n
    → (cpu_of raw).write reg val ctx ≡ some ctx'
    → (cpu_of raw).read ctx other ≡ some old
    → (cpu_of raw).read ctx' other ≡ some (if bytes_eq m n then val else old)
set_register_lem amd64 = read_field-write_field amd64_index amd64_fields amd64_context.memoize refl
set_register_lem arm = read_field-write_field arm_index arm_fields arm_context.memoize refl
set_register_lem arm64 = read_field-write_field arm64_index arm64_fields arm64_context.memoize refl
