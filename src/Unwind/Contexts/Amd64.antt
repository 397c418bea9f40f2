-- ===== src/Unwind/Contexts/Amd64.antt =====
-- minidump/src/context.rs: CONTEXT_AMD64.
use rust_minidump.Base.{ℕ, List, [], ◌∷◌, Bytes, text, u64_mod}
use rust_minidump.Unwind.Contexts.{CpuContext, register_is_valid}
use rust_minidump.Unwind.Contexts.Fields.{default_memoize_register, read_field, write_field}

pub data Amd64Register : Type 0 where
  rax rdx rcx rbx rsi rdi rbp rsp r8 r9 r10 r11 r12 r13 r14 r15 rip : Amd64Register

abbrev pub amd64_index : Amd64Register → ℕ
amd64_index rax = 0
amd64_index rdx = 1
amd64_index rcx = 2
amd64_index rbx = 3
amd64_index rsi = 4
amd64_index rdi = 5
amd64_index rbp = 6
amd64_index rsp = 7
amd64_index r8 = 8
amd64_index r9 = 9
amd64_index r10 = 10
amd64_index r11 = 11
amd64_index r12 = 12
amd64_index r13 = 13
amd64_index r14 = 14
amd64_index r15 = 15
amd64_index rip = 16

abbrev pub amd64_fields : List (Bytes × Amd64Register)
amd64_fields =
    (text "rax", rax)
    ∷ (text "rdx", rdx)
    ∷ (text "rcx", rcx)
    ∷ (text "rbx", rbx)
    ∷ (text "rsi", rsi)
    ∷ (text "rdi", rdi)
    ∷ (text "rbp", rbp)
    ∷ (text "rsp", rsp)
    ∷ (text "r8", r8)
    ∷ (text "r9", r9)
    ∷ (text "r10", r10)
    ∷ (text "r11", r11)
    ∷ (text "r12", r12)
    ∷ (text "r13", r13)
    ∷ (text "r14", r14)
    ∷ (text "r15", r15)
    ∷ (text "rip", rip)
    ∷ []

abbrev pub amd64_registers : List Bytes
amd64_registers =
    text "rax"
    ∷ text "rdx"
    ∷ text "rcx"
    ∷ text "rbx"
    ∷ text "rsi"
    ∷ text "rdi"
    ∷ text "rbp"
    ∷ text "rsp"
    ∷ text "r8"
    ∷ text "r9"
    ∷ text "r10"
    ∷ text "r11"
    ∷ text "r12"
    ∷ text "r13"
    ∷ text "r14"
    ∷ text "r15"
    ∷ text "rip"
    ∷ []

abbrev pub ContextAmd64 : Type 0
ContextAmd64 = Amd64Register → ℕ

abbrev pub amd64_context : CpuContext ContextAmd64
amd64_context = record {
  register_mod = u64_mod;
  is_valid = register_is_valid (default_memoize_register amd64_registers);
  read = read_field amd64_index amd64_fields;
  write = write_field amd64_index amd64_fields;
  memoize = default_memoize_register amd64_registers;
  stack_pointer_register_name = text "rsp";
  instruction_pointer_register_name = text "rip";
}
