-- ===== src/Unwind/Contexts.antt =====
-- minidump/src/context.rs: the registers of CONTEXT_X86, their names, and which of them are valid.
-- A set of names is its membership test.
pub mod Fields
pub mod Amd64
pub mod Arm
pub mod Arm64
pub mod RoundTrip
use rust_minidump.Base.{
  ℕ, ◌≡◌, refl, Bool, true, false, ◌||◌, ◌&&◌, not, Option, none, some, Bytes, text, bytes_eq,
  bytes_eq_sound, nat_eq, if◌then◌else◌, inl, inr, Bool-cases, ◌>>=◌, u32_mod, arith,
}

pub data X86Register : Type 0 where
  eip esp ebp ebx esi edi eax ecx edx eflags : X86Register

abbrev pub index : X86Register → ℕ
index eip = 0
index esp = 1
index ebp = 2
index ebx = 3
index esi = 4
index edi = 5
index eax = 6
index ecx = 7
index edx = 8
index eflags = 9

abbrev pub name_of : X86Register → Bytes
name_of eip = text "eip"
name_of esp = text "esp"
name_of ebp = text "ebp"
name_of ebx = text "ebx"
name_of esi = text "esi"
name_of edi = text "edi"
name_of eax = text "eax"
name_of ecx = text "ecx"
name_of edx = text "edx"
name_of eflags = text "eflags"

-- The arms of the `match` on a register's name.
unfoldable pub register_named : Bytes → Option X86Register
register_named reg =
    if bytes_eq reg (text "eip")
    then some eip
    else if bytes_eq reg (text "esp")
    then some esp
    else if bytes_eq reg (text "ebp")
    then some ebp
    else if bytes_eq reg (text "ebx")
    then some ebx
    else if bytes_eq reg (text "esi")
    then some esi
    else if bytes_eq reg (text "edi")
    then some edi
    else if bytes_eq reg (text "eax")
    then some eax
    else if bytes_eq reg (text "ecx")
    then some ecx
    else if bytes_eq reg (text "edx")
    then some edx
    else if bytes_eq reg (text "eflags")
    then some eflags
    else none

-- The fields of the context that hold registers.
abbrev pub ContextX86 : Type 0
ContextX86 = X86Register → ℕ

abbrev pub put : X86Register → ℕ → ContextX86 → ContextX86
put r v ctx = λ q. if nat_eq (index r) (index q) then v else ctx q

-- `none` is `unreachable!`.
unfoldable pub get_register_always : ContextX86 → Bytes → Option ℕ
unfolding register_named
get_register_always ctx reg = register_named reg >>= λ r. some (ctx r)

unfoldable pub set_register : Bytes → ℕ → ContextX86 → Option ContextX86
unfolding register_named
set_register reg val ctx = register_named reg >>= λ r. some (put r val ctx)

-- The names are the registers' own: there are no aliases.
unfoldable pub memoize_register : Bytes → Option Bytes
unfolding register_named
memoize_register reg = register_named reg >>= λ r. some (name_of r)

abbrev pub Names : Type 0
Names = Bytes → Bool

abbrev pub no_names : Names
no_names reg = false

abbrev pub with_name : Bytes → Names → Names
with_name name names = λ reg. bytes_eq name reg || names reg

abbrev pub without_name : Bytes → Names → Names
without_name name names = λ reg. not (bytes_eq name reg) && names reg

pub data MinidumpContextValidity : Type 0 where
  all : MinidumpContextValidity
  only : Names → MinidumpContextValidity

abbrev pub is_some : {A : Type 0} → Option A → Bool
is_some none = false
is_some (some a) = true

-- The default of the trait: a set of valid names is looked up as it is.
unfoldable pub register_is_valid : (Bytes → Option Bytes) → Bytes → MinidumpContextValidity → Bool
register_is_valid memoize reg (only which) = which reg
register_is_valid memoize reg all = is_some (memoize reg)

-- The trait `CpuContext`. `Register` is unsigned, below `register_mod`.
pub record CpuContext (C : Type 0) : Type 0 where
  pub register_mod : ℕ
  pub is_valid : Bytes → MinidumpContextValidity → Bool
  pub read : C → Bytes → Option ℕ
  pub write : Bytes → ℕ → C → Option C
  pub memoize : Bytes → Option Bytes
  pub stack_pointer_register_name : Bytes
  pub instruction_pointer_register_name : Bytes

unfoldable pub get_register :
    {C : Type 0} → CpuContext C → C → Bytes → MinidumpContextValidity → Option ℕ
get_register cpu ctx reg valid = if cpu.is_valid reg valid then cpu.read ctx reg else none

abbrev pub x86_context : CpuContext ContextX86
x86_context = record {
  register_mod = u32_mod;
  is_valid = register_is_valid memoize_register;
  read = get_register_always;
  write = set_register;
  memoize = memoize_register;
  stack_pointer_register_name = text "esp";
  instruction_pointer_register_name = text "eip";
}

pick_name :
    (reg literal : Bytes) (q : X86Register) (rest : Option X86Register) (r : X86Register)
    → name_of q ≡ literal
    → (rest ≡ some r → reg ≡ name_of r)
    → (if bytes_eq reg literal then some q else rest) ≡ some r
    → reg ≡ name_of r
pick_name reg literal q rest r named later h = elim (Bool-cases (bytes_eq reg literal)) [
  | inl e ↦ ground (arith, bytes_eq_sound reg literal e)
  | inr e ↦ later (ground arith)
]

-- A register has one name.
pub register_named_sound :
    (reg : Bytes) (r : X86Register) → register_named reg ≡ some r → reg ≡ name_of r
unfolding register_named
register_named_sound reg r = pick_name reg (text "eip") eip _ r refl (
    pick_name reg (text "esp") esp _ r refl (
      pick_name reg (text "ebp") ebp _ r refl (
        pick_name reg (text "ebx") ebx _ r refl (
          pick_name reg (text "esi") esi _ r refl (
            pick_name reg (text "edi") edi _ r refl (
              pick_name reg (text "eax") eax _ r refl (
                pick_name reg (text "ecx") ecx _ r refl (
                  pick_name reg (text "edx") edx _ r refl
                    (pick_name reg (text "eflags") eflags none r refl (λ h. cc))))))))))
