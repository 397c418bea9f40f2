-- ===== src/Unwind/Walker/Effects.antt =====
-- What emitting a register does to the walker of a real frame.
use rust_minidump.Base.{
  ℕ, ◌≡◌, refl, sym, ap, ◌∙◌, Bool, true, false, Option, none, some, some_inj, List, [], ◌∷◌,
  get_elem?, Bytes, ltb, if◌then◌else◌, u32_mod, ◌>>=◌,
}
use rust_minidump.SymFile.Cfi.Walk.{emit_value}
use rust_minidump.Unwind.Contexts.{
  X86Register, eip, esp, ebp, ebx, esi, edi, eax, ecx, edx, eflags, index, name_of, register_named,
  ContextX86, x86_context, put, Names, with_name, without_name, set_register, memoize_register,
}
use rust_minidump.Unwind.Walker.{
  CfiStackWalker, written, set_converted, set_memoized, set_named, set_caller_register,
  clear_caller_register, x86_walker,
}

registers : List X86Register
registers = eip ∷ esp ∷ ebp ∷ ebx ∷ esi ∷ edi ∷ eax ∷ ecx ∷ edx ∷ eflags ∷ []

of_index : ℕ → Option X86Register
unfolding registers
of_index i = get_elem? registers i

of_index-index : (r : X86Register) → of_index (index r) ≡ some r
unfolding of_index
of_index-index eip = refl
of_index-index esp = refl
of_index-index ebp = refl
of_index-index ebx = refl
of_index-index esi = refl
of_index-index edi = refl
of_index-index eax = refl
of_index-index ecx = refl
of_index-index edx = refl
of_index-index eflags = refl

pub index_inj : (r q : X86Register) → index r ≡ index q → r ≡ q
index_inj r q h = some_inj (sym (of_index-index r) ∙ ap of_index h ∙ of_index-index q)

-- The effect of one emitted register on the context and on the valid names.
abbrev pub ctx_after : Option X86Register → Option ℕ → ContextX86 → ContextX86
ctx_after (some r) (some val) ctx = if ltb val u32_mod then put r val ctx else ctx
ctx_after (some r) none ctx = ctx
ctx_after none x ctx = ctx

abbrev pub names_after : Option X86Register → Bytes → Option ℕ → Names → Names
names_after (some r) name (some val) names =
    if ltb val u32_mod then with_name (name_of r) names else names
names_after none name (some val) names = names
names_after o name none names = without_name name names

abbrev pub after : Bytes → Option ℕ → CfiStackWalker ContextX86 → CfiStackWalker ContextX86
after name x s = record s {
  caller_ctx = ctx_after (register_named name) x s.caller_ctx;
  caller_validity = names_after (register_named name) name x s.caller_validity;
}

register_named-name_of : (r : X86Register) → register_named (name_of r) ≡ some r
unfolding register_named
register_named-name_of eip = refl
register_named-name_of esp = refl
register_named-name_of ebp = refl
register_named-name_of ebx = refl
register_named-name_of esi = refl
register_named-name_of edi = refl
register_named-name_of eax = refl
register_named-name_of ecx = refl
register_named-name_of edx = refl
register_named-name_of eflags = refl

set_register-name_of :
    (r : X86Register) (v : ℕ) (ctx : ContextX86)
    → set_register (name_of r) v ctx ≡ some (put r v ctx)
unfolding set_register
set_register-name_of r v ctx =
    ap (λ (o : Option X86Register). o >>= λ q. some (put q v ctx)) (register_named-name_of r)

set_named_after :
    (r : X86Register) (val : ℕ) (s : CfiStackWalker ContextX86)
    → (set_named x86_context (name_of r) val s).1 ≡ record s {
      caller_ctx = ctx_after (some r) (some val) s.caller_ctx;
      caller_validity = names_after (some r) (name_of r) (some val) s.caller_validity;
    }
unfolding set_named
set_named_after r val s = go (ltb val u32_mod)
  where
    go :
        (b : Bool)
        → (set_converted x86_context (name_of r) (if b then some val else none) s).1 ≡ record s {
          caller_ctx = if b then put r val s.caller_ctx else s.caller_ctx;
          caller_validity =
              if b then with_name (name_of r) s.caller_validity else s.caller_validity;
        }
    go false = refl
    go true =
        ap
          (λ (o : Option ContextX86).
            (written x86_context
              (record s { caller_validity = with_name (name_of r) s.caller_validity }) o).1)
          (set_register-name_of r val s.caller_ctx)

module _ (get_memory_at_address : ℕ → Option ℕ) where
  pub emit_value-after :
      (name : Bytes) (x : Option ℕ) (s : CfiStackWalker ContextX86)
      → emit_value (x86_walker get_memory_at_address) name x s ≡ after name x s
  unfolding x86_walker set_caller_register clear_caller_register set_named set_register
      memoize_register
  emit_value-after name none s = go (register_named name)
    where
      go :
          (o : Option X86Register)
          → clear_caller_register x86_context name s ≡ record s {
            caller_ctx = ctx_after o none s.caller_ctx;
            caller_validity = names_after o name none s.caller_validity;
          }
      go none = refl
      go (some r) = refl
  emit_value-after name (some val) s = go (register_named name)
    where
      go :
          (o : Option X86Register)
          → (set_memoized x86_context (o >>= λ r. some (name_of r)) val s).1 ≡ record s {
            caller_ctx = ctx_after o (some val) s.caller_ctx;
            caller_validity = names_after o name (some val) s.caller_validity;
          }
      go none = refl
      go (some r) = set_named_after r val s
