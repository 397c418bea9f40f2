-- ===== src/Unwind/Walker/Independent.antt =====
-- The walker of a real frame keeps the caller apart from what expressions read, and its registers
-- apart from each other.
use rust_minidump.Base.{
  ℕ, ◌≡◌, ◌≢◌, refl, sym, ap, ap₂, ◌∙◌, Bool, true, false, Option, none, some, Bytes, bytes_eq_iff,
  nat_eq, ltb, if◌then◌else◌, u32_mod, arith,
}
use rust_minidump.SymFile.Cfi.Walk.Order.{IsIndependent}
use rust_minidump.Unwind.Contexts.{
  X86Register, index, name_of, register_named, register_named_sound, ContextX86, put, Names,
  with_name, without_name,
}
use rust_minidump.Unwind.Walker.{CfiStackWalker, x86_walker}
use rust_minidump.Unwind.Walker.Effects.{index_inj, ctx_after, names_after, after, emit_value-after}

swapped :
    (i j k u v t : ℕ)
    → i ≢ j
    → (if nat_eq i k then u else if nat_eq j k then v else t)
      ≡ (if nat_eq j k then v else if nat_eq i k then u else t)
swapped i j k u v t h = ground arith

ctx_comm :
    (oa ob : Option X86Register) (x y : Option ℕ) (ctx : ContextX86) (q : X86Register)
    → ((ra rb : X86Register) → oa ≡ some ra → ob ≡ some rb → index ra ≢ index rb)
    → ctx_after oa x (ctx_after ob y ctx) q ≡ ctx_after ob y (ctx_after oa x ctx) q
ctx_comm none none x y ctx q h = refl
ctx_comm none (some rb) x none ctx q h = refl
ctx_comm none (some rb) x (some v) ctx q h = refl
ctx_comm (some ra) none none y ctx q h = refl
ctx_comm (some ra) none (some u) y ctx q h = refl
ctx_comm (some ra) (some rb) none none ctx q h = refl
ctx_comm (some ra) (some rb) none (some v) ctx q h = refl
ctx_comm (some ra) (some rb) (some u) none ctx q h = refl
ctx_comm (some ra) (some rb) (some u) (some v) ctx q h = go (ltb u u32_mod) (ltb v u32_mod)
  where
    go :
        (b d : Bool)
        → (if b
              then put ra u (if d then put rb v ctx else ctx)
              else (if d then put rb v ctx else ctx))
            q
          ≡ (if d
                then put rb v (if b then put ra u ctx else ctx)
                else (if b then put ra u ctx else ctx))
              q
    go false d = refl
    go true false = refl
    go true true = swapped (index ra) (index rb) (index q) u v (ctx q) (h ra rb refl refl)

-- Adding or removing a name; `none` leaves the names alone.
abbrev change : Option Bool → Bytes → Names → Names
change none name names = names
change (some true) name names = with_name name names
change (some false) name names = without_name name names

change_comm :
    (u v : Option Bool) (a b : Bytes) (names : Names) (q : Bytes)
    → a ≢ b
    → change u a (change v b names) q ≡ change v b (change u a names) q
change_comm none none a b names q h = refl
change_comm none (some true) a b names q h = refl
change_comm none (some false) a b names q h = refl
change_comm (some true) none a b names q h = refl
change_comm (some false) none a b names q h = refl
change_comm (some true) (some true) a b names q h =
    ground (arith, bytes_eq_iff a q, bytes_eq_iff b q)
change_comm (some true) (some false) a b names q h =
    ground (arith, bytes_eq_iff a q, bytes_eq_iff b q)
change_comm (some false) (some true) a b names q h =
    ground (arith, bytes_eq_iff a q, bytes_eq_iff b q)
change_comm (some false) (some false) a b names q h =
    ground (arith, bytes_eq_iff a q, bytes_eq_iff b q)

change_of : Option X86Register → Option ℕ → Option Bool
change_of o none = some false
change_of none (some val) = none
change_of (some r) (some val) = if ltb val u32_mod then some true else none

names_after_as :
    (o : Option X86Register) (name : Bytes) (x : Option ℕ) (names : Names)
    → ((r : X86Register) → o ≡ some r → name ≡ name_of r)
    → names_after o name x names ≡ change (change_of o x) name names
unfolding change_of
names_after_as none name none names h = refl
names_after_as none name (some val) names h = refl
names_after_as (some r) name none names h = refl
names_after_as (some r) name (some val) names h = go (ltb val u32_mod)
  where
    go :
        (b : Bool)
        → (if b then with_name (name_of r) names else names)
          ≡ change (if b then some true else none) name names
    go false = refl
    go true = ap (λ n. with_name n names) (sym (h r refl))

after_comm :
    (a b : Bytes) (x y : Option ℕ) (s : CfiStackWalker ContextX86)
    → a ≢ b
    → after a x (after b y s) ≡ after b y (after a x s)
after_comm a b x y s h =
    ap₂ (λ (c : ContextX86) (n : Names). record s { caller_ctx = c; caller_validity = n })
      (λ i q. ctx_comm (register_named a) (register_named b) x y s.caller_ctx q apart i) names_comm
  where
    apart :
        (ra rb : X86Register)
        → register_named a ≡ some ra
        → register_named b ≡ some rb
        → index ra ≢ index rb
    apart ra rb ea eb same = h (
        register_named_sound a ra ea
        ∙ ap name_of (index_inj ra rb same)
        ∙ sym (register_named_sound b rb eb))

    as_change :
        (c : Bytes) (z : Option ℕ) (n : Names)
        → names_after (register_named c) c z n ≡ change (change_of (register_named c) z) c n
    as_change c z n = names_after_as (register_named c) c z n (register_named_sound c)

    names_comm :
        names_after (register_named a) a x (names_after (register_named b) b y s.caller_validity)
        ≡ names_after (register_named b) b y (names_after (register_named a) a x s.caller_validity)
    names_comm =
        as_change a x _
        ∙ ap (change (change_of (register_named a) x) a) (as_change b y s.caller_validity)
        ∙ (λ i q.
            change_comm (change_of (register_named a) x) (change_of (register_named b) y) a b
              s.caller_validity q h i)
        ∙ ap (change (change_of (register_named b) y) b) (sym (as_change a x s.caller_validity))
        ∙ sym (as_change b y _)

-- The walker of a real frame is independent in the sense of `IsIndependent`: emitting a register
-- changes nothing that an expression reads, and two registers can be emitted in either order.
pub x86_walker-IsIndependent :
    (get_memory_at_address : ℕ → Option ℕ) → IsIndependent (x86_walker get_memory_at_address)
x86_walker-IsIndependent get_memory_at_address = record {
  reads = λ reg v s.
      rw (emit_value-after get_memory_at_address reg v s) (unfold x86_walker in (refl, refl));
  commutes = λ a b x y s h.
      rw
        (
          emit_value-after get_memory_at_address b y s,
          emit_value-after get_memory_at_address a x s,
          emit_value-after get_memory_at_address a x (after b y s),
          emit_value-after get_memory_at_address b y (after a x s),
        )
        (after_comm a b x y s h);
}
