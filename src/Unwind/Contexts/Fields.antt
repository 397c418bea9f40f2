-- ===== src/Unwind/Contexts/Fields.antt =====
-- minidump/src/context.rs: contexts whose registers are matched by name, with aliases. `R` names the
-- fields that hold registers, and `fields` lists the arms of the `match`, in order.
use rust_minidump.Base.{
  ℕ, ◌≡◌, refl, sym, Bool, true, false, ◌&&◌, ◌||◌, Bool-cases, Option, none, some, some_inj, List,
  [], ◌∷◌, Bytes, bytes_eq, bytes_eq_sound, nat_eq, if◌then◌else◌, ◌>>=◌, >>=-eq-some, inl, inr,
}

abbrev pub field_named : {R : Type 0} → List (Bytes × R) → Bytes → Option R
field_named [] reg = none
field_named ((name, r) ∷ fields) reg = if bytes_eq reg name then some r else field_named fields reg

-- `registers.iter().position(|val| *val == reg)`, and the name that stands there.
abbrev pub default_memoize_register : List Bytes → Bytes → Option Bytes
default_memoize_register [] reg = none
default_memoize_register (name ∷ names) reg =
    if bytes_eq name reg then some name else default_memoize_register names reg

-- The names of the aliases are replaced, and any other is looked up.
abbrev pub memoize_aliases : List (Bytes × Bytes) → List Bytes → Bytes → Option Bytes
memoize_aliases [] names reg = default_memoize_register names reg
memoize_aliases ((alias, name) ∷ aliases) names reg =
    if bytes_eq reg alias then some name else memoize_aliases aliases names reg

-- A register with an alias is valid if either name is in the set.
abbrev pub valid_by_alias : List (Bytes × Bytes) → Bytes → (Bytes → Bool) → Bool
valid_by_alias [] reg which = which reg
valid_by_alias ((alias, name) ∷ aliases) reg which =
    if bytes_eq reg alias || bytes_eq reg name
    then which alias || which name
    else valid_by_alias aliases reg which

abbrev pub all_of : {A : Type 0} → (A → Bool) → List A → Bool
all_of f [] = true
all_of f (x ∷ xs) = f x && all_of f xs

field_named-all_of :
    {R : Type 0} (fields : List (Bytes × R)) (f : Bytes × R → Bool) (reg : Bytes) (r : R)
    → field_named fields reg ≡ some r
    → all_of f fields ≡ true
    → f (reg, r) ≡ true
field_named-all_of [] f reg r h k = cc
field_named-all_of ((name, q) ∷ fields) f reg r h k = elim (Bool-cases (bytes_eq reg name)) [
  | inl e ↦
      let same : reg ≡ name = bytes_eq_sound reg name e in
      let there : q ≡ r = some_inj (rw e at h) in
      rw (same, ← there) (and_left (f (name, q)) (all_of f fields) k)
  | inr e ↦
      field_named-all_of fields f reg r (rw e at h) (and_right (f (name, q)) (all_of f fields) k)
]
  where
    and_left : (a b : Bool) → a && b ≡ true → a ≡ true
    and_left true b h = refl
    and_left false b h = h

    and_right : (a b : Bool) → a && b ≡ true → b ≡ true
    and_right true b h = h
    and_right false b h = cc

module _ {R : Type 0} (index : R → ℕ) where
  abbrev pub put_field : R → ℕ → (R → ℕ) → R → ℕ
  put_field r v ctx = λ q. if nat_eq (index r) (index q) then v else ctx q

  module _ (fields : List (Bytes × R)) where
    -- `none` is `unreachable!`.
    abbrev pub read_field : (R → ℕ) → Bytes → Option ℕ
    read_field ctx reg = field_named fields reg >>= λ r. some (ctx r)

    abbrev pub write_field : Bytes → ℕ → (R → ℕ) → Option (R → ℕ)
    write_field reg val ctx = field_named fields reg >>= λ r. some (put_field r val ctx)

    module _ (memoize : Bytes → Option Bytes) where
      abbrev same_name : Option Bytes → Option Bytes → Bool → Bool
      same_name (some a) (some b) true = bytes_eq a b
      same_name (some a) (some b) false = if bytes_eq a b then false else true
      same_name a b s = false

      -- Any two names have equal memoized names exactly if they stand for one field.
      abbrev pub agree : Bool
      agree =
          all_of
            (λ e.
              all_of (λ d. same_name (memoize e.0) (memoize d.0) (nat_eq (index e.1) (index d.1)))
                fields)
            fields

      by_name :
          (a b : Option Bytes) {m n : Bytes} (s : Bool)
          → same_name a b s ≡ true
          → a ≡ some m
          → b ≡ some n
          → s ≡ bytes_eq m n
      by_name none b s h ea eb = cc
      by_name (some a) none true h ea eb = cc
      by_name (some a) none false h ea eb = cc
      by_name (some a) (some b) true h ea eb = rw (← some_inj ea, ← some_inj eb) (sym h)
      by_name (some a) (some b) false h ea eb =
          rw (← some_inj ea, ← some_inj eb) (flip (bytes_eq a b) h)
        where
          flip : (t : Bool) → (if t then false else true) ≡ true → false ≡ t
          flip true h = h
          flip false h = refl

      -- What is read after a write: the value under every name of the register that was written,
      -- and what was there under any other.
      pub read_field-write_field :
          agree ≡ true
          → (reg other m n : Bytes) (val old : ℕ) (ctx ctx' : R → ℕ) → memoize reg ≡ some m
          → memoize other ≡ some n
          → write_field reg val ctx ≡ some ctx'
          → read_field ctx other ≡ some old
          → read_field ctx' other ≡ some (if bytes_eq m n then val else old)
      read_field-write_field agrees reg other m n val old ctx ctx' em en wrote was =
          let (r, named, made) = >>=-eq-some (field_named fields reg) _ wrote in
          let (q, named', there) = >>=-eq-some (field_named fields other) _ was in
          let pair = field_named-all_of fields _ other q named' (
            field_named-all_of fields
              (λ (e : Bytes × R).
                all_of
                  (λ (d : Bytes × R).
                    same_name (memoize e.0) (memoize d.0) (nat_eq (index e.1) (index d.1)))
                  fields)
              reg r named agrees) in
          let one : nat_eq (index r) (index q) ≡ bytes_eq m n =
            by_name (memoize reg) (memoize other) (nat_eq (index r) (index q)) pair em en in
          rw (named', ← some_inj made, one, ← some_inj there) refl
