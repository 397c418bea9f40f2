-- ===== src/Minidump/Errors.antt =====
-- minidump/src/minidump.rs, Error, and its `Result`.
use rust_minidump.Base.{ℕ, ◌≡◌, refl, Option, none, some, Bool, true, false, if◌then◌else◌}

pub data Error : Type 0 where
  file_not_found io_error missing_header header_mismatch version_mismatch missing_directory : Error
  stream_read_failure : Error
  stream_size_mismatch : ℕ → ℕ → Error
  stream_not_found module_read_failure memory_read_failure data_error : Error
  code_view_read_failure uknown_element_type : Error

pub data Result (A : Type 0) : Type 0 where
  ok : A → Result A
  err : Error → Result A

infixl 5 ◌>>=◌
abbrev pub ◌>>=◌ : {A B : Type 0} → Result A → (A → Result B) → Result B
ok a >>= f = f a
err e >>= f = err e

-- `.ok_or(error)`, and `.or(Err(error))` on scroll's results
abbrev pub ok_or : {A : Type 0} → Error → Option A → Result A
ok_or e none = err e
ok_or e (some a) = ok a

-- `.ok()`
abbrev pub to_option : {A : Type 0} → Result A → Option A
to_option (ok a) = some a
to_option (err e) = none

module _ {A B : Type 0} where
  -- The result `b` comes out of `f`, for a value that `m` gave it.
  abbrev pub Through : Result A → (A → Result B) → B → Type 0
  Through m f b = (value : A) × (m ≡ ok value) × (f value ≡ ok b)

  -- A chain that succeeds has gone through both its steps.
  pub >>=-eq-ok : (m : Result A) (f : A → Result B) {b : B} → (m >>= f) ≡ ok b → Through m f b
  >>=-eq-ok (err e) f succeeds = cc
  >>=-eq-ok (ok value) f succeeds = (value, refl, succeeds)

pub ok_or-eq-ok : {A : Type 0} (e : Error) (o : Option A) {a : A} → ok_or e o ≡ ok a → o ≡ some a
ok_or-eq-ok e none h = cc
ok_or-eq-ok e (some a) h = cc

pub if_err-eq-ok :
    {A : Type 0} (b : Bool) (e : Error) (m : Result A) {a : A}
    → (if b then err e else m) ≡ ok a
    → (b ≡ false) × (m ≡ ok a)
if_err-eq-ok true e m h = cc
if_err-eq-ok false e m h = (refl, h)

pub ok_inj : {A : Type 0} {a b : A} → ok a ≡ ok b → a ≡ b
ok_inj h = cc
