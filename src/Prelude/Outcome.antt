-- ===== src/Prelude/Outcome.antt =====
-- What a Go call does: it panics, returns an error, or returns a value.
use mathlib.Core.Path.{◌≡◌, refl, ap}
use mathlib.Core.Option.{Option, none, some}
use native.Mathlib.Omega.{arith}

pub data Result {ℓ} (E : Type 0) (A : Type ℓ) : Type ℓ where
  panic : Result E A
  err : E → Result E A
  ok : A → Result E A

infixl 5 ◌>>=◌
abbrev pub ◌>>=◌ {ℓ κ} :
    {E : Type 0} {A : Type ℓ} {B : Type κ} → Result E A → (A → Result E B) → Result E B
panic >>= next = panic
err reason >>= next = err reason
ok value >>= next = next value

-- An error of a callee, passed on under the caller's error type.
abbrev pub map_err {ℓ} : {E F : Type 0} {A : Type ℓ} → (E → F) → Result E A → Result F A
map_err wrap panic = panic
map_err wrap (err reason) = err (wrap reason)
map_err wrap (ok value) = ok value

-- Reading an index or slicing out of range panics.
abbrev pub or_panic {ℓ} : {E : Type 0} {A : Type ℓ} → Option A → Result E A
or_panic none = panic
or_panic (some a) = ok a

-- A callee of which only success and failure are known.
abbrev pub or_err {ℓ} : {E : Type 0} {A : Type ℓ} → E → Option A → Result E A
or_err reason none = err reason
or_err reason (some value) = ok value

-- A call that returned did so through its first part.
module _ {ℓ κ} {E : Type 0} {A : Type ℓ} {B : Type κ} (next : A → Result E B) {last : B} where
  pub bind_inv :
      (r : Result E A) → (r >>= next) ≡ ok last → (mid : A) × (r ≡ ok mid) × (next mid ≡ ok last)
  bind_inv (ok mid) e = (mid, refl, e)
  bind_inv panic e = ground arith
  bind_inv (err reason) e = ground arith

pub or_err-ok {ℓ} :
    {E : Type 0} {A : Type ℓ} (reason : E) (o : Option A) {a : A}
    → or_err reason o ≡ ok a
    → o ≡ some a
or_err-ok reason none h = ground arith
or_err-ok reason (some a) h = ground arith

abbrev value_or {ℓ} : {E : Type 0} {A : Type ℓ} → A → Result E A → A
value_or a (ok b) = b
value_or a panic = a
value_or a (err reason) = a

pub ok_inv {ℓ} : {E : Type 0} {A : Type ℓ} {a b : A} → ◌≡◌ {A = Result E A} (ok a) (ok b) → a ≡ b
ok_inv {a = a} e = ap (value_or a) e

pub err-≢ {ℓ} :
    {E : Type 0} {A : Type ℓ} {reason : E} {a : A} → ◌≡◌ {A = Result E A} (err reason) (ok a) → ⊥
err-≢ e = ground arith
