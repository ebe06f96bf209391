-- ===== src/Prelude/Outcome.antt =====
-- The outcome of Go code: a value, an error, a panic, or, where a loop is on fuel, no fuel left.
use mathlib.Core.Path.{◌≡◌, refl}

pub data Result {ℓ} (E A : Type ℓ) : Type ℓ where
  ok : A → Result E A
  err : E → Result E A
  panic : Result E A
  out_of_fuel : Result E A

infixl 5 ◌>>=◌
abbrev pub ◌>>=◌ {ℓ} : {E A B : Type ℓ} → Result E A → (A → Result E B) → Result E B
ok a >>= f = f a
err e >>= f = err e
panic >>= f = panic
out_of_fuel >>= f = out_of_fuel

-- The code returned: with a value or with an error, and not by a panic.
abbrev pub Returns {ℓ} : {E A : Type ℓ} → Result E A → Type 0
Returns (ok a) = Unit
Returns (err e) = Unit
Returns panic = ⊥
Returns out_of_fuel = ⊥

-- A statement about the value, where there is one.
abbrev pub IfOk {ℓ} : {E A : Type ℓ} → (A → Type 0) → Result E A → Type 0
IfOk P (ok a) = P a
IfOk P (err e) = Unit
IfOk P panic = Unit
IfOk P out_of_fuel = Unit

-- What holds of each value of the second call holds of that of the sequence.
pub IfOk-bind {ℓ} :
    {E A B : Type ℓ} (P : B → Type 0) (m : Result E A) (f : A → Result E B)
    → ((a : A) → m ≡ ok a → IfOk P (f a))
    → IfOk P (m >>= f)
IfOk-bind P (ok a) f h = h a refl
IfOk-bind P (err e) f h = tt
IfOk-bind P panic f h = tt
IfOk-bind P out_of_fuel f h = tt

-- The first call of a sequence that gives a value gives one too.
pub bind_ok {ℓ} :
    {E A B : Type ℓ} (m : Result E A) (f : A → Result E B) (b : B)
    → (m >>= f) ≡ ok b
    → (a : A) × (m ≡ ok a) × (f a ≡ ok b)
bind_ok (ok a) f b h = (a, refl, h)
bind_ok (err e) f b h = absurd (cc)
bind_ok panic f b h = absurd (cc)
bind_ok out_of_fuel f b h = absurd (cc)

pub ok_injective {ℓ} : {E A : Type ℓ} {x y : A} → ◌≡◌ {A = Result E A} (ok x) (ok y) → x ≡ y
ok_injective h = cc
