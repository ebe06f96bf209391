-- ===== src/Prelude/Options.antt =====
-- Chains of optional values, for code that returns nil at the first step that gives none.
use mathlib.Core.Option.{Option, none, some}

infixl 5 ◌>>=◌
abbrev pub ◌>>=◌ {ℓ} : {A B : Type ℓ} → Option A → (A → Option B) → Option B
none >>= f = none
some a >>= f = f a
