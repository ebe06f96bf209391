-- ===== src/Prelude/Maps.antt =====
-- Go maps: with string keys as lists of entries in some order of iteration, and with numbers for
-- keys (identifiers) as functions.
use Prim.Native.Nat.{ℕ}
use mathlib.Core.Option.{Option, none, some}
use mathlib.Core.List.{List, [], ◌∷◌}
use majordomo_steward.Prelude.Tests.{◌==◌, if◌then◌else◌}
use majordomo_steward.Prelude.Text.{Str, str_eq}

module _ {ℓ} {V : Type ℓ} where
  -- `v, ok := m[k]`
  abbrev pub lookup : Str → List (Str × V) → Option V
  lookup k [] = none
  lookup k ((j, v) ∷ m) = if str_eq j k then some v else lookup k m

  -- A map with numbers for keys, after `m[k] = v`.
  abbrev pub update : (ℕ → Option V) → ℕ → Option V → ℕ → Option V
  update m k v j = if j == k then v else m j

-- `m[k]` of a map to strings, where a missing key gives "".
abbrev pub lookup_text : Str → List (Str × Str) → Str
lookup_text k m = elim (lookup k m) [ none ↦ [] | some v ↦ v ]
