-- ===== src/Prelude/Text.antt =====
-- Go strings as lists of bytes, with the functions of the package `strings` that the source calls.
-- Texts are taken to be ASCII where the source lowers them.
use Prim.Native.Char.{code}
use Prim.Native.Nat.{ℕ, ◌+◌, ◌-◌}
use Prim.Native.String.{String}
use mathlib.Core.Path.{◌≡◌, refl}
use mathlib.Core.Logic.{◌↔◌}
use mathlib.Core.Bool.{Bool, true, false, ◌&&◌, ◌||◌}
use mathlib.Core.List.{List, [], ◌∷◌, ◌++◌, map}
use native.Mathlib.Omega.{arith}
use majordomo_steward.Prelude.Tests.{◌==◌, leb, if◌then◌else◌}
use majordomo_steward.Prelude.Lists.{length, drop, length-append, drop-append}

abbrev pub Str : Type 0
Str = List ℕ

-- The bytes of an ASCII literal.
abbrev pub lit : String → Str
lit String.[] = []
lit (String.◌∷◌ c s) = code c ∷ lit s

abbrev pub str_eq : Str → Str → Bool
str_eq [] [] = true
str_eq [] (y ∷ ys) = false
str_eq (x ∷ xs) [] = false
str_eq (x ∷ xs) (y ∷ ys) = x == y && str_eq xs ys

pub str_eq_sound : (s t : Str) → str_eq s t ≡ true → s ≡ t
str_eq_sound [] [] h = refl
str_eq_sound [] (y ∷ ys) h = cc
str_eq_sound (x ∷ xs) [] h = cc
str_eq_sound (x ∷ xs) (y ∷ ys) h = ground (arith, str_eq_sound xs ys)

pub str_eq_refl : (s : Str) → str_eq s s ≡ true
str_eq_refl [] = refl
str_eq_refl (x ∷ xs) = ground (arith, str_eq_refl xs)

pub str_eq_iff : (s t : Str) → (str_eq s t ≡ true) ↔ (s ≡ t)
str_eq_iff s t = (str_eq_sound s t, λ e. rw e (str_eq_refl t))

-- strings.HasPrefix(s, prefix)
abbrev pub has_prefix : Str → Str → Bool
has_prefix s [] = true
has_prefix [] (y ∷ ys) = false
has_prefix (x ∷ xs) (y ∷ ys) = x == y && has_prefix xs ys

-- strings.HasSuffix(s, suffix)
abbrev pub has_suffix : Str → Str → Bool
has_suffix s suffix =
    leb (length suffix) (length s) && str_eq (drop (length s - length suffix) s) suffix

-- strings.TrimPrefix(s, prefix)
abbrev pub trim_prefix : Str → Str → Str
trim_prefix s prefix = if has_prefix s prefix then drop (length prefix) s else s

-- strings.Contains(s, sub)
abbrev pub contains : Str → Str → Bool
contains [] sub = has_prefix [] sub
contains (x ∷ xs) sub = has_prefix (x ∷ xs) sub || contains xs sub

abbrev pub lower : ℕ → ℕ
lower c = if leb b'A' c && leb c b'Z' then c + 32 else c

-- strings.ToLower(s)
abbrev pub to_lower : Str → Str
to_lower = map lower

pub has_prefix_refl : (s : Str) → has_prefix s s ≡ true
has_prefix_refl [] = refl
has_prefix_refl (x ∷ s) = ground (arith, has_prefix_refl s)

pub has_prefix-append : (p s : Str) → has_prefix (p ++ s) p ≡ true
has_prefix-append [] s = refl
has_prefix-append (x ∷ p) s = ground (arith, has_prefix-append p s)

-- A text with a prefix is that prefix followed by what trimming leaves.
pub has_prefix_sound : (s p : Str) → has_prefix s p ≡ true → s ≡ p ++ drop (length p) s
has_prefix_sound s [] h = refl
has_prefix_sound [] (y ∷ ys) h = cc
has_prefix_sound (x ∷ xs) (y ∷ ys) h = ground (arith, has_prefix_sound xs ys)

pub has_suffix-append : (s t : Str) → has_suffix (s ++ t) t ≡ true
has_suffix-append s t =
    let d : drop (length (s ++ t) - length t) (s ++ t) ≡ t = cut in
    rw d (ground (arith, length-append s t, str_eq_refl t))
  where
    cut : drop (length (s ++ t) - length t) (s ++ t) ≡ t
    cut =
        let e : length (s ++ t) - length t ≡ length s = omega (arith, length-append s t) in
        rw e (drop-append s t)
