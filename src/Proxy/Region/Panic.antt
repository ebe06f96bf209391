-- ===== src/Proxy/Region/Panic.antt =====
-- The one host name at which parseBedrockRegionFromHost slices out of bounds.
use mathlib.Core.Path.{ap₂}
use majordomo_steward.Prelude.{
  ℕ, zero, suc, ◌-◌, ◌≤◌, ◌<◌, Str, lit, true, false, [], ◌∷◌, ◌++◌, ◌≡◌, ◌↔◌, refl, sym, ap, inl,
  inr, leb→le, ◌∙◌, arith, ◌==◌, leb, has_prefix, has_prefix_sound, drop, take, length, get_or,
  take-append-drop, str_eq_sound, All, panic, Bool-cases,
}
use majordomo_steward.Proxy.Region.{
  host_prefix, host_suffix, validated, region_of_host, strip_port, parse_bedrock_region_from_host,
}

-- The two literals share their dot.
abbrev pub overlap : Str
overlap = lit "bedrock-runtime.amazonaws.com"

get_or-drop : (n : ℕ) (s : Str) → get_or (drop n s) 0 0 ≡ get_or s n 0
get_or-drop zero [] = refl
get_or-drop zero (x ∷ s) = refl
get_or-drop (suc n) [] = refl
get_or-drop (suc n) (x ∷ s) = get_or-drop n s

get_or-ne :
    (xs ys : Str) (i d : ℕ)
    → All (λ c. (c == d) ≡ false) xs
    → i < length xs
    → get_or (xs ++ ys) i 0 ≡ d
    → ⊥
get_or-ne [] ys i d h k e = omega arith
get_or-ne (x ∷ xs) ys zero d h k e = ground arith
get_or-ne (x ∷ xs) ys (suc i) d h k e = get_or-ne xs ys i d h.1 (omega arith) e

-- The suffix of a text that begins with the prefix begins no sooner than the prefix's dot.
suffix_late : (rest : Str) (i : ℕ) → drop i (host_prefix ++ rest) ≡ host_suffix → 15 ≤ i
suffix_late rest i e = elim (Bool-cases (leb 15 i)) [
  | inl h ↦ leb→le 15 i h
  | inr h ↦ absurd (
      get_or-ne (lit "bedrock-runtime") (b'.' ∷ rest) i b'.' (ground arith) (ground arith)
        (sym (get_or-drop i (host_prefix ++ rest)) ∙ ap (λ (l : Str). get_or l 0 0) e))
]

-- With the bounds out of order the suffix begins at the prefix's dot.
shares_dot :
    (host : Str) (i : ℕ)
    → has_prefix host host_prefix ≡ true
    → drop i host ≡ host_suffix
    → i < 16
    → host ≡ overlap
shares_dot host i p e h =
    let rest : Str = drop 16 host in
    let split : host ≡ host_prefix ++ rest = has_prefix_sound host host_prefix p in
    let late : 15 ≤ i = suffix_late rest i (rw (sym split) e) in
    let at : i ≡ 15 = omega arith in
    sym (take-append-drop 15 host) ∙ ap₂ (λ (a b : Str). a ++ b) (ap (take 15) split) (rw at at e)

validated-ne-panic : (region : Str) → validated region ≡ panic → ⊥
unfolding validated
validated-ne-panic region h = ground arith

region_of_host-panic : (host : Str) → region_of_host host ≡ panic → host ≡ overlap
unfolding region_of_host
region_of_host-panic host h =
    let i : ℕ = length host - 14 in
    ground (
      arith,
      str_eq_sound (drop i host) host_suffix,
      shares_dot host i,
      validated-ne-panic (take (i - 16) (drop 16 host)),
    )

-- For every host: parsing it panics exactly when the host without its port is
-- "bedrock-runtime.amazonaws.com".
pub parse-panic_iff :
    (host : Str) → (parse_bedrock_region_from_host host ≡ panic) ↔ (strip_port host ≡ overlap)
unfolding parse_bedrock_region_from_host
parse-panic_iff host = (region_of_host-panic (strip_port host), λ e. rw e at_overlap)
  where
    at_overlap : region_of_host overlap ≡ panic
    at_overlap = unfold region_of_host in refl
