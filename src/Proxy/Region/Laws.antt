-- ===== src/Proxy/Region/Laws.antt =====
-- What region a Bedrock request gets, and the one host name at which the parser panics.
use mathlib.Core.List.{append-nil}
use majordomo_steward.Prelude.{
  ℕ, ◌≤◌, ◌⊎◌, ◌-◌, Str, false, true, Option, none, some, [], ◌∷◌, ◌++◌, ◌≡◌, ◌≢◌, inl, inr, refl,
  ap, arith, ◌==◌, has_suffix-append, drop, take, length, length-append, take-append, Bool-cases,
  ok, All, All-append,
}
use majordomo_steward.Proxy.Region.{
  is_region_char, all_region_chars, is_valid_aws_region, strip_port, host_prefix, host_suffix,
  validated, region_of_host, parse_bedrock_region_from_host, resolve_bedrock_region,
}

-- A letter a-z, a digit or a dash, by its code in ASCII.
abbrev pub IsRegionChar : ℕ → Type 0
IsRegionChar c = ((97 ≤ c) × (c ≤ 122)) ⊎ ((48 ≤ c) × (c ≤ 57)) ⊎ (c ≡ 45)

-- A region that may go into a host name: not empty, and of the letters a-z, digits and dashes only.
abbrev pub IsRegion : Str → Type 0
IsRegion s = (s ≢ []) × All IsRegionChar s

IsRegionChar-test : (c : ℕ) → is_region_char c ≡ true → IsRegionChar c
IsRegionChar-test c h = ground arith

test-IsRegionChar : (c : ℕ) → IsRegionChar c → is_region_char c ≡ true
test-IsRegionChar c h = ground arith

all_region_chars-All : (s : Str) → all_region_chars s ≡ true → All IsRegionChar s
all_region_chars-All [] h = tt
all_region_chars-All (c ∷ s) h = elim (Bool-cases (is_region_char c)) [
  | inl fits ↦ (IsRegionChar-test c fits, all_region_chars-All s (cc (rw fits at h)))
  | inr other ↦ absurd (cc (rw other at h))
]

is_valid-IsRegion : (s : Str) → is_valid_aws_region s ≡ true → IsRegion s
unfolding is_valid_aws_region
is_valid-IsRegion [] h = cc
is_valid-IsRegion (c ∷ s) h = (λ e. cc, all_region_chars-All (c ∷ s) h)

All-valid : (s : Str) → All IsRegionChar s → all_region_chars s ≡ true
All-valid [] h = refl
All-valid (c ∷ s) h = rw (test-IsRegionChar c h.0) (All-valid s h.1)

IsRegion-valid : (s : Str) → IsRegion s → is_valid_aws_region s ≡ true
unfolding is_valid_aws_region
IsRegion-valid [] h = absurd (h.0 refl)
IsRegion-valid (c ∷ s) h = All-valid (c ∷ s) h.1

validated-IsRegion : (s region : Str) → validated s ≡ ok (some region) → IsRegion region
unfolding validated
validated-IsRegion s region h = elim (Bool-cases (is_valid_aws_region s)) [
  | inl v ↦ ground (arith, rw v at h, is_valid-IsRegion s v)
  | inr n ↦ absurd (cc (rw n at h))
]

region_of_host-IsRegion :
    (host region : Str) → region_of_host host ≡ ok (some region) → IsRegion region
unfolding region_of_host
region_of_host-IsRegion host region h =
    ground (arith, validated-IsRegion (take (length host - 14 - 16) (drop 16 host)) region)

-- Whatever the header and the host: a region that is returned is not empty and has only the letters
-- a-z, digits and dashes.
pub resolve-IsRegion :
    (header host region : Str)
    → resolve_bedrock_region header host ≡ ok (some region)
    → IsRegion region
unfolding resolve_bedrock_region parse_bedrock_region_from_host
resolve-IsRegion [] host region h = region_of_host-IsRegion (strip_port host) region h
resolve-IsRegion (c ∷ header) host region h = validated-IsRegion (c ∷ header) region h

abbrev NoColon : Str → Type 0
NoColon = All (λ c. (c == b':') ≡ false)

strip_port-port : (s t : Str) → NoColon s → strip_port (s ++ b':' ∷ t) ≡ s
unfolding strip_port
strip_port-port [] t h = refl
strip_port-port (c ∷ s) t h = rw h.0 (ap (λ (l : Str). c ∷ l) (strip_port-port s t h.1))

strip_port-none : (s : Str) → NoColon s → strip_port s ≡ s
unfolding strip_port
strip_port-none [] h = refl
strip_port-none (c ∷ s) h = rw h.0 (ap (λ (l : Str). c ∷ l) (strip_port-none s h.1))

NoColon-region : (s : Str) → All IsRegionChar s → NoColon s
NoColon-region [] h = tt
NoColon-region (c ∷ s) h = (ground arith, NoColon-region s h.1)

-- The host name that AWS gives the region's endpoint.
abbrev pub endpoint : Str → Str
endpoint region = host_prefix ++ (region ++ host_suffix)

endpoint-NoColon : (region : Str) → IsRegion region → NoColon (endpoint region)
endpoint-NoColon region v =
    All-append _ host_prefix (region ++ host_suffix) (ground arith)
      (All-append _ region host_suffix (NoColon-region region v.1) (ground arith))

region_of_host-endpoint :
    (region : Str) → IsRegion region → region_of_host (endpoint region) ≡ ok (some region)
unfolding region_of_host validated
region_of_host-endpoint region v = ground (
  arith,
  has_suffix-append (host_prefix ++ region) host_suffix,
  length-append region host_suffix,
  take-append region host_suffix,
  IsRegion-valid region v,
)

abbrev pub after_host : Option Str → Str
after_host none = []
after_host (some port) = b':' ∷ port

-- For every region of the letters a-z, digits and dashes, and with or without a port: the endpoint's
-- host name gives back the region.
pub resolve-endpoint :
    (region : Str) (port : Option Str)
    → IsRegion region
    → resolve_bedrock_region [] (endpoint region ++ after_host port) ≡ ok (some region)
unfolding resolve_bedrock_region parse_bedrock_region_from_host
resolve-endpoint region none v = rw (append-nil (endpoint region)) (
    rw (strip_port-none (endpoint region) (endpoint-NoColon region v))
      (region_of_host-endpoint region v))
resolve-endpoint region (some port) v =
    rw (strip_port-port (endpoint region) port (endpoint-NoColon region v))
      (region_of_host-endpoint region v)
