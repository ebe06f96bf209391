-- ===== src/Proxy/Region.antt =====
-- The AWS region of a Bedrock request: resolveBedrockRegion, parseBedrockRegionFromHost and
-- isValidAWSRegion of internal/proxy/handler.go.
pub mod Laws
pub mod Panic
use majordomo_steward.Prelude.{
  ℕ, ◌+◌, ◌-◌, Str, lit, Bool, false, true, not, ◌&&◌, ◌||◌, Option, none, some, [], ◌∷◌, leb, ◌==◌,
  has_prefix, has_suffix, drop, take, length, if◌then◌else◌, Result, ok, panic,
}

abbrev pub is_region_char : ℕ → Bool
is_region_char r = (leb b'a' r && leb r b'z') || (leb b'0' r && leb r b'9') || r == b'-'

-- The loop over the characters.
abbrev pub all_region_chars : Str → Bool
all_region_chars [] = true
all_region_chars (r ∷ s) = if not (is_region_char r) then false else all_region_chars s

unfoldable pub is_valid_aws_region : Str → Bool
is_valid_aws_region [] = false
is_valid_aws_region (r ∷ s) = all_region_chars (r ∷ s)

-- The host up to the first colon.
unfoldable pub strip_port : Str → Str
strip_port [] = []
strip_port (c ∷ s) = if c == b':' then [] else c ∷ strip_port s

abbrev pub host_prefix : Str
host_prefix = lit "bedrock-runtime."

abbrev pub host_suffix : Str
host_suffix = lit ".amazonaws.com"

unfoldable pub validated : Str → Result (Unit {0}) (Option Str)
validated region = if not (is_valid_aws_region region) then ok none else ok (some region)

-- The results are Go's pair of a region and a Boolean, as an option. The slice
-- `host[len(prefix) : len(host)-len(suffix)]` panics where its bounds are out of order.
unfoldable pub region_of_host : Str → Result (Unit {0}) (Option Str)
region_of_host host =
    if not (has_prefix host host_prefix) || not (has_suffix host host_suffix)
    then ok none
    else (let lo = length host_prefix in
        let hi = length host - length host_suffix in
        if leb lo hi then validated (take (hi - lo) (drop lo host)) else panic)

unfoldable pub parse_bedrock_region_from_host : Str → Result (Unit {0}) (Option Str)
parse_bedrock_region_from_host host = region_of_host (strip_port host)

-- `header` is the value of X-Majordomo-Bedrock-Region, [] where it is absent.
unfoldable pub resolve_bedrock_region : Str → Str → Result (Unit {0}) (Option Str)
resolve_bedrock_region [] host = parse_bedrock_region_from_host host
resolve_bedrock_region (c ∷ header) host = validated (c ∷ header)
