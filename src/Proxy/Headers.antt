-- ===== src/Proxy/Headers.antt =====
-- The headers that internal/proxy forwards (copyHeaders and copyResponseHeaders of upstream.go) and the
-- ones it reads (extractHeaders and extractCustomMetadata of handler.go). An http.Header is a list of
-- names with their values, in the order of the range loop; what is added to one, a list of pairs.
pub mod Forwarded
use majordomo_steward.Prelude.{
  ℕ, Bool, true, false, ◌||◌, List, [], ◌∷◌, ◌++◌, Str, lit, str_eq, has_prefix, trim_prefix,
  to_lower, map, if◌then◌else◌, Result, ok, panic, ◌>>=◌, length, leb, take,
}

abbrev pub Header : Type 0
Header = List (Str × List Str)

abbrev pub is_one_of : Str → List Str → Bool
is_one_of name [] = false
is_one_of name (s ∷ set) = str_eq name s || is_one_of name set

abbrev pub hop_by_hop_headers : List Str
hop_by_hop_headers =
    lit "connection"
    ∷ lit "keep-alive"
    ∷ lit "proxy-authenticate"
    ∷ lit "proxy-authorization"
    ∷ lit "te"
    ∷ lit "trailers"
    ∷ lit "transfer-encoding"
    ∷ lit "upgrade"
    ∷ lit "host"
    ∷ lit "content-length"
    ∷ lit "accept-encoding"
    ∷ []

-- `for _, v := range values { dst.Add(key, v) }`
abbrev pub add_all : Str → List Str → List (Str × Str) → List (Str × Str)
add_all key [] dst = dst
add_all key (v ∷ values) dst = add_all key values (dst ++ ((key, v) ∷ []))

abbrev pub is_skipped_request : Str → Bool
is_skipped_request lower_key =
    has_prefix lower_key (lit "x-majordomo") || is_one_of lower_key hop_by_hop_headers

abbrev pub is_skipped_response : Str → Bool
is_skipped_response lower_key =
    is_one_of lower_key hop_by_hop_headers || str_eq lower_key (lit "content-encoding")

-- The loop of both functions, with the tests before `continue` as a function of the lower-case name.
unfoldable pub copy_unless : (Str → Bool) → Header → List (Str × Str) → List (Str × Str)
copy_unless skips [] dst = dst
copy_unless skips ((key, values) ∷ src) dst =
    if skips (to_lower key)
    then copy_unless skips src dst
    else copy_unless skips src (add_all key values dst)

abbrev pub copy_headers : Header → List (Str × Str) → List (Str × Str)
copy_headers = copy_unless is_skipped_request

abbrev pub copy_response_headers : Header → List (Str × Str) → List (Str × Str)
copy_response_headers = copy_unless is_skipped_response

-- `values[0]`
abbrev pub first_value : List Str → Result (Unit {0}) Str
first_value [] = panic
first_value (v ∷ values) = ok v

-- The map is a list of entries, the newest first.
unfoldable pub extract_headers : Header → List (Str × Str) → Result (Unit {0}) (List (Str × Str))
extract_headers [] result = ok result
extract_headers ((key, values) ∷ h) result =
    if has_prefix (to_lower key) (lit "x-majordomo")
    then (first_value values >>= λ v. extract_headers h ((to_lower key, v) ∷ result))
    else extract_headers h result

abbrev pub reserved_headers : List Str
reserved_headers =
    lit "x-majordomo-key"
    ∷ lit "x-majordomo-provider"
    ∷ lit "x-majordomo-provider-alias"
    ∷ lit "x-majordomo-client"
    ∷ lit "x-majordomo-claudecode-session-id"
    ∷ lit "x-majordomo-claudecode-session-name"
    ∷ []

unfoldable pub extract_custom_metadata : List (Str × Str) → List (Str × Str) → List (Str × Str)
extract_custom_metadata [] metadata = metadata
extract_custom_metadata ((key, value) ∷ headers) metadata =
    if is_one_of key reserved_headers
    then extract_custom_metadata headers metadata
    else extract_custom_metadata headers ((trim_prefix key (lit "x-majordomo-"), value) ∷ metadata)
