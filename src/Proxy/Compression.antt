-- ===== src/Proxy/Compression.antt =====
-- internal/proxy/compression.go: whether a response is compressed. compress/gzip is not read here.
use majordomo_steward.Prelude.{
  ℕ, Bool, false, not, ◌&&◌, ◌||◌, List, [], ◌∷◌, Str, lit, ltb, leb, ◌==◌, has_prefix, contains,
  to_lower, if◌then◌else◌,
}

abbrev pub cons_first : ℕ → List Str → List Str
cons_first c [] = (c ∷ []) ∷ []
cons_first c (part ∷ parts) = (c ∷ part) ∷ parts

-- strings.Split(s, sep) for a separator of one byte.
unfoldable pub split : ℕ → Str → List Str
split sep [] = [] ∷ []
split sep (c ∷ s) = let parts = split sep s in if c == sep then [] ∷ parts else cons_first c parts

-- The white space of ASCII.
abbrev pub is_space : ℕ → Bool
is_space c = c == 32 || (leb 9 c && leb c 13)

abbrev pub trim_start : Str → Str
trim_start [] = []
trim_start (c ∷ s) = let rest = trim_start s in if is_space c then rest else c ∷ s

abbrev pub drop_space : ℕ → Str → Str
drop_space c [] = if is_space c then [] else c ∷ []
drop_space c (d ∷ s) = c ∷ d ∷ s

abbrev pub trim_end : Str → Str
trim_end [] = []
trim_end (c ∷ s) = drop_space c (trim_end s)

-- strings.TrimSpace(s)
abbrev pub trim_space : Str → Str
trim_space s = trim_end (trim_start s)

abbrev pub any_gzip : List Str → Bool
any_gzip [] = false
any_gzip (encoding ∷ encodings) =
    has_prefix (trim_space encoding) (lit "gzip") || any_gzip encodings

unfoldable pub accepts_gzip : Str → Bool
unfolding split
accepts_gzip accept_encoding = any_gzip (split b',' accept_encoding)

abbrev pub compressible_types : List Str
compressible_types =
    lit "text/"
    ∷ lit "application/json"
    ∷ lit "application/xml"
    ∷ lit "application/javascript"
    ∷ lit "application/x-javascript"
    ∷ lit "application/ld+json"
    ∷ lit "application/manifest+json"
    ∷ lit "application/vnd.api+json"
    ∷ []

abbrev pub contains_any : Str → List Str → Bool
contains_any s [] = false
contains_any s (t ∷ types) = contains s t || contains_any s types

unfoldable pub is_compressible_content_type : Str → Bool
is_compressible_content_type content_type = contains_any (to_lower content_type) compressible_types

abbrev pub min_compression_size : ℕ
min_compression_size = 1024

unfoldable pub should_compress : Str → Str → ℕ → Bool
unfolding accepts_gzip is_compressible_content_type
should_compress accept_encoding content_type body_size =
    if not (accepts_gzip accept_encoding)
    then false
    else if ltb body_size min_compression_size
    then false
    else is_compressible_content_type content_type
