-- ===== src/Provider/Paths.antt =====
-- What NormalizeOpenAIPath and Detect of internal/provider/provider.go promise together.
use majordomo_steward.Prelude.{
  Str, lit, Bool, true, none, List, [], ◌∷◌, ◌++◌, ◌||◌, ◌≡◌, refl, ◌⊎◌, inl, inr, arith, str_eq,
  str_eq_sound, has_prefix, has_prefix_refl, if◌then◌else◌, Bool-cases,
}
use majordomo_steward.Provider.{
  ProviderInfo, openai, normalize_openai_path, matches_suffix, openai_suffixes, detect,
}

has_prefix-shorter : (s p q : Str) → has_prefix s (p ++ q) ≡ true → has_prefix s p ≡ true
has_prefix-shorter s [] q h = refl
has_prefix-shorter [] (y ∷ p) q h = cc
has_prefix-shorter (x ∷ s) (y ∷ p) q h = ground (arith, has_prefix-shorter s p q)

-- One round of the loop over the suffixes.
first_round :
    (path p : Str) (ps : List Str)
    → matches_suffix path (p ∷ ps) ≡ true
    → (has_prefix path p ≡ true) ⊎ (matches_suffix path ps ≡ true)
first_round path p ps h = elim (Bool-cases (str_eq path p)) [
  | inl same ↦ inl (rw (str_eq_sound path p same) (has_prefix_refl p))
  | inr other ↦ elim (Bool-cases (has_prefix path (p ++ lit "/"))) [
    | inl below ↦ inl (has_prefix-shorter path p (lit "/") below)
    | inr apart ↦ inr (rw (other, apart) at h)
  ]
]

abbrev pub openai_info : ProviderInfo
openai_info = record { provider = openai; base_url = lit "https://api.openai.com" }

first_case :
    (a b c d : Bool) (x y : ProviderInfo)
    → (a ≡ true) ⊎ (b ≡ true) ⊎ (c ≡ true) ⊎ (d ≡ true)
    → (if a || b || c || d then x else y) ≡ x
first_case a b c d x y h = ground arith

no_rounds : (path : Str) → ¬ (matches_suffix path [] ≡ true)
no_rounds path h = cc

-- The suffix that was met is a prefix of the path.
matches-prefix :
    (path p q r s : Str)
    → matches_suffix path (p ∷ q ∷ r ∷ s ∷ []) ≡ true
    → (has_prefix path p ≡ true)
      ⊎ (has_prefix path q ≡ true)
      ⊎ (has_prefix path r ≡ true)
      ⊎ (has_prefix path s ≡ true)
matches-prefix path p q r s h = elim (first_round path p (q ∷ r ∷ s ∷ []) h) [
  | inl a ↦ inl a
  | inr h1 ↦ elim (first_round path q (r ∷ s ∷ []) h1) [
    | inl b ↦ inr (inl b)
    | inr h2 ↦ elim (first_round path r (s ∷ []) h2) [
      | inl c ↦ inr (inr (inl c))
      | inr h3 ↦ inr (inr (inr (last_round h3)))
    ]
  ]
]
  where
    last_round : matches_suffix path (s ∷ []) ≡ true → has_prefix path s ≡ true
    last_round h3 = elim (first_round path s [] h3) [
      | inl d ↦ d
      | inr none_left ↦ absurd (no_rounds path none_left)
    ]

detect-matching :
    (path : Str)
    → matches_suffix path openai_suffixes ≡ true
    → detect (lit "/v1" ++ path) none ≡ openai_info
unfolding detect
detect-matching path h = first_case _ _ _ _ _ _ (matches-prefix path _ _ _ _ h)

-- Normalising a path twice is normalising it once.
normalize_idem :
    (path : Str) → normalize_openai_path (normalize_openai_path path) ≡ normalize_openai_path path
unfolding normalize_openai_path
normalize_idem path = elim (Bool-cases (matches_suffix path openai_suffixes)) [
  | inl y ↦ rw y refl
  | inr n ↦ rw n (rw n refl)
]

-- For every path: normalising it twice is normalising it once, and a path that normalising changes
-- is the old path behind "/v1" and is detected, when no provider header is given, as OpenAI's with
-- OpenAI's base URL.
normalize-detect :
    (path : Str)
    → (normalize_openai_path (normalize_openai_path path) ≡ normalize_openai_path path)
      × ((normalize_openai_path path ≡ path)
          ⊎ ((normalize_openai_path path ≡ lit "/v1" ++ path)
              × (detect (normalize_openai_path path) none ≡ openai_info)))
unfolding normalize_openai_path
normalize-detect path = (
  normalize_idem path,
  elim (Bool-cases (matches_suffix path openai_suffixes)) [
    | inl y ↦ rw y (inr (refl, detect-matching path y))
    | inr n ↦ rw n (inl refl)
  ],
)
