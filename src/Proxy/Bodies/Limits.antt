-- ===== src/Proxy/Bodies/Limits.antt =====
-- The bounds of the bodies in the request log.
use majordomo_steward.Prelude.{
  ℕ, zero, suc, ◌≤◌, Bool, true, false, Option, none, some, [], ◌∷◌, Str, lit, str_eq, length, take,
  length-take, ◌≡◌, refl, sym, ap, inl, inr, ok, arith, Bool-cases, ◌⊎◌,
}
use majordomo_steward.Prelude.Int.{ℤ, pos, negsuc, ltb_ℤ}
use majordomo_steward.Proxy.Bodies.{
  LoggingConfig, StoredBodies, no_bodies, effective_max, effective_max_request_body_size,
  effective_max_response_body_size, truncate_body, kept_body, store_body_to_global_storage,
}

take_all : (n : ℕ) (s : Str) → length s ≤ n → take n s ≡ s
take_all zero [] h = refl
take_all zero (c ∷ s) h = absurd (omega arith)
take_all (suc n) [] h = refl
take_all (suc n) (c ∷ s) h = ap (λ t. c ∷ t) (take_all n s (omega arith))

-- A limit that is a positive number.
abbrev pub IsPositive : ℤ → Type 0
IsPositive z = (n : ℕ) × (z ≡ pos n) × (1 ≤ n)

IsPositive-test : (z : ℤ) → ltb_ℤ (pos 0) z ≡ true → IsPositive z
IsPositive-test (pos n) h = (n, refl, ground arith)
IsPositive-test (negsuc n) h = absurd (ground arith)

effective_max-IsPositive : (own common : ℤ) → IsPositive (effective_max own common)
unfolding effective_max
effective_max-IsPositive own common = elim (Bool-cases (ltb_ℤ (pos 0) own)) [
  | inl h ↦ rw h (IsPositive-test own h)
  | inr n ↦ elim (Bool-cases (ltb_ℤ (pos 0) common)) [
    | inl k ↦ rw (n, k) (IsPositive-test common k)
    | inr m ↦ rw (n, m) (65536, refl, omega arith)
  ]
]

truncate_body_lem : (body : Str) (n : ℕ) → truncate_body body (pos n) ≡ ok (take n body)
unfolding truncate_body
truncate_body_lem body n = elim (Bool-cases (ltb_ℤ (pos n) (pos (length body)))) [
  | inl h ↦ rw h refl
  | inr k ↦ let fits : length body ≤ n = ground arith in rw k (ap ok (sym (take_all n body fits)))
]

-- What a column keeps of a body under a limit: nothing, or a prefix that is not longer than it.
abbrev pub KeepsPrefix : Str → ℤ → Option Str → Type 0
KeepsPrefix body limit none = Unit
KeepsPrefix body limit (some kept) =
    (n : ℕ) × (limit ≡ pos n) × (1 ≤ n) × (kept ≡ take n body) × (length kept ≤ n)

kept_body-KeepsPrefix :
    (store : Bool) (body : Str) (limit : ℤ)
    → IsPositive limit
    → (kept : Option Str) × (kept_body store body limit none ≡ ok kept)
      × KeepsPrefix body limit kept
kept_body-KeepsPrefix false body limit p = (none, refl, tt)
kept_body-KeepsPrefix true body limit (n, at, positive) =
    let short : length (take n body) ≤ n = ground (arith, length-take n body) in
    (some (take n body), rw at (rw (truncate_body_lem body n) refl), (n, at, positive, refl, short))

-- Whatever sizes are configured, the storage of bodies in the request log never panics on its slices,
-- and each column keeps nothing or a prefix of its body that is not longer than the effective limit,
-- which is positive; no object of a cloud is named. With a body storage other than postgres, s3 and gcs
-- included, both columns keep nothing.
pub store_body_to_global_storage-KeepsPrefix :
    (l : LoggingConfig) (req_body resp_body : Str)
    → (s : StoredBodies) × (store_body_to_global_storage l req_body resp_body no_bodies ≡ ok s)
      × KeepsPrefix req_body (effective_max_request_body_size l) s.request_body
      × KeepsPrefix resp_body (effective_max_response_body_size l) s.response_body
      × (s.body_s3_key ≡ none)
      × ((str_eq l.body_storage (lit "postgres") ≡ true) ⊎ (s ≡ no_bodies))
unfolding store_body_to_global_storage
store_body_to_global_storage-KeepsPrefix l req_body resp_body =
    elim (Bool-cases (str_eq l.body_storage (lit "postgres"))) [
      | inr other ↦ (no_bodies, rw other refl, tt, tt, refl, inr refl)
      | inl postgres ↦
          let (req, a, p) =
            kept_body-KeepsPrefix l.store_request_body req_body (effective_max_request_body_size l)
              (effective_max-IsPositive l.max_request_body_size l.max_body_size) in
          let (resp, b, q) =
            kept_body-KeepsPrefix l.store_response_body resp_body
              (effective_max_response_body_size l)
              (effective_max-IsPositive l.max_response_body_size l.max_body_size) in
          (
            record { request_body = req; response_body = resp; body_s3_key = none },
            rw (postgres, a, b) refl,
            p,
            q,
            refl,
            inl postgres,
          )
    ]
