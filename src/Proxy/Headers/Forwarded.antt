-- ===== src/Proxy/Headers/Forwarded.antt =====
-- Which headers of a request reach the provider, and which of its response the client.
use mathlib.Core.List.{append_assoc, append-nil}
use majordomo_steward.Prelude.{
  Bool, List, [], ◌∷◌, ◌++◌, Str, str_eq, str_eq_sound, to_lower, ◌≡◌, refl, sym, ap, ◌∙◌, inl, inr,
  Bool-cases, if◌then◌else◌,
}
use majordomo_steward.Proxy.Headers.{
  Header, add_all, is_skipped_request, is_skipped_response, copy_headers, copy_response_headers,
  copy_unless,
}

-- The values that a list of added headers has for a name, in order.
abbrev pub values_of : Str → List (Str × Str) → List Str
values_of key [] = []
values_of key ((j, v) ∷ dst) = if str_eq j key then v ∷ values_of key dst else values_of key dst

-- The values that a header has for a name, in order.
abbrev pub values_in : Str → Header → List Str
values_in key [] = []
values_in key ((j, values) ∷ src) =
    if str_eq j key then values ++ values_in key src else values_in key src

values_of-snoc :
    (key j v : Str) (dst : List (Str × Str))
    → values_of key (dst ++ ((j, v) ∷ []))
      ≡ values_of key dst ++ (if str_eq j key then v ∷ [] else [])
values_of-snoc key j v [] = refl
values_of-snoc key j v ((i, w) ∷ dst) = elim (Bool-cases (str_eq i key)) [
  | inl same ↦ rw same (ap (λ (l : List Str). w ∷ l) (values_of-snoc key j v dst))
  | inr other ↦ rw other (values_of-snoc key j v dst)
]

values_of-add_all :
    (key j : Str) (values : List Str) (dst : List (Str × Str))
    → values_of key (add_all j values dst)
      ≡ values_of key dst ++ (if str_eq j key then values else [])
values_of-add_all key j [] dst = elim (Bool-cases (str_eq j key)) [
  | inl same ↦ rw same (sym (append-nil (values_of key dst)))
  | inr other ↦ rw other (sym (append-nil (values_of key dst)))
]
values_of-add_all key j (v ∷ values) dst = elim (Bool-cases (str_eq j key)) [
  | inl same ↦
      values_of-add_all key j values (dst ++ ((j, v) ∷ []))
      ∙ rw (values_of-snoc key j v dst, same) (append_assoc (values_of key dst) (v ∷ []) values)
  | inr other ↦
      values_of-add_all key j values (dst ++ ((j, v) ∷ []))
      ∙ rw (values_of-snoc key j v dst, other) (append_assoc (values_of key dst) [] [])
]

module _ (skips : Str → Bool) (key : Str) where
  -- What is copied for the name.
  abbrev copied : Header → List Str
  copied src = if skips (to_lower key) then [] else values_in key src

  values_of-copy :
      (src : Header) (dst : List (Str × Str))
      → values_of key (copy_unless skips src dst) ≡ values_of key dst ++ copied src
  unfolding copy_unless
  values_of-copy [] dst = elim (Bool-cases (skips (to_lower key))) [
    | inl skip ↦ rw skip (sym (append-nil (values_of key dst)))
    | inr keep ↦ rw keep (sym (append-nil (values_of key dst)))
  ]
  values_of-copy ((j, values) ∷ src) dst = elim (Bool-cases (str_eq j key)) [
    | inl same ↦ elim (Bool-cases (skips (to_lower key))) [
      | inl skip ↦
          rw (ap (λ k. skips (to_lower k)) (str_eq_sound j key same) ∙ skip, skip)
            (values_of-copy src dst ∙ rw skip refl)
      | inr keep ↦
          rw (ap (λ k. skips (to_lower k)) (str_eq_sound j key same) ∙ keep, keep, same)
            (values_of-copy src (add_all j values dst)
              ∙ rw (values_of-add_all key j values dst, same, keep)
                  (append_assoc (values_of key dst) values (values_in key src)))
    ]
    | inr other ↦ elim (Bool-cases (skips (to_lower j))) [
      | inl skip ↦ rw (skip, other) (values_of-copy src dst)
      | inr keep ↦
          rw (keep, other)
            (values_of-copy src (add_all j values dst)
              ∙ ap (λ l. l ++ copied src)
                  (values_of-add_all key j values dst ∙ rw other (append-nil (values_of key dst))))
    ]
  ]

-- For every request header, what is already added and every name: what is forwarded under the name
-- are the values that were there before, and then all values of the header, in order, or none if the
-- name begins with X-Majordomo in any case or is a hop-by-hop name.
pub values_of-copy_headers :
    (key : Str) (src : Header) (dst : List (Str × Str))
    → values_of key (copy_headers src dst)
      ≡ values_of key dst ++ (if is_skipped_request (to_lower key) then [] else values_in key src)
values_of-copy_headers key src dst = values_of-copy is_skipped_request key src dst

-- For every response header, what is already added and every name: what is forwarded under the name are
-- the values that were there before, and then all values of the header, in order, or none if the name is
-- a hop-by-hop name or Content-Encoding in any case.
values_of-copy_response_headers :
    (key : Str) (src : Header) (dst : List (Str × Str))
    → values_of key (copy_response_headers src dst)
      ≡ values_of key dst ++ (if is_skipped_response (to_lower key) then [] else values_in key src)
values_of-copy_response_headers key src dst = values_of-copy is_skipped_response key src dst
