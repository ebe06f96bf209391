-- ===== src/Provider/BedrockPath/Laws.antt =====
-- The model identifier that ExtractBedrockModelFromPath finds is exactly what stands between
-- "/model/" and the operation at the end of the path.
use majordomo_steward.Prelude.{
  ℕ, zero, suc, ◌+◌, ◌<◌, Str, lit, none, some, [], ◌∷◌, ◌++◌, ◌≡◌, ◌≢◌, ◌↔◌, refl, Bool-cases, sym,
  ◌∙◌, ap, ◌⊎◌, inl, inr, arith, true, has_prefix, has_prefix_sound, has_prefix_refl, drop, length,
  length-append, length-take, take-append, take-append-drop, Option-cases,
}
use majordomo_steward.Provider.BedrockPath.{
  last_index, cut_suffix, cut_suffixes, extract_bedrock_model_from_path,
}

has_prefix-length : (s p : Str) → length s < length p → has_prefix s p ≡ true → ⊥
has_prefix-length s [] h e = omega arith
has_prefix-length [] (y ∷ p) h e = cc
has_prefix-length (x ∷ s) (y ∷ p) h e = ground (arith, has_prefix-length s p)

last_index-shorter : (s p : Str) → length s < length p → last_index s p ≡ none
last_index-shorter [] p h = ground (arith, has_prefix-length [] p)
last_index-shorter (x ∷ s) p h = ground (arith, last_index-shorter s p, has_prefix-length (x ∷ s) p)

-- The last occurrence of a text at the end of another is that end.
last_index-end : (m : Str) (c : ℕ) (t : Str) → last_index (m ++ c ∷ t) (c ∷ t) ≡ some (length m)
last_index-end [] c t =
    rw (last_index-shorter t (c ∷ t) (omega arith), has_prefix_refl (c ∷ t)) refl
last_index-end (x ∷ m) c t = rw (last_index-end m c t) refl

-- A prefix as long as the text is the text.
has_prefix-whole : (s t : Str) → has_prefix s t ≡ true → length t ≡ length s → s ≡ t
has_prefix-whole [] [] h e = refl
has_prefix-whole [] (y ∷ t) h e = cc
has_prefix-whole (x ∷ s) [] h e = absurd (omega arith)
has_prefix-whole (x ∷ s) (y ∷ t) h e = ground (arith, has_prefix-whole s t)

-- An occurrence that reaches the end of the text is its end.
last_index_sound :
    (s t : Str) (i : ℕ) → last_index s t ≡ some i → i + length t ≡ length s → drop i s ≡ t
last_index_sound [] t i h e = ground (arith, has_prefix-whole [] t)
last_index_sound (x ∷ s) t zero h e = ground (arith, has_prefix-whole (x ∷ s) t)
last_index_sound (x ∷ s) t (suc i) h e = ground (arith, last_index_sound s t i)

cut_suffix-append : (m : Str) (c : ℕ) (t : Str) → m ≢ [] → cut_suffix (m ++ c ∷ t) (c ∷ t) ≡ some m
unfolding cut_suffix
cut_suffix-append m c t ne =
    rw (last_index-end m c t, cut_suffix)
      (ground (arith, ne, length-append m (c ∷ t), take-append m (c ∷ t)))

cut_suffix_sound : (rest t m : Str) → cut_suffix rest t ≡ some m → (rest ≡ m ++ t) × (m ≢ [])
unfolding cut_suffix
cut_suffix_sound rest t m h = elim (Option-cases (last_index rest t)) [
  | inl e ↦ absurd (cc (rw (e, cut_suffix) at h))
  | inr (i, e) ↦ (
    ground (arith, rw (e, cut_suffix) at h, last_index_sound rest t i e, take-append-drop i rest),
    λ empty. ground (arith, rw (e, cut_suffix) at h, length-take i rest),
  )
]

-- The last byte of a text that does not end where the other begins.
last_or : ℕ → Str → ℕ
last_or d [] = d
last_or d (x ∷ xs) = last_or x xs

last_or-append : (d : ℕ) (m : Str) (c : ℕ) (t : Str) → last_or d (m ++ c ∷ t) ≡ last_or c t
unfolding last_or
last_or-append d [] c t = refl
last_or-append d (x ∷ m) c t = last_or-append x m c t

apart : (m : Str) → cut_suffix (m ++ lit "/converse") (lit "/converse-stream") ≡ none
apart m = elim (Option-cases (cut_suffix (m ++ lit "/converse") (lit "/converse-stream"))) [
  | inl e ↦ e
  | inr (m', e) ↦ absurd (
      unfold last_or in
      omega (
        arith,
        ap (last_or 0) (cut_suffix_sound _ (lit "/converse-stream") m' e).0,
        last_or-append 0 m _ (lit "converse"),
        last_or-append 0 m' _ (lit "converse-stream"),
      ))
]

cut_suffixes_sound :
    (rest model : Str)
    → model ≢ []
    → cut_suffixes rest ≡ model
    → (rest ≡ model ++ lit "/converse") ⊎ (rest ≡ model ++ lit "/converse-stream")
unfolding cut_suffixes
cut_suffixes_sound rest model ne h =
    elim (Option-cases (cut_suffix rest (lit "/converse-stream"))) [
      | inr (m, e) ↦ inr (cut_suffix_sound rest _ model (e ∙ ap some (rw (e, cut_suffixes) at h))).0
      | inl e ↦ elim (Option-cases (cut_suffix rest (lit "/converse"))) [
        | inr (m, e') ↦
            inl (cut_suffix_sound rest _ model (e' ∙ ap some (rw (e, e', cut_suffixes) at h))).0
        | inl e' ↦ absurd (ne (sym (rw (e, e', cut_suffixes) at h)))
      ]
    ]

cut_suffixes-append :
    (model op : Str)
    → (op ≡ lit "/converse") ⊎ (op ≡ lit "/converse-stream")
    → model ≢ []
    → cut_suffixes (model ++ op) ≡ model
unfolding cut_suffixes
cut_suffixes-append model op (inl e) ne =
    rw e (rw (apart model, cut_suffixes) (rw (cut_suffix-append model b'/' (lit "converse") ne)))
cut_suffixes-append model op (inr e) ne =
    rw e (rw (cut_suffix-append model b'/' (lit "converse-stream") ne, cut_suffixes))

abbrev pub invocation : Str → Str → Str
invocation model operation = lit "/model/" ++ (model ++ operation)

extract_sound :
    (path model : Str)
    → model ≢ []
    → extract_bedrock_model_from_path path ≡ model
    → (path ≡ invocation model (lit "/converse"))
      ⊎ (path ≡ invocation model (lit "/converse-stream"))
unfolding extract_bedrock_model_from_path
extract_sound path model ne h = elim (Bool-cases (has_prefix path (lit "/model/"))) [
  | inr other ↦ absurd (ne (sym (rw other at h)))
  | inl starts ↦
      let split = has_prefix_sound path (lit "/model/") starts in
      elim (cut_suffixes_sound _ model ne (rw starts at h)) [
        | inl e ↦ inl (split ∙ ap (λ (r : Str). lit "/model/" ++ r) e)
        | inr e ↦ inr (split ∙ ap (λ (r : Str). lit "/model/" ++ r) e)
      ]
]

-- For every path and every non-empty model: the function returns that model exactly when the path
-- is "/model/", the model, and "/converse" or "/converse-stream".
pub extract_iff :
    (path model : Str)
    → model ≢ []
    → (extract_bedrock_model_from_path path ≡ model) ↔ (
        (path ≡ invocation model (lit "/converse"))
        ⊎ (path ≡ invocation model (lit "/converse-stream")))
extract_iff path model ne = (extract_sound path model ne, complete)
  where
    complete :
        (path ≡ invocation model (lit "/converse"))
          ⊎ (path ≡ invocation model (lit "/converse-stream"))
        → extract_bedrock_model_from_path path ≡ model
    complete (inl e) =
        rw e (unfold extract_bedrock_model_from_path in cut_suffixes-append model _ (inl refl) ne)
    complete (inr e) =
        rw e (unfold extract_bedrock_model_from_path in cut_suffixes-append model _ (inr refl) ne)
