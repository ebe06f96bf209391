-- ===== src/Pricing/Laws.antt =====
-- Which price a model has after a refresh, and how the input tokens of a request are billed.
use majordomo_steward.Prelude.{
  ℕ, ◌+◌, ◌-◌, ◌≤◌, Option, none, some, List, [], ◌∷◌, ◌≡◌, refl, sym, ap, ◌∙◌, inl, inr, arith,
  Str, str_eq, str_eq_sound, lookup, Bool-cases, if◌then◌else◌,
}
use majordomo_steward.Prelude.Int.{pos, ◌-ℤ◌, int_max, -ℤ_pos}
use majordomo_steward.Provider.Metrics.{UsageMetrics}
use majordomo_steward.Pricing.{
  Floats, ModelPricing, RemotePriceEntry, FallbackPriceEntry, FallbackFile, RemoteAnswer, Service,
  of_remote, of_fallback, collect, fetch_remote, convert, add_missing, merge, merge_fallback,
  refresh, buckets, or_alias,
}

module _ {F : Type 0} (floats : Floats F) where
  -- The price that the last entry of the remote list with the id gives.
  abbrev pub remote_price : Str → List (RemotePriceEntry F) → Option (ModelPricing F)
  remote_price model [] = none
  remote_price model (entry ∷ prices) =
      or_alias floats (remote_price model prices)
        (if str_eq entry.id model then some (of_remote floats entry) else none)

  -- The price of the fallback file, if it can be read.
  abbrev pub fallback_price : Str → FallbackFile F → Option (ModelPricing F)
  fallback_price model none = none
  fallback_price model (some entries) = lookup model (convert floats entries)

  or_alias_assoc :
      (a b c : Option (ModelPricing F))
      → or_alias floats (or_alias floats a b) c ≡ or_alias floats a (or_alias floats b c)
  or_alias_assoc none b c = refl
  or_alias_assoc (some a) b c = refl

  or_alias-none : (a : Option (ModelPricing F)) → or_alias floats a none ≡ a
  or_alias-none none = refl
  or_alias-none (some a) = refl

  lookup-cons :
      (model key : Str) (price : ModelPricing F) (pricing : List (Str × ModelPricing F))
      → lookup model ((key, price) ∷ pricing)
        ≡ or_alias floats (if str_eq key model then some price else none) (lookup model pricing)
  lookup-cons model key price pricing = elim (Bool-cases (str_eq key model)) [
    | inl same ↦ rw same refl
    | inr differ ↦ rw differ refl
  ]

  lookup-collect :
      (model : Str) (prices : List (RemotePriceEntry F)) (pricing : List (Str × ModelPricing F))
      → lookup model (collect floats prices pricing)
        ≡ or_alias floats (remote_price model prices) (lookup model pricing)
  lookup-collect model [] pricing = refl
  lookup-collect model (entry ∷ prices) pricing =
      lookup-collect model prices ((entry.id, of_remote floats entry) ∷ pricing)
      ∙ ap (or_alias floats (remote_price model prices))
          (lookup-cons model entry.id (of_remote floats entry) pricing)
      ∙ sym (or_alias_assoc (remote_price model prices) _ (lookup model pricing))

  lookup-add_missing :
      (model key : Str) (entry : FallbackPriceEntry F) (pricing : List (Str × ModelPricing F))
      → lookup model (add_missing floats (lookup key pricing) key entry pricing)
        ≡ or_alias floats
            (lookup model pricing)
            (if str_eq key model then some (of_fallback floats entry) else none)
  lookup-add_missing model key entry pricing = go (lookup key pricing) refl
    where
      go :
          (found : Option (ModelPricing F))
          → lookup key pricing ≡ found
          → lookup model (add_missing floats found key entry pricing)
            ≡ or_alias floats
                (lookup model pricing)
                (if str_eq key model then some (of_fallback floats entry) else none)
      go (some price) h = elim (Bool-cases (str_eq key model)) [
        | inl same ↦
            rw (same, sym (ap (λ k. lookup k pricing) (str_eq_sound key model same)) ∙ h) refl
        | inr differ ↦ rw differ (sym (or_alias-none (lookup model pricing)))
      ]
      go none h = elim (Bool-cases (str_eq key model)) [
        | inl same ↦
            rw (same, sym (ap (λ k. lookup k pricing) (str_eq_sound key model same)) ∙ h) refl
        | inr differ ↦ rw differ (sym (or_alias-none (lookup model pricing)))
      ]

  lookup-merge :
      (model : Str) (entries : List (Str × FallbackPriceEntry F))
      (pricing : List (Str × ModelPricing F))
      → lookup model (merge floats entries pricing)
        ≡ or_alias floats (lookup model pricing) (lookup model (convert floats entries))
  lookup-merge model [] pricing = sym (or_alias-none (lookup model pricing))
  lookup-merge model ((key, entry) ∷ entries) pricing =
      let rest = lookup model (convert floats entries) in
      lookup-merge model entries (add_missing floats (lookup key pricing) key entry pricing)
      ∙ ap (λ a. or_alias floats a rest) (lookup-add_missing model key entry pricing)
      ∙ or_alias_assoc (lookup model pricing) _ rest
      ∙ ap (or_alias floats (lookup model pricing))
          (sym (lookup-cons model key (of_fallback floats entry) (convert floats entries)))

  -- The price of a model after a refresh of the service `s`.
  abbrev pub refreshed : Str → RemoteAnswer F → FallbackFile F → Service F → Option (ModelPricing F)
  refreshed model none file s = lookup model s.pricing
  refreshed model (some prices) file s =
      or_alias floats (remote_price model prices) (fallback_price model file)

  -- After a refresh whose remote answer was not decoded, every model has the price that it had. After
  -- any other, a model has the price of the last remote entry with its id, and if there is none, the
  -- price of the fallback file, or none if that has none or is not read.
  pub refresh-Lookup :
      (model : Str) (answer : RemoteAnswer F) (file : FallbackFile F) (s : Service F)
      → lookup model (refresh floats answer file s).pricing ≡ refreshed model answer file s
  unfolding refresh fetch_remote merge_fallback
  refresh-Lookup model none file s = refl
  refresh-Lookup model (some prices) none s = lookup-collect model prices []
  refresh-Lookup model (some prices) (some entries) s =
      lookup-merge model entries (collect floats prices [])
      ∙ ap (λ a. or_alias floats a (lookup model (convert floats entries)))
          (lookup-collect model prices [] ∙ or_alias-none (remote_price model prices))

  -- For token counts as providers report them, with the cached and the cache-creation tokens part of
  -- the input tokens: every input token is billed in one bucket, none is negative, the cached tokens
  -- are those of the request, and without a positive cache-creation rate no token is billed as cache
  -- creation.
  pub buckets-Partition :
      (metrics : UsageMetrics) (price : ModelPricing F) (input cached created : ℕ)
      → metrics.input_tokens ≡ pos input
      → metrics.cached_tokens ≡ pos cached
      → metrics.cache_creation_tokens ≡ pos created
      → cached + created ≤ input
      → input ≤ int_max
      → let billed =
          if floats.is_positive price.cache_creation_price_per_million then created else 0 in
        buckets floats metrics price ≡ record {
          plain = pos (input - cached - billed);
          cached = pos cached;
          created = pos billed;
        }
  unfolding buckets
  buckets-Partition metrics price input cached created i c n within bounded =
      elim (Bool-cases (floats.is_positive price.cache_creation_price_per_million)) [
        | inl rated ↦ simp (rated, i, c, n, plain_rated, plain_unrated) refl
        | inr unrated ↦
            simp (unrated, i, c, n, plain_unrated)
              (ap (λ m. record { plain = pos m; cached = pos cached; created = pos 0 })
                (omega arith))
      ]
    where
      plain_unrated : pos input -ℤ pos cached ≡ pos (input - cached)
      plain_unrated = -ℤ_pos input cached (omega (arith, within)) bounded

      plain_rated : pos (input - cached) -ℤ pos created ≡ pos (input - cached - created)
      plain_rated = -ℤ_pos (input - cached) created (omega (arith, within)) (omega (arith, bounded))
