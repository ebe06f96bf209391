-- ===== src/Pricing/Billing.antt =====
-- From a provider's usage report to the buckets that are billed.
use majordomo_steward.Prelude.{
  ℕ, ◌+◌, ◌≤◌, Str, ◌≡◌, ap, ◌∙◌, arith, Bool-cases, inl, inr, if◌then◌else◌,
}
use majordomo_steward.Prelude.Int.{pos, int_max}
use majordomo_steward.Provider.Metrics.{UsageMetrics, build_metrics, build_bedrock_metrics}
use majordomo_steward.Provider.Metrics.Laws.{
  IsTotal, build_metrics-IsTotal, build_bedrock_metrics-IsTotal,
}
use majordomo_steward.Pricing.{Floats, ModelPricing, Buckets, buckets}
use majordomo_steward.Pricing.Laws.{buckets-Partition}

module _ {F : Type 0} (floats : Floats F) (price : ModelPricing F) where
  -- The buckets that a provider's own split of the input tokens calls for.
  abbrev pub fair_split : ℕ → ℕ → ℕ → Buckets
  fair_split uncached read written =
      if floats.is_positive price.cache_creation_price_per_million
      then record { plain = pos uncached; cached = pos read; created = pos written }
      else record { plain = pos (uncached + written); cached = pos read; created = pos 0 }

  buckets-IsTotal :
      (m : UsageMetrics) (uncached read written : ℕ)
      → IsTotal m uncached read written
      → uncached + read + written ≤ int_max
      → buckets floats m price ≡ fair_split uncached read written
  buckets-IsTotal m uncached read written t h =
      buckets-Partition floats m price (uncached + read + written) read written t.total t.cached
        t.created (omega arith) h
      ∙ elim (Bool-cases (floats.is_positive price.cache_creation_price_per_million)) [
        | inl rated ↦ simp rated (
            ap (λ n. record { plain = pos n; cached = pos read; created = pos written })
              (omega arith))
        | inr unrated ↦
            simp unrated
              (ap (λ n. record { plain = pos n; cached = pos read; created = pos 0 }) (omega arith))
      ]

  -- For counts whose sum is an int: a response of Anthropic or of Bedrock that reports uncached input,
  -- cache reads and cache writes is billed with the reads as cached tokens and the rest as the provider
  -- split it: cache writes apart where the model has a positive cache-creation rate, and as plain
  -- input where it has none.
  pub buckets-build_metrics :
      (model : Str) (uncached output read written : ℕ)
      → uncached + read + written ≤ int_max
      → (buckets floats
            (build_metrics model (record {
              input_tokens = pos uncached;
              output_tokens = pos output;
              cache_read_input_tokens = pos read;
              cache_creation_input_tokens = pos written;
            }))
            price
          ≡ fair_split uncached read written)
        × (buckets floats
              (build_bedrock_metrics (pos uncached) (pos output) (pos read) (pos written))
              price
            ≡ fair_split uncached read written)
  buckets-build_metrics model uncached output read written h = (
    buckets-IsTotal _ uncached read written
        (build_metrics-IsTotal model uncached output read written h) h,
    buckets-IsTotal _ uncached read written
        (build_bedrock_metrics-IsTotal uncached output read written h) h,
  )
