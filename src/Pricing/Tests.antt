-- ===== src/Pricing/Tests.antt =====
-- Runs of the model of internal/pricing, and the theorems at them.
use majordomo_steward.Prelude.{
  ℕ, ◌+◌, ◌*◌, Str, lit, none, some, List, [], ◌∷◌, ◌≡◌, ltb, arith, lookup,
}
use majordomo_steward.Prelude.Int.{pos, pos_part}
use majordomo_steward.Provider.Metrics.{build_metrics, build_bedrock_metrics}
use majordomo_steward.Pricing.{
  Floats, ModelPricing, RemotePriceEntry, FallbackPriceEntry, Service, refresh, buckets,
}
use majordomo_steward.Pricing.Laws.{refreshed, refresh-Lookup}
use majordomo_steward.Pricing.Billing.{fair_split, buckets-build_metrics}

-- Prices as natural numbers, for the runs.
abbrev whole : Floats ℕ
whole = record {
  nought = 0;
  million = 1000000;
  float64 = pos_part;
  plus = λ a b. a + b;
  times = λ a b. a * b;
  over = λ a b. a;
  is_positive = λ a. ltb 0 a;
}

abbrev rated : ModelPricing ℕ
rated = record {
  input_price_per_million = 3;
  output_price_per_million = 15;
  cached_price_per_million = 1;
  cache_creation_price_per_million = 4;
}

abbrev remote_prices : List (RemotePriceEntry ℕ)
remote_prices = record { id = lit "gpt-4o"; input = 2; output = 10; input_cached = none } ∷ []

abbrev fallback_prices : List (Str × FallbackPriceEntry ℕ)
fallback_prices =
    (
      lit "gpt-4o",
      record { input_price = 9; output_price = 9; cached_price = 9; cache_creation_price = 9 },
    )
    ∷ (
      lit "nova",
      record { input_price = 1; output_price = 5; cached_price = 0; cache_creation_price = 0 },
    )
    ∷ []

abbrev old_prices : Service ℕ
old_prices = record { pricing = (lit "old", rated) ∷ []; aliases = [] }

refresh-Lookup_example :
    lookup
      (lit "nova")
      (refresh whole (some remote_prices) (some fallback_prices) old_prices).pricing
    ≡ refreshed whole (lit "nova") (some remote_prices) (some fallback_prices) old_prices
refresh-Lookup_example =
    refresh-Lookup whole (lit "nova") (some remote_prices) (some fallback_prices) old_prices

buckets-build_metrics_example :
    (buckets whole
        (build_metrics (lit "claude") (record {
          input_tokens = pos 100;
          output_tokens = pos 20;
          cache_read_input_tokens = pos 30;
          cache_creation_input_tokens = pos 5;
        }))
        rated
      ≡ fair_split whole rated 100 30 5)
    × (buckets whole (build_bedrock_metrics (pos 100) (pos 20) (pos 30) (pos 5)) rated
        ≡ fair_split whole rated 100 30 5)
buckets-build_metrics_example =
    buckets-build_metrics whole rated (lit "claude") 100 20 30 5 (omega arith)
