-- ===== src/Provider/Metrics/Laws.antt =====
-- The convention behind the builders of internal/provider: the cached and the cache-creation tokens
-- are part of the input tokens.
use majordomo_steward.Prelude.{ℕ, ◌+◌, ◌≤◌, Str, ◌≡◌, arith}
use majordomo_steward.Prelude.Int.{pos, ◌+ℤ◌, +ℤ_pos, int_max}
use majordomo_steward.Provider.Metrics.{UsageMetrics, build_metrics, build_bedrock_metrics}

-- The parts of the input add up within the total.
pub record IsTotal (m : UsageMetrics) (uncached read written : ℕ) : Type 0 where
  pub total : m.input_tokens ≡ pos (uncached + read + written)
  pub cached : m.cached_tokens ≡ pos read
  pub created : m.cache_creation_tokens ≡ pos written

sum_of_three : (a b c : ℕ) → a + b + c ≤ int_max → pos a +ℤ pos b +ℤ pos c ≡ pos (a + b + c)
sum_of_three a b c h = ground (arith, +ℤ_pos a b, +ℤ_pos (a + b) c)

pub build_metrics-IsTotal :
    (model : Str) (uncached output read written : ℕ)
    → uncached + read + written ≤ int_max
    → IsTotal
        (build_metrics model (record {
          input_tokens = pos uncached;
          output_tokens = pos output;
          cache_read_input_tokens = pos read;
          cache_creation_input_tokens = pos written;
        }))
        uncached
        read
        written
unfolding build_metrics
build_metrics-IsTotal model uncached output read written h =
    ground (arith, sum_of_three uncached read written)

pub build_bedrock_metrics-IsTotal :
    (uncached output read written : ℕ)
    → uncached + read + written ≤ int_max
    → IsTotal
        (build_bedrock_metrics (pos uncached) (pos output) (pos read) (pos written))
        uncached
        read
        written
unfolding build_bedrock_metrics
build_bedrock_metrics-IsTotal uncached output read written h =
    ground (arith, sum_of_three uncached read written)
