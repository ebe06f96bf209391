-- ===== src/Pricing.antt =====
-- internal/pricing/service.go: the price table, its refresh from the remote and the fallback file, and
-- the cost of a request. float64 is a type `F` with the operations the code uses (`Floats`).
pub mod Laws
pub mod Billing
pub mod Tests
use majordomo_steward.Prelude.{
  ℕ, Bool, true, false, Option, none, some, List, [], ◌∷◌, Str, lookup, if◌then◌else◌,
}
use majordomo_steward.Prelude.Int.{ℤ, pos, ◌+ℤ◌, ◌-ℤ◌}
use majordomo_steward.Provider.Metrics.{UsageMetrics}

-- The arithmetic of float64 that the code calls.
pub record Floats (F : Type 0) : Type 0 where
  pub nought : F
  pub million : F
  pub float64 : ℤ → F
  pub plus : F → F → F
  pub times : F → F → F
  pub over : F → F → F
  pub is_positive : F → Bool

pub record ModelPricing (F : Type 0) : Type 0 where
  pub input_price_per_million : F
  pub output_price_per_million : F
  pub cached_price_per_million : F
  pub cache_creation_price_per_million : F

-- remotePriceEntry, without the fields that the service does not read.
pub record RemotePriceEntry (F : Type 0) : Type 0 where
  pub id : Str
  pub input : F
  pub output : F
  pub input_cached : Option F

pub record FallbackPriceEntry (F : Type 0) : Type 0 where
  pub input_price : F
  pub output_price : F
  pub cached_price : F
  pub cache_creation_price : F

-- models.Cost
pub record Cost (F : Type 0) : Type 0 where
  pub input_cost : F
  pub output_cost : F
  pub total_cost : F
  pub model_alias_found : Bool

-- The state under the lock: a map is a list of entries, the newest first.
pub record Service (F : Type 0) : Type 0 where
  pub pricing : List (Str × ModelPricing F)
  pub aliases : List (Str × Str)

-- What os.ReadFile and json.Unmarshal give for the fallback file: its map in some order, or an error.
abbrev pub FallbackFile : Type 0 → Type 0
FallbackFile F = Option (List (Str × FallbackPriceEntry F))

-- What the request and the decoder give for the remote URL, whatever the status of the response.
abbrev pub RemoteAnswer : Type 0 → Type 0
RemoteAnswer F = Option (List (RemotePriceEntry F))

-- The input tokens that are billed as plain input, as cache reads and as cache creation.
pub record Buckets : Type 0 where
  pub plain : ℤ
  pub cached : ℤ
  pub created : ℤ

module _ {F : Type 0} (floats : Floats F) where
  abbrev pub cached_price_of : Option F → F
  cached_price_of none = floats.nought
  cached_price_of (some price) = price

  abbrev pub of_remote : RemotePriceEntry F → ModelPricing F
  of_remote entry = record {
    input_price_per_million = entry.input;
    output_price_per_million = entry.output;
    cached_price_per_million = cached_price_of entry.input_cached;
    cache_creation_price_per_million = floats.nought;
  }

  abbrev pub of_fallback : FallbackPriceEntry F → ModelPricing F
  of_fallback entry = record {
    input_price_per_million = entry.input_price;
    output_price_per_million = entry.output_price;
    cached_price_per_million = entry.cached_price;
    cache_creation_price_per_million = entry.cache_creation_price;
  }

  -- The loop of fetchRemote, over the map built so far.
  abbrev pub collect :
      List (RemotePriceEntry F) → List (Str × ModelPricing F) → List (Str × ModelPricing F)
  collect [] pricing = pricing
  collect (entry ∷ prices) pricing = collect prices ((entry.id, of_remote entry) ∷ pricing)

  -- none is an error, and leaves the service as it is.
  unfoldable pub fetch_remote : RemoteAnswer F → Service F → Option (Service F)
  fetch_remote none s = none
  fetch_remote (some prices) s = some (record s { pricing = collect prices [] })

  abbrev pub convert : List (Str × FallbackPriceEntry F) → List (Str × ModelPricing F)
  convert [] = []
  convert ((model, entry) ∷ entries) = (model, of_fallback entry) ∷ convert entries

  unfoldable pub load_fallback : FallbackFile F → Service F → Service F
  load_fallback none s = s
  load_fallback (some entries) s = record s { pricing = convert entries }

  -- `if _, exists := s.pricing[model]; !exists { s.pricing[model] = … }`
  abbrev pub add_missing :
      Option (ModelPricing F)
      → Str
      → FallbackPriceEntry F
      → List (Str × ModelPricing F)
      → List (Str × ModelPricing F)
  add_missing (some price) model entry pricing = pricing
  add_missing none model entry pricing = (model, of_fallback entry) ∷ pricing

  abbrev pub merge :
      List (Str × FallbackPriceEntry F) → List (Str × ModelPricing F) → List (Str × ModelPricing F)
  merge [] pricing = pricing
  merge ((model, entry) ∷ entries) pricing =
      merge entries (add_missing (lookup model pricing) model entry pricing)

  unfoldable pub merge_fallback : FallbackFile F → Service F → Service F
  merge_fallback none s = s
  merge_fallback (some entries) s = record s { pricing = merge entries s.pricing }

  -- `if err := s.fetchRemote(); err != nil { … } else { s.mergeFallback() }` of refreshLoop.
  abbrev pub merge_after : FallbackFile F → Service F → Option (Service F) → Service F
  merge_after file s none = s
  merge_after file s (some fetched) = merge_fallback file fetched

  unfoldable pub refresh : RemoteAnswer F → FallbackFile F → Service F → Service F
  refresh answer file s = merge_after file s (fetch_remote answer s)

  abbrev pub load_after : FallbackFile F → Service F → Option (Service F) → Service F
  load_after file s none = load_fallback file s
  load_after file s (some fetched) = merge_fallback file fetched

  -- `has_url` is `s.remoteURL != ""`.
  unfoldable pub load_pricing : Bool → RemoteAnswer F → FallbackFile F → Service F → Service F
  load_pricing has_url answer file s =
      if has_url then load_after file s (fetch_remote answer s) else load_fallback file s

  abbrev pub through_alias : Option Str → List (Str × ModelPricing F) → Option (ModelPricing F)
  through_alias none pricing = none
  through_alias (some model) pricing = lookup model pricing

  abbrev pub or_alias : Option (ModelPricing F) → Option (ModelPricing F) → Option (ModelPricing F)
  or_alias (some price) aliased = some price
  or_alias none aliased = aliased

  unfoldable pub find_pricing : Str → Service F → Option (ModelPricing F)
  find_pricing model s =
      or_alias (lookup model s.pricing) (through_alias (lookup model s.aliases) s.pricing)

  unfoldable pub buckets : UsageMetrics → ModelPricing F → Buckets
  buckets metrics price =
      let non_cache_input = metrics.input_tokens -ℤ metrics.cached_tokens in
      if floats.is_positive price.cache_creation_price_per_million
      then record {
        plain = non_cache_input -ℤ metrics.cache_creation_tokens;
        cached = metrics.cached_tokens;
        created = metrics.cache_creation_tokens;
      }
      else record { plain = non_cache_input; cached = metrics.cached_tokens; created = pos 0 }

  abbrev pub cost_of : ℤ → F → F
  cost_of tokens price = floats.over (floats.times (floats.float64 tokens) price) floats.million

  -- `cacheCreationCost`, which stays zero without a rate.
  abbrev pub creation_cost : Buckets → ModelPricing F → F
  creation_cost b price =
      if floats.is_positive price.cache_creation_price_per_million
      then cost_of b.created price.cache_creation_price_per_million
      else floats.nought

  abbrev pub cost_at : UsageMetrics → Option (ModelPricing F) → Cost F
  cost_at metrics none = record {
    input_cost = floats.nought;
    output_cost = floats.nought;
    total_cost = floats.nought;
    model_alias_found = false;
  }
  cost_at metrics (some price) =
      let b = buckets metrics price in
      let input =
        floats.plus
          (floats.plus (cost_of b.plain price.input_price_per_million)
            (cost_of b.cached price.cached_price_per_million))
          (creation_cost b price) in
      let output = cost_of metrics.output_tokens price.output_price_per_million in
      record {
        input_cost = input;
        output_cost = output;
        total_cost = floats.plus input output;
        model_alias_found = true;
      }

  unfoldable pub calculate : UsageMetrics → Service F → Cost F
  calculate metrics s = cost_at metrics (find_pricing metrics.model s)
