-- ===== src/Proxy/Tests.antt =====
-- Runs of the models of internal/proxy, and the theorems at them.
use majordomo_steward.Proxy.Headers.{Header}
use majordomo_steward.Prelude.{
  Str, lit, none, some, List, [], ◌∷◌, ◌++◌, ◌≡◌, refl, ◌↔◌, ok, panic, arith,
}
use majordomo_steward.Prelude.Int.{ℤ, pos, ◌+ℤ◌, ◌-ℤ◌}
use majordomo_steward.Proxy.Region.{
  resolve_bedrock_region, parse_bedrock_region_from_host, strip_port, region_of_host, validated,
  is_valid_aws_region,
}
use majordomo_steward.Proxy.Region.Laws.{
  IsRegion, endpoint, after_host, resolve-IsRegion, resolve-endpoint,
}
use majordomo_steward.Proxy.Region.Panic.{overlap, parse-panic_iff}
use majordomo_steward.Proxy.Experiment.{
  Arm, Experiment, Assignment, select_arm, route_experiments, is_skipped, matches_filters,
  total_weight, draw, walk_arms,
}
use majordomo_steward.Proxy.Experiment.Weights.{IsIntn, select_arm-interval}
use majordomo_steward.Proxy.Experiment.Routing.{FirstMatch, route-FirstMatch}

abbrev east : Str
east = lit "us-east-1"

abbrev east_host : Str
east_host = lit "bedrock-runtime.us-east-1.amazonaws.com:443"

resolve-east : resolve_bedrock_region [] east_host ≡ ok (some east)
unfolding resolve_bedrock_region parse_bedrock_region_from_host region_of_host strip_port validated
    is_valid_aws_region
resolve-east = refl

resolve-IsRegion_example : IsRegion east
resolve-IsRegion_example = resolve-IsRegion [] east_host east resolve-east

resolve-endpoint_example :
    resolve_bedrock_region [] (endpoint east ++ after_host (some (lit "443"))) ≡ ok (some east)
resolve-endpoint_example =
    resolve-endpoint east (some (lit "443")) (resolve-IsRegion [] east_host east resolve-east)

parse-panic_iff_example :
    (parse_bedrock_region_from_host overlap ≡ panic) ↔ (strip_port overlap ≡ overlap)
parse-panic_iff_example = parse-panic_iff overlap

abbrev control : Arm
control = record { id = 1; model = lit "gpt-4o"; weight = pos 70 }

abbrev variant : Arm
variant = record { id = 2; model = lit "gpt-4o-mini"; weight = pos 30 }

-- A source of random numbers that always gives 0.
abbrev always_zero : ℤ → ℤ
always_zero bound = pos 0

always_zero-IsIntn : IsIntn always_zero
always_zero-IsIntn = record { from_zero = λ n h. refl; below = λ n h. h }

select_arm-interval_example :
    select_arm always_zero (control ∷ variant ∷ []) none [] ≡ ok (some control)
select_arm-interval_example =
    select_arm-interval always_zero always_zero-IsIntn [] control (variant ∷ []) none []
      (refl, (refl, tt)) (omega arith) (omega arith) (omega arith)

abbrev trial : Experiment
trial = record {
  id = 9;
  status = lit "active";
  api_key_id = some 4;
  metadata_filters = (lit "env", lit "prod") ∷ [];
  sticky_key = none;
  starts_at = 0;
  ends_at = 100;
  arms = control ∷ variant ∷ [];
}

abbrev paused : Experiment
paused = record trial { id = 8; status = lit "paused" }

abbrev trial_metadata : List (Str × Str)
trial_metadata = (lit "env", lit "prod") ∷ []

abbrev trial_assignment : Assignment
trial_assignment = record {
  experiment_id = 9;
  arm_id = 1;
  assigned_model = lit "gpt-4o";
  original_model = lit "gpt-4";
}

route-trial :
    route_experiments always_zero (some 4) trial_metadata (lit "gpt-4") (paused ∷ trial ∷ [])
    ≡ ok (some trial_assignment)
unfolding route_experiments select_arm is_skipped matches_filters total_weight ◌+ℤ◌ draw walk_arms
    ◌-ℤ◌
route-trial = refl

route-FirstMatch_example :
    FirstMatch always_zero
      (some 4)
      trial_metadata
      (lit "gpt-4")
      (paused ∷ trial ∷ [])
      trial_assignment
route-FirstMatch_example =
    route-FirstMatch always_zero (some 4) trial_metadata (lit "gpt-4") (paused ∷ trial ∷ [])
      trial_assignment route-trial

abbrev some_headers : Header
some_headers =
    (lit "X-Majordomo-Key", lit "secret" ∷ [])
    ∷ (lit "Accept", lit "a" ∷ lit "b" ∷ [])
    ∷ (lit "Te", lit "t" ∷ [])
    ∷ []
