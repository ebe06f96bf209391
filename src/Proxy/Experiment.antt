-- ===== src/Proxy/Experiment.antt =====
-- internal/proxy/experimentrouter.go: which arm of which experiment a request is assigned to.
-- rand.Intn is a parameter; models.LocalExperiment and LocalExperimentArm keep the fields that the
-- router reads.
pub mod Override
pub mod Weights
pub mod Routing
use majordomo_steward.Prelude.{
  ℕ, ◌+◌, ◌-◌, ◌*◌, ◌%◌, ◌^◌, Str, lit, Bool, false, true, not, ◌&&◌, ◌||◌, Option, none, some,
  List, [], ◌∷◌, bit_xor, ltb, ◌==◌, str_eq, lookup_text, update, if◌then◌else◌, Result, ok, panic,
  ◌>>=◌,
}
use majordomo_steward.Prelude.Int.{ℤ, pos, ◌+ℤ◌, ◌-ℤ◌, ltb_ℤ, to_bits}

pub record Arm : Type 0 where
  pub id : ℕ
  pub model : Str
  pub weight : ℤ

pub record Experiment : Type 0 where
  pub id : ℕ
  pub status : Str
  pub api_key_id : Option ℕ
  pub metadata_filters : List (Str × Str)
  pub sticky_key : Option Str
  pub starts_at : ℕ
  pub ends_at : ℕ
  pub arms : List Arm

pub record Assignment : Type 0 where
  pub experiment_id : ℕ
  pub arm_id : ℕ
  pub assigned_model : Str
  pub original_model : Str

abbrev pub u32_mod : ℕ
u32_mod = 2 ^ 32

-- hash/fnv's New32a: the state starts at the offset basis, and each byte is mixed in.
unfoldable pub fnv32a : ℕ → Str → ℕ
fnv32a h [] = h
fnv32a h (c ∷ s) = fnv32a (bit_xor h c * 16777619 % u32_mod) s

abbrev pub offset_basis : ℕ
offset_basis = 2166136261

unfoldable pub total_weight : ℤ → List Arm → ℤ
total_weight total [] = total
total_weight total (a ∷ arms) = total_weight (total +ℤ a.weight) arms

-- The metadata value of the sticky key, "" where there is none.
abbrev pub sticky_value : Option Str → List (Str × Str) → Str
sticky_value none metadata = []
sticky_value (some key) metadata = lookup_text key metadata

-- `int(h.Sum32() % uint32(total))`, which panics on a zero divisor.
unfoldable pub sticky_number : Str → ℤ → Result (Unit {0}) ℤ
sticky_number value total =
    let divisor = to_bits total % u32_mod in
    if divisor == 0 then panic else ok (pos (fnv32a offset_basis value % divisor))

-- The loop over the arms: each takes its weight off `n`, and the first to make it negative is
-- chosen. The last arm is the fallback.
unfoldable pub walk_arms : ℤ → Arm → List Arm → Arm
walk_arms n last [] = last
walk_arms n last (a ∷ arms) =
    let rest = walk_arms (n -ℤ a.weight) a arms in if ltb_ℤ (n -ℤ a.weight) (pos 0) then a else rest

module _ (rand_intn : ℤ → ℤ) where
  unfoldable pub draw : Str → ℤ → Result (Unit {0}) ℤ
  draw [] total = ok (rand_intn total)
  draw (c ∷ value) total = sticky_number (c ∷ value) total

  unfoldable pub select_arm :
      List Arm → Option Str → List (Str × Str) → Result (Unit {0}) (Option Arm)
  select_arm [] sticky_key metadata = ok none
  select_arm (a ∷ arms) sticky_key metadata =
      let total = total_weight (pos 0) (a ∷ arms) in
      if ltb_ℤ (pos 0) total
      then (draw (sticky_value sticky_key metadata) total >>= λ n.
          ok (some (walk_arms n a (a ∷ arms))))
      else ok none

-- The loop over the filters, in the map's order.
unfoldable pub matches_filters : List (Str × Str) → List (Str × Str) → Bool
matches_filters [] metadata = true
matches_filters ((k, v) ∷ filters) metadata =
    if not (str_eq (lookup_text k metadata) v) then false else matches_filters filters metadata

-- `exp.APIKeyID != nil && (apiKeyID == nil || *exp.APIKeyID != *apiKeyID)`
abbrev pub other_key : Option ℕ → Option ℕ → Bool
other_key none api_key_id = false
other_key (some k) none = true
other_key (some k) (some j) = not (k == j)

-- The conditions on which the loop of Route goes on to the next experiment, without the arms.
unfoldable pub is_skipped : Experiment → Option ℕ → List (Str × Str) → Bool
is_skipped exp api_key_id metadata =
    not (str_eq exp.status (lit "active"))
    || other_key exp.api_key_id api_key_id
    || not (matches_filters exp.metadata_filters metadata)

abbrev pub assign : Experiment → Str → Arm → Assignment
assign exp requested arm = record {
  experiment_id = exp.id;
  arm_id = arm.id;
  assigned_model = arm.model;
  original_model = requested;
}

-- What follows from selectArm's answer: the assignment, or the result for the later experiments.
abbrev pub assign_or :
    Experiment
    → Str
    → Result (Unit {0}) (Option Assignment)
    → Option Arm
    → Result (Unit {0}) (Option Assignment)
assign_or exp requested rest none = rest
assign_or exp requested rest (some arm) = ok (some (assign exp requested arm))

module _ (rand_intn : ℤ → ℤ) (api_key_id : Option ℕ) (metadata : List (Str × Str))
    (requested : Str) where
  -- The loop of Route over the experiments. Without arms selectArm gives no arm, so the test of
  -- their number is that of `select_arm`.
  unfoldable pub route_experiments : List Experiment → Result (Unit {0}) (Option Assignment)
  route_experiments [] = ok none
  route_experiments (exp ∷ exps) =
      let rest = route_experiments exps in
      if is_skipped exp api_key_id metadata
      then rest
      else (select_arm rand_intn exp.arms exp.sticky_key metadata >>= assign_or exp requested rest)

pub record CachedExperiments : Type 0 where
  pub experiments : List Experiment
  pub fetched_at : ℕ

-- The cache by organisation.
abbrev pub Cache : Type 0
Cache = ℕ → Option CachedExperiments

-- What the cache holds, where the store is not asked or fails.
abbrev pub experiments_of : Option CachedExperiments → List Experiment
experiments_of none = []
experiments_of (some entry) = entry.experiments

abbrev pub is_fresh : ℕ → ℕ → Option CachedExperiments → Bool
is_fresh cache_ttl now none = false
is_fresh cache_ttl now (some entry) = ltb (now - entry.fetched_at) cache_ttl

-- `answer` is what the store would answer now, `none` for an error; `done` is the time after it has.
unfoldable pub get_experiments :
    ℕ → Cache → ℕ → ℕ → Option (List Experiment) → ℕ → List Experiment × Cache
get_experiments cache_ttl cache org_id now answer done =
    if is_fresh cache_ttl now (cache org_id)
    then (experiments_of (cache org_id), cache)
    else elim answer [
      | none ↦ (experiments_of (cache org_id), cache)
      | some exps ↦
          (exps, update cache org_id (some (record { experiments = exps; fetched_at = done })))
    ]
