-- ===== src/Proxy/Experiment/Routing.antt =====
-- Route of internal/proxy/experimentrouter.go uses the first experiment that applies.
use majordomo_steward.Prelude.{
  ℕ, Str, lit, true, false, Option, none, some, List, [], ◌∷◌, ◌++◌, ◌≡◌, refl, ap, ◌⊎◌, inl, inr,
  arith, str_eq_iff, lookup_text, Bool-cases, All, Result, ok, err, panic, out_of_fuel, ◌>>=◌,
}
use majordomo_steward.Prelude.Int.{ℤ}
use majordomo_steward.Proxy.Experiment.{
  Arm, Experiment, Assignment, matches_filters, other_key, is_skipped, select_arm, assign,
  assign_or, route_experiments,
}

-- What the comment on Route asks of an experiment, of its key, its filters and its status.
pub record Applies (exp : Experiment) (api_key_id : Option ℕ) (metadata : List (Str × Str))
    : Type 0 where
  pub active : exp.status ≡ lit "active"
  pub key : (exp.api_key_id ≡ none) ⊎ ((k : ℕ) × (exp.api_key_id ≡ some k) × (api_key_id ≡ some k))
  pub filters : All (λ f. lookup_text f.0 metadata ≡ f.1) exp.metadata_filters

matches_filters_sound :
    (filters metadata : List (Str × Str))
    → matches_filters filters metadata ≡ true
    → All (λ f. lookup_text f.0 metadata ≡ f.1) filters
unfolding matches_filters
matches_filters_sound [] metadata h = tt
matches_filters_sound ((k, v) ∷ filters) metadata h =
    ground (arith, str_eq_iff (lookup_text k metadata) v, matches_filters_sound filters metadata)

matches_filters_complete :
    (filters metadata : List (Str × Str))
    → All (λ f. lookup_text f.0 metadata ≡ f.1) filters
    → matches_filters filters metadata ≡ true
unfolding matches_filters
matches_filters_complete [] metadata h = refl
matches_filters_complete ((k, v) ∷ filters) metadata h =
    ground
      (arith, str_eq_iff (lookup_text k metadata) v, matches_filters_complete filters metadata h.1)

other_key_sound :
    (x y : Option ℕ) → other_key x y ≡ false → (x ≡ none) ⊎ ((k : ℕ) × (x ≡ some k) × (y ≡ some k))
other_key_sound none y h = inl refl
other_key_sound (some k) none h = cc
other_key_sound (some k) (some j) h = inr (k, refl, ground arith)

other_key_complete :
    (x y : Option ℕ) → (x ≡ none) ⊎ ((k : ℕ) × (x ≡ some k) × (y ≡ some k)) → other_key x y ≡ false
other_key_complete x y (inl e) = rw e refl
other_key_complete x y (inr (k, e, f)) = rw (e, f) (ground arith)

module _ (exp : Experiment) (api_key_id : Option ℕ) (metadata : List (Str × Str)) where
  kept-Applies : is_skipped exp api_key_id metadata ≡ false → Applies exp api_key_id metadata
  unfolding is_skipped
  kept-Applies h = record {
    active = (str_eq_iff exp.status (lit "active")).0 (ground arith);
    key = other_key_sound exp.api_key_id api_key_id (ground arith);
    filters = matches_filters_sound exp.metadata_filters metadata (ground arith);
  }

  Applies-kept : Applies exp api_key_id metadata → is_skipped exp api_key_id metadata ≡ false
  unfolding is_skipped
  Applies-kept a = rw (
    (str_eq_iff exp.status (lit "active")).1 a.active,
    other_key_complete exp.api_key_id api_key_id a.key,
    matches_filters_complete exp.metadata_filters metadata a.filters,
  )

module _ (rand_intn : ℤ → ℤ) (api_key_id : Option ℕ) (metadata : List (Str × Str))
    (requested : Str) where
  -- An experiment that is passed over: it does not apply, or its arms weigh nothing.
  abbrev pub Passed : Experiment → Type 0
  Passed exp =
      (¬ Applies exp api_key_id metadata)
      ⊎ (select_arm rand_intn exp.arms exp.sticky_key metadata ≡ ok none)

  pub record FirstMatch (exps : List Experiment) (assignment : Assignment) : Type 0 where
    pub front : List Experiment
    pub exp : Experiment
    pub back : List Experiment
    pub arm : Arm
    pub place : exps ≡ front ++ exp ∷ back
    pub passed : All Passed front
    pub applies : Applies exp api_key_id metadata
    pub selected : select_arm rand_intn exp.arms exp.sticky_key metadata ≡ ok (some arm)
    pub result : assignment ≡ assign exp requested arm

  later :
      (e : Experiment) (exps : List Experiment) (a : Assignment)
      → Passed e
      → FirstMatch exps a
      → FirstMatch (e ∷ exps) a
  later e exps a p m = record {
    front = e ∷ m.front;
    exp = m.exp;
    back = m.back;
    arm = m.arm;
    place = ap (λ (l : List Experiment). e ∷ l) m.place;
    passed = (p, m.passed);
    applies = m.applies;
    selected = m.selected;
    result = m.result;
  }

  -- Whatever the experiments: an assignment that the loop returns is that of the first experiment
  -- that is active, has the request's API key or none, whose filters are all met by the metadata, and
  -- whose arms give an arm; the experiments before it do not apply or give no arm.
  pub route-FirstMatch :
      (exps : List Experiment) (a : Assignment)
      → route_experiments rand_intn api_key_id metadata requested exps ≡ ok (some a)
      → FirstMatch exps a
  unfolding route_experiments
  route-FirstMatch [] a h = cc
  route-FirstMatch (e ∷ exps) a h = elim (Bool-cases (is_skipped e api_key_id metadata)) [
    | inl skip ↦
        later e exps a (inl (λ ap. cc (Applies-kept e api_key_id metadata ap, skip)))
          (route-FirstMatch exps a (rw skip at h))
    | inr kept ↦
        chosen (λ later_one. route-FirstMatch exps a later_one)
          (select_arm rand_intn e.arms e.sticky_key metadata) refl
          (kept-Applies e api_key_id metadata kept) (rw kept at h)
  ]
    where
      chosen :
          (route_experiments rand_intn api_key_id metadata requested exps ≡ ok (some a)
            → FirstMatch exps a)
          → (r : Result (Unit {0}) (Option Arm))
          → select_arm rand_intn e.arms e.sticky_key metadata ≡ r
          → Applies e api_key_id metadata
          → (r
              >>= assign_or e requested
                  (route_experiments rand_intn api_key_id metadata requested exps))
            ≡ ok (some a)
          → FirstMatch (e ∷ exps) a
      chosen rest (ok none) s applies r = later e exps a (inr s) (rest r)
      chosen rest (ok (some arm)) s applies r = record {
        front = [];
        exp = e;
        back = exps;
        arm = arm;
        place = refl;
        passed = tt;
        applies = applies;
        selected = s;
        result = cc;
      }
      chosen rest (err x) s applies r = absurd (cc)
      chosen rest panic s applies r = absurd (cc)
      chosen rest out_of_fuel s applies r = absurd (cc)
