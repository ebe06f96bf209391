-- ===== src/StewardClient/Managed/Claims.antt =====
-- What the poller has done for the assignments that it claims.
use mathlib.Core.List.{append_assoc, append-nil}
use majordomo_steward.Prelude.{
  ℕ, ◌==◌, Bool, true, false, Option, none, some, List, [], ◌∷◌, ◌++◌, Str, if◌then◌else◌, All,
  All-append, ◌≡◌, refl, sym, ap, ◌∙◌, arith, Bool-cases, inl, inr,
}
use majordomo_steward.Steward.Workers.{
  OrgConfig, WorkerManager, RegisteredOrg, find_org, start_new, start_org,
}
use majordomo_steward.StewardClient.Managed.{
  PendingAssignment, Orgs, upsert_org, answered, fetch_pending, registered_org, start_registered,
  register_encrypted, handle_assignment, handle_all, poll,
}

abbrev is_found : Option OrgConfig → Bool
is_found none = false
is_found (some c) = true

-- The manager has workers of the organisation.
abbrev pub is_active : ℕ → WorkerManager → Bool
is_active id m = is_found (find_org id m.active)

-- The table has a row of the organisation.
abbrev pub is_registered : ℕ → List RegisteredOrg → Bool
is_registered id [] = false
is_registered id (r ∷ rows) =
    let rest = is_registered id rows in if r.org_id == id then true else rest

abbrev pub IsServed : Orgs → PendingAssignment → Type 0
IsServed s a = (is_active a.org_id s.workers ≡ true) × (is_registered a.org_id s.registered ≡ true)

pub is_active-start_new :
    (c : OrgConfig) (m : WorkerManager) (o : Option OrgConfig) (id : ℕ)
    → is_active id m ≡ true
    → is_active id (start_new c m o) ≡ true
is_active-start_new c m (some d) id h = h
is_active-start_new c m none id h = ground arith

pub is_active-started :
    (c : OrgConfig) (m : WorkerManager) (o : Option OrgConfig)
    → find_org c.org_id m.active ≡ o
    → is_active c.org_id (start_new c m o) ≡ true
is_active-started c m (some d) found = ap is_found found
is_active-started c m none found = ground arith

is_registered-upsert_org :
    (row : RegisteredOrg) (rows : List RegisteredOrg) (id : ℕ)
    → is_registered id (upsert_org row rows)
      ≡ (if row.org_id == id then true else is_registered id rows)
is_registered-upsert_org row [] id = refl
is_registered-upsert_org row (r ∷ rows) id = ground (arith, is_registered-upsert_org row rows id)

module _ (butler_url : Str) (encrypt : Str → Option Str) (register_ok : ℕ → Bool) where
  abbrev claims_of : PendingAssignment → Option Str → List PendingAssignment
  claims_of a none = []
  claims_of a (some encrypted) = if register_ok a.id then a ∷ [] else []

  -- The assignments whose token is encrypted and whose row the database takes.
  abbrev pub claimable : List PendingAssignment → List PendingAssignment
  claimable [] = []
  claimable (a ∷ assignments) = claims_of a (encrypt a.token) ++ claimable assignments

  -- What some assignments change: the claims that are added are those listed, each of them is served,
  -- and no organisation that was served before is lost.
  abbrev Changes : List PendingAssignment → Orgs → Orgs → Type 0
  Changes added s s' =
      (s'.claims ≡ s.claims ++ added)
      × All (IsServed s') added
      × ((b : PendingAssignment) → IsServed s b → IsServed s' b)

  registered-Changes :
      (a : PendingAssignment) (s : Orgs) (encrypted : Str)
      → Changes
          (a ∷ [])
          s
          (start_registered butler_url encrypt register_ok a (record s {
            registered =
                upsert_org (registered_org butler_url encrypt register_ok a encrypted) s.registered;
          })).0
  unfolding start_org
  registered-Changes a s encrypted =
      let row = registered_org butler_url encrypt register_ok a encrypted in
      let c : OrgConfig = record {
        org_id = a.org_id;
        butler_base_url = butler_url;
        steward_token = a.token;
      } in
      let known : is_registered a.org_id (upsert_org row s.registered) ≡ true =
        ground (arith, is_registered-upsert_org row s.registered a.org_id) in
      (
        refl,
        ((is_active-started c s.workers _ refl, known), _),
        λ b (active, registered). (
          is_active-start_new c s.workers _ b.org_id active,
          ground (arith, is_registered-upsert_org row s.registered b.org_id),
        ),
      )

  encrypted-Changes :
      (a : PendingAssignment) (s : Orgs) (o : Option Str)
      → Changes (claims_of a o) s (register_encrypted butler_url encrypt register_ok a s o).0
  encrypted-Changes a s none = (sym (append-nil s.claims), _, λ b h. h)
  encrypted-Changes a s (some encrypted) = elim (Bool-cases (register_ok a.id)) [
    | inl taken ↦ rw taken (registered-Changes a s encrypted)
    | inr refused ↦ rw refused (sym (append-nil s.claims), _, λ b h. h)
  ]

  All-IsServed :
      (s s' : Orgs) (xs : List PendingAssignment)
      → ((b : PendingAssignment) → IsServed s b → IsServed s' b)
      → All (IsServed s) xs
      → All (IsServed s') xs
  All-IsServed s s' [] keeps h = h
  All-IsServed s s' (x ∷ xs) keeps h = (keeps x h.0, All-IsServed s s' xs keeps h.1)

  handle_all-Changes :
      (assignments : List PendingAssignment) (s : Orgs)
      → Changes (claimable assignments) s (handle_all butler_url encrypt register_ok assignments s)
  unfolding handle_assignment
  handle_all-Changes [] s = (sym (append-nil s.claims), _, λ b h. h)
  handle_all-Changes (a ∷ assignments) s =
      let s1 = (handle_assignment butler_url encrypt register_ok a s).0 in
      let s2 = handle_all butler_url encrypt register_ok assignments s1 in
      let (claims1, served1, keeps1) = encrypted-Changes a s (encrypt a.token) in
      let (claims2, served2, keeps2) = handle_all-Changes assignments s1 in
      (
        claims2
            ∙ ap (λ l. l ++ claimable assignments) claims1
            ∙ append_assoc s.claims _ (claimable assignments),
        All-append (IsServed s2) _ _ (All-IsServed s1 s2 _ keeps2 served1) served2,
        λ b h. keeps2 b (keeps1 b h),
      )

  -- When Butler answers a poll with 200 and a list that is decoded, the poller claims, in their order,
  -- exactly the assignments whose token is encrypted and whose row the database takes, whatever fails for
  -- the others; and after the poll workers run for the organisation of each of them and its row is stored.
  pub poll-Claims :
      (assignments : List PendingAssignment) (s : Orgs)
      → let s' = poll butler_url encrypt register_ok (answered 200 (some assignments)) s in
        (s'.claims ≡ s.claims ++ claimable assignments) × All (IsServed s') (claimable assignments)
  unfolding poll fetch_pending
  poll-Claims assignments s =
      let (claims, served, _) = handle_all-Changes assignments s in (claims, served)
