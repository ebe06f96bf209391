-- ===== src/StewardClient/Managed/Restart.antt =====
-- What a restart of the steward finds of the organisations that the poller claimed.
use majordomo_steward.Prelude.{
  ℕ, ◌==◌, Bool, true, Option, none, some, List, [], ◌∷◌, Str, All, ◌≡◌, refl, subst, ==_iff, arith,
  Bool-cases, inl, inr,
}
use majordomo_steward.Steward.Workers.{
  OrgConfig, WorkerManager, RegisteredOrg, start_org, load_org, load_orgs, load_from_db,
  new_worker_manager,
}
use majordomo_steward.StewardClient.Managed.{
  PendingAssignment, Orgs, upsert_org, answered, fetch_pending, registered_org, register_encrypted,
  handle_assignment, handle_all, poll,
}
use majordomo_steward.StewardClient.Managed.Claims.{
  is_active, is_registered, IsServed, is_active-start_new, is_active-started, claimable,
  poll-Claims,
}

module _ (decrypt : Str → Option Str) where
  abbrev pub IsDecryptable : RegisteredOrg → Type 0
  IsDecryptable r = (token : Str) × (decrypt r.token_encrypted ≡ some token)

  is_active-load_org :
      (r : RegisteredOrg) (m : WorkerManager) (o : Option Str) (id : ℕ)
      → is_active id m ≡ true
      → is_active id (load_org decrypt r m o) ≡ true
  unfolding start_org
  is_active-load_org r m none id h = h
  is_active-load_org r m (some t) id h = is_active-start_new _ m _ id h

  is_active-load_orgs :
      (rows : List RegisteredOrg) (m : WorkerManager) (id : ℕ)
      → is_active id m ≡ true
      → is_active id (load_orgs decrypt rows m) ≡ true
  is_active-load_orgs [] m id h = h
  is_active-load_orgs (r ∷ rows) m id h =
      is_active-load_orgs rows _ id (is_active-load_org r m (decrypt r.token_encrypted) id h)

  load_org-Starts :
      (r : RegisteredOrg) (m : WorkerManager)
      → IsDecryptable r
      → is_active r.org_id (load_org decrypt r m (decrypt r.token_encrypted)) ≡ true
  unfolding start_org
  load_org-Starts r m (token, e) =
      let c : OrgConfig = record {
        org_id = r.org_id;
        butler_base_url = r.butler_url;
        steward_token = token;
      } in
      rw e (is_active-started c m _ refl)

  load_orgs-Starts :
      (rows : List RegisteredOrg) (m : WorkerManager) (id : ℕ)
      → All IsDecryptable rows
      → is_registered id rows ≡ true
      → is_active id (load_orgs decrypt rows m) ≡ true
  load_orgs-Starts [] m id h registered = ground arith
  load_orgs-Starts (r ∷ rows) m id h registered =
      let m1 = load_org decrypt r m (decrypt r.token_encrypted) in
      let first = load_org-Starts r m h.0 in
      elim (Bool-cases (r.org_id == id)) [
        | inl same ↦
            is_active-load_orgs rows m1 id
              (subst (λ j. is_active j m1 ≡ true) ((==_iff r.org_id id).0 same) first)
        | inr other ↦ load_orgs-Starts rows m1 id h.1 (ground arith)
      ]

  upsert_org-Decryptable :
      (row : RegisteredOrg) (rows : List RegisteredOrg)
      → IsDecryptable row
      → All IsDecryptable rows
      → All IsDecryptable (upsert_org row rows)
  upsert_org-Decryptable row [] h hs = (h, hs)
  upsert_org-Decryptable row (r ∷ rows) h hs = elim (Bool-cases (r.org_id == row.org_id)) [
    | inl same ↦ rw same (h, hs.1)
    | inr other ↦ rw other (hs.0, upsert_org-Decryptable row rows h hs.1)
  ]

  module _ (butler_url : Str) (encrypt : Str → Option Str) (register_ok : ℕ → Bool)
      (round_trip : (token e : Str) → encrypt token ≡ some e → decrypt e ≡ some token) where
    encrypted-Decryptable :
        (a : PendingAssignment) (s : Orgs) (o : Option Str)
        → encrypt a.token ≡ o
        → All IsDecryptable s.registered
        → All IsDecryptable (register_encrypted butler_url encrypt register_ok a s o).0.registered
    unfolding start_org
    encrypted-Decryptable a s none e h = h
    encrypted-Decryptable a s (some c) e h = elim (Bool-cases (register_ok a.id)) [
      | inl taken ↦ rw taken (
          upsert_org-Decryptable (registered_org butler_url encrypt register_ok a c) s.registered
            (a.token, round_trip a.token c e) h)
      | inr refused ↦ rw refused h
    ]

    handle_all-Decryptable :
        (assignments : List PendingAssignment) (s : Orgs)
        → All IsDecryptable s.registered
        → All IsDecryptable (handle_all butler_url encrypt register_ok assignments s).registered
    unfolding handle_assignment
    handle_all-Decryptable [] s h = h
    handle_all-Decryptable (a ∷ assignments) s h =
        handle_all-Decryptable assignments _ (encrypted-Decryptable a s (encrypt a.token) refl h)

    -- Every member of the list has workers in the manager.
    abbrev pub AllActive : WorkerManager → List PendingAssignment → Type 0
    AllActive m xs = All (λ a. is_active a.org_id m ≡ true) xs

    served-Active :
        (s : Orgs) (xs : List PendingAssignment)
        → All IsDecryptable s.registered
        → All (IsServed s) xs
        → AllActive (load_orgs decrypt s.registered new_worker_manager) xs
    served-Active s [] h served = served
    served-Active s (a ∷ xs) h served = (
      load_orgs-Starts s.registered new_worker_manager a.org_id h served.0.1,
      served-Active s xs h served.1,
    )

    -- If what is encrypted can be decrypted, and every stored token could be decrypted before a poll that
    -- Butler answers with 200 and a list that is decoded, then every stored token can be decrypted after it,
    -- and a new worker manager that loads the stored rows has workers for the organisation of every
    -- assignment that the poll claimed.
    pub poll-Restarts :
        (assignments : List PendingAssignment) (s : Orgs)
        → All IsDecryptable s.registered
        → let s' = poll butler_url encrypt register_ok (answered 200 (some assignments)) s in
          All IsDecryptable s'.registered
          × AllActive
              (load_from_db decrypt (some s'.registered) new_worker_manager).0
              (claimable butler_url encrypt register_ok assignments)
    unfolding poll fetch_pending load_from_db
    poll-Restarts assignments s h =
        let s' = handle_all butler_url encrypt register_ok assignments s in
        let kept = handle_all-Decryptable assignments s h in
        (kept, served-Active s' _ kept (poll-Claims butler_url encrypt register_ok assignments s).1)
