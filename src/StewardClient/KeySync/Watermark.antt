-- ===== src/StewardClient/KeySync/Watermark.antt =====
-- The cursor of the key syncer is the latest time of what it has fetched, and the loop ends.
use majordomo_steward.Prelude.{
  ℕ, zero, suc, ◌+◌, ◌<◌, ◌≤◌, Bool, true, false, Option, none, some, List, [], ◌∷◌, ◌++◌, ◌≡◌,
  refl, ltb, length, Result, ok, err, panic, out_of_fuel, Returns, All, All-append, arith,
  Bool-cases, inl, inr, ◌⊎◌, ◌==◌, ==_iff,
}
use majordomo_steward.StewardClient.KeySync.{
  limit, later, advance, on_page, fetch, ApiKeyRecord, State, after_upsert, upsert_api_keys,
  apply_keys, key_time, sync, SyncError,
}

later-le : (c t : ℕ) → (c ≤ later c t) × (t ≤ later c t)
later-le c t = elim (Bool-cases (ltb c t)) [ inl after ↦ ground arith | inr before ↦ ground arith ]

module _ {K : Type 0} (updated_at : K → ℕ) where
  abbrev pub IsCovered : ℕ → List K → Type 0
  IsCovered cursor = All (λ k. updated_at k ≤ cursor)

  advance-le : (cursor : ℕ) (page : List K) → cursor ≤ advance updated_at cursor page
  advance-le cursor [] = omega arith
  advance-le cursor (k ∷ page) =
      omega (arith, later-le cursor (updated_at k), advance-le (later cursor (updated_at k)) page)

  advance-IsCovered : (cursor : ℕ) (page : List K) → IsCovered (advance updated_at cursor page) page
  advance-IsCovered cursor [] = tt
  advance-IsCovered cursor (k ∷ page) = (
    omega (arith, later-le cursor (updated_at k), advance-le (later cursor (updated_at k)) page),
    advance-IsCovered (later cursor (updated_at k)) page,
  )

  IsCovered-later : (c d : ℕ) (keys : List K) → c ≤ d → IsCovered c keys → IsCovered d keys
  IsCovered-later c d [] h v = tt
  IsCovered-later c d (k ∷ keys) h v = (omega (arith, h, v.0), IsCovered-later c d keys h v.1)

  IsCovered-append :
      (cursor : ℕ) (all page : List K)
      → IsCovered cursor all
      → IsCovered (advance updated_at cursor page) (all ++ page)
  IsCovered-append cursor all page v =
      All-append _ all page (IsCovered-later cursor _ all (advance-le cursor page) v)
        (advance-IsCovered cursor page)

  -- A fetch that ends with records: the cursor has not gone back, and is past none of them.
  abbrev pub IsFetched : ℕ → Result SyncError (List K × ℕ) → Type 0
  IsFetched start (ok (keys, c)) = (start ≤ c) × IsCovered c keys
  IsFetched start (err e) = Unit
  IsFetched start panic = Unit
  IsFetched start out_of_fuel = Unit

  on_page-IsFetched :
      (start : ℕ) (answer : Option (List K)) (cursor : ℕ) (all : List K)
      (more : List K → Result SyncError (List K × ℕ))
      → start ≤ cursor
      → IsCovered cursor all
      → ((page : List K) → IsFetched start (more page))
      → IsFetched start (on_page updated_at answer cursor all more)
  on_page-IsFetched start none cursor all more s v rest = tt
  on_page-IsFetched start (some page) cursor all more s v rest =
      elim (Bool-cases (ltb (length page) limit)) [
        | inl short ↦
            rw short (omega (arith, s, advance-le cursor page), IsCovered-append cursor all page v)
        | inr full ↦ rw full (rest page)
      ]

  pub fetch-IsFetched :
      (start fuel : ℕ) (butler : ℕ → ℕ → Option (List K)) (n cursor : ℕ) (all : List K)
      → start ≤ cursor
      → IsCovered cursor all
      → IsFetched start (fetch updated_at fuel butler n cursor all)
  unfolding fetch
  fetch-IsFetched start zero butler n cursor all s v = tt
  fetch-IsFetched start (suc fuel) butler n cursor all s v =
      on_page-IsFetched start (butler n cursor) cursor all _ s v (λ page.
        fetch-IsFetched start fuel butler (n + 1) (advance updated_at cursor page) (all ++ page)
          (omega (arith, s, advance-le cursor page)) (IsCovered-append cursor all page v))

  on_page-Returns :
      (answer : Option (List K)) (cursor : ℕ) (all : List K)
      (more : List K → Result SyncError (List K × ℕ))
      → ((page : List K) → answer ≡ some page → (length page < limit) ⊎ Returns (more page))
      → Returns (on_page updated_at answer cursor all more)
  on_page-Returns none cursor all more h = tt
  on_page-Returns (some page) cursor all more h = elim (Bool-cases (ltb (length page) limit)) [
    | inl short ↦ rw short tt
    | inr full ↦
        rw full
          (elim (h page refl) [ inl small ↦ absurd (ground (arith, small, full)) | inr r ↦ r ])
  ]

  fetch-Returns :
      (fuel : ℕ) (butler : ℕ → ℕ → Option (List K)) (n last cursor : ℕ) (all : List K)
      → ((c : ℕ) (page : List K) → butler last c ≡ some page → length page < limit)
      → n ≤ last
      → last < n + fuel
      → Returns (fetch updated_at fuel butler n cursor all)
  unfolding fetch
  fetch-Returns zero butler n last cursor all short le lt = absurd (omega (arith, le, lt))
  fetch-Returns (suc fuel) butler n last cursor all short le lt =
      on_page-Returns (butler n cursor) cursor all _ (λ page e. elim (Bool-cases (n == last)) [
        | inl at ↦ inl (short cursor page (rw⁻¹ ((==_iff n last).0 at) e))
        | inr before ↦ inr (
            fetch-Returns fuel butler (n + 1) last (advance updated_at cursor page) (all ++ page)
              short (ground arith) (omega (arith, lt)))
      ])

-- If for every cursor Butler's answer to some request number is an error or a page that is not full, and
-- the fuel goes past that request: the sync ends, without an error or with one.
pub sync-Returns :
    (fuel : ℕ) (butler : ℕ → ℕ → Option (List ApiKeyRecord)) (last : ℕ) (exec_ok : ℕ → Bool)
    (s : State)
    → ((c : ℕ) (page : List ApiKeyRecord) → butler last c ≡ some page → length page < limit)
    → last < fuel
    → Returns (sync fuel butler exec_ok s).1
unfolding sync
sync-Returns fuel butler last exec_ok s short enough =
    applied (fetch key_time fuel butler 0 s.cursor []) (
      fetch-Returns key_time fuel butler 0 last s.cursor [] short (omega arith)
        (omega (arith, enough)))
  where
    upserted : (c : ℕ) (p : List ApiKeyRecord × Bool) → Returns (after_upsert s c p).1
    upserted c (rows, true) = tt
    upserted c (rows, false) = tt

    applied :
        (r : Result SyncError (List ApiKeyRecord × ℕ))
        → Returns r
        → Returns (apply_keys exec_ok s r).1
    applied (ok ([], c)) h = tt
    applied (ok (k ∷ keys, c)) h = upserted c (upsert_api_keys exec_ok 0 (k ∷ keys) s.stored)
    applied (err e) h = tt
    applied panic h = h
    applied out_of_fuel h = h
