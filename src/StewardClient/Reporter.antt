-- ===== src/StewardClient/Reporter.antt =====
-- internal/stewardclient/reporter.go: the flush of request logs to Butler, over the table that
-- FetchUnsyncedRecords and MarkSynced of internal/repositories/steward.go read and write.
pub mod Safety
pub mod Drain
use majordomo_steward.Prelude.{
  ℕ, zero, suc, ◌+◌, Bool, true, false, not, ◌||◌, Option, none, some, List, [], ◌∷◌, ◌++◌, map,
  ltb, ◌==◌, take, length, if◌then◌else◌,
}

-- A row of llm_requests of the org, in the order of created_at.
pub record Row : Type 0 where
  pub id : ℕ
  pub synced : Bool

-- SELECT … WHERE synced_to_butler = false …: the identifiers of the rows.
abbrev pub unsynced : List Row → List ℕ
unsynced [] = []
unsynced (r ∷ rows) = if r.synced then unsynced rows else r.id ∷ unsynced rows

-- … LIMIT $1
unfoldable pub fetch_unsynced_records : ℕ → List Row → List ℕ
fetch_unsynced_records limit rows = take limit (unsynced rows)

abbrev pub is_in : ℕ → List ℕ → Bool
is_in a [] = false
is_in a (x ∷ xs) = a == x || is_in a xs

-- UPDATE … SET synced_to_butler = true WHERE id IN (…)
unfoldable pub mark_synced : List ℕ → List Row → List Row
mark_synced ids [] = []
mark_synced ids (r ∷ rows) =
    record r { synced = if is_in r.id ids then true else r.synced } ∷ mark_synced ids rows

-- Butler's reply to a batch: none where the request failed, or an HTTP status.
abbrev pub Reply : Type 0
Reply = Option ℕ

-- What the world does in one round of the loop: rows that requests add before it, whether the two
-- database calls succeed, and Butler's reply.
pub record Round : Type 0 where
  pub arrivals : List ℕ
  pub fetched : Bool
  pub reply : Reply
  pub marked : Bool

-- The table, and the records that Butler has acknowledged, in order.
pub record State : Type 0 where
  pub rows : List Row
  pub delivered : List ℕ

-- `send` succeeds on status 200 only.
abbrev pub is_sent : Reply → Bool
is_sent none = false
is_sent (some status) = status == 200

abbrev pub arrive : List ℕ → State → State
arrive ids s = record s { rows = s.rows ++ map (λ i. record { id = i; synced = false }) ids }

-- What follows a fetch that found `records`, up to the test for a full page: the state, and whether
-- the loop goes on.
unfoldable pub send_batch : ℕ → Round → List ℕ → State → State × Bool
send_batch batch_max_size round records s =
    if length records == 0
    then (s, false)
    else if not (is_sent round.reply)
    then (s, false)
    else (let acked : State = record s { delivered = s.delivered ++ records } in
        if not round.marked then (acked, false) else (
          record acked { rows = mark_synced records acked.rows },
          not (ltb (length records) batch_max_size),
        ))

-- One round of the loop.
unfoldable pub flush_round : ℕ → Round → State → State × Bool
flush_round batch_max_size round s =
    let s' = arrive round.arrivals s in
    if not round.fetched
    then (s', false)
    else send_batch batch_max_size round (fetch_unsynced_records batch_max_size s'.rows) s'

-- The loop, over the rounds from number `n` on; `none` means that the fuel ran out.
unfoldable pub flush : ℕ → ℕ → (ℕ → Round) → ℕ → State → Option State
flush zero batch_max_size rounds n s = none
flush (suc fuel) batch_max_size rounds n s =
    let (s', more) = flush_round batch_max_size (rounds n) s in
    let rest = flush fuel batch_max_size rounds (n + 1) s' in if more then rest else some s'
