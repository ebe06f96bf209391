-- ===== src/RequestLog/Writer/Closed.antt =====
-- The writer once its database is closed.
use majordomo_steward.Prelude.{ℕ, true, List, ◌≡◌}
use majordomo_steward.Proxy.RequestLog.{RequestLog}
use majordomo_steward.RequestLog.Hll.{Sketches}
use majordomo_steward.RequestLog.Writer.{Inserted, Writer}

module _ {F S : Type 0} (sketches : Sketches S) (ttl : ℕ) where
  -- The rows of llm_requests that were written.
  abbrev pub rows_of : Writer F S → List (Inserted F)
  rows_of w = w.stores.tables.requests

  -- A closed database stays closed, and its rows stay as they are.
  abbrev Keeps : Writer F S → Writer F S → Type 0
  Keeps w w' = (w'.is_db_closed ≡ true) × (rows_of w' ≡ rows_of w)
