-- ===== src/RequestLog/Writer.antt =====
-- internal/requestlog/writer.go: the queue of request logs, its write loop, and the writing of one log.
-- float64 is a type `F`. The database's answers are arguments.
pub mod Queue
pub mod Closed
use majordomo_steward.Prelude.{
  ℕ, ◌==◌, ◌&&◌, ◌||◌, str_eq, Bool, true, false, not, Option, none, some, List, [], ◌∷◌, ◌++◌, Str,
  length, ltb, if◌then◌else◌,
}
use majordomo_steward.Prelude.Int.{ℤ}
use majordomo_steward.Pricing.{Cost}
use majordomo_steward.ClaudeCode.{RequestMetadata}
use majordomo_steward.Proxy.Headers.{is_one_of}
use majordomo_steward.Proxy.RequestLog.{RequestLog, ClaudeRequestMetadata}
use majordomo_steward.RequestLog.ActiveKeys.{KeysCache, KeysAnswer, query_failed, get_active_keys}
use majordomo_steward.RequestLog.Hll.{Sketches, Hlls, HllKey, HllUpdate, add_value, flush_hlls}

-- A row of llm_requests: the log with its indexed metadata.
pub record Inserted (F : Type 0) : Type 0 where
  pub log : RequestLog F
  pub indexed_metadata : List (Str × Str)

-- models.ClaudeRequestDetail, without its own identifier.
pub record Detail : Type 0 where
  pub llm_request_id : ℕ
  pub session_id : Option ℕ
  pub found : RequestMetadata
  pub stop_reason : Option Str
  pub system_prompt_hash : Option Str

-- A call of UpdateClaudeSessionStats.
pub record SessionStats (F : Type 0) : Type 0 where
  pub session_id : ℕ
  pub input_tokens : ℤ
  pub output_tokens : ℤ
  pub total_cost : F

-- What the writer has written; the newest rows stand last.
pub record Tables (F : Type 0) : Type 0 where
  pub requests : List (Inserted F)
  pub metadata_keys : List (ℕ × Str)
  pub details : List Detail
  pub stats : List (SessionStats F)
  pub hll_updates : List HllUpdate

pub record Stores (F S : Type 0) : Type 0 where
  pub cache : KeysCache
  pub hlls : Hlls S
  pub tables : Tables F

-- The database's answers in the writing of one log, and the times before and after the query for the
-- active keys.
pub record Answers : Type 0 where
  pub now : ℕ
  pub done : ℕ
  pub active : KeysAnswer
  pub insert_ok : Bool
  pub register_ok : Str → Bool
  pub detail_ok : Bool
  pub stats_ok : Bool

-- `for key, value := range log.RawMetadata { if activeKeys[key] { … } }`; a nil map has no key.
abbrev pub indexed_of : Option (List Str) → List (Str × Str) → List (Str × Str)
indexed_of none raw = []
indexed_of (some keys) [] = []
indexed_of (some keys) ((key, value) ∷ raw) =
    let rest = indexed_of (some keys) raw in
    if is_one_of key keys then (key, value) ∷ rest else rest

abbrev pub has_row : ℕ → Str → List (ℕ × Str) → Bool
has_row api_key_id key [] = false
has_row api_key_id key ((id, k) ∷ rows) =
    (id == api_key_id && str_eq k key) || has_row api_key_id key rows

-- registerMetadataKeys: a key that is there already, or that the database refuses, is not added.
unfoldable pub register_metadata_keys :
    (Str → Bool) → ℕ → List (Str × Str) → List (ℕ × Str) → List (ℕ × Str)
register_metadata_keys register_ok api_key_id [] rows = rows
register_metadata_keys register_ok api_key_id ((key, value) ∷ metadata) rows =
    let rows' = if has_row api_key_id key rows then rows else rows ++ ((api_key_id, key) ∷ []) in
    register_metadata_keys register_ok api_key_id metadata (if register_ok key then rows' else rows)

abbrev pub optional_text : Str → Option Str
optional_text [] = none
optional_text (c ∷ s) = some (c ∷ s)

abbrev pub detail_of : ℕ → ClaudeRequestMetadata → Detail
detail_of id m = record {
  llm_request_id = id;
  session_id = m.session_id;
  found = m.found;
  stop_reason = optional_text m.found.stop_reason;
  system_prompt_hash = optional_text m.found.system_prompt_hash;
}

-- `for key, value := range log.RawMetadata { w.hllManager.AddValue(…) }`
abbrev pub add_values : {S : Type 0} → Sketches S → ℕ → List (Str × Str) → Hlls S → Hlls S
add_values sketches api_key_id [] hlls = hlls
add_values sketches api_key_id ((key, value) ∷ raw) hlls =
    add_values sketches api_key_id raw (add_value sketches api_key_id key value hlls)

-- The update of the session, where there is one.
abbrev pub stats_for :
    {F : Type 0} → Bool → RequestLog F → Option ℕ → List (SessionStats F) → List (SessionStats F)
stats_for stats_ok log none stats = stats
stats_for stats_ok log (some session) stats =
    if stats_ok
    then stats
      ++ (record {
        session_id = session;
        input_tokens = log.input_tokens;
        output_tokens = log.output_tokens;
        total_cost = log.cost.total_cost;
      }
          ∷ [])
    else stats

-- The details of a Claude Code request and the statistics of its session.
abbrev pub write_claude :
    {F : Type 0} → Answers → RequestLog F → Option ClaudeRequestMetadata → Tables F → Tables F
write_claude a log none t = t
write_claude a log (some m) t = record t {
  details = if a.detail_ok then t.details ++ (detail_of log.id m ∷ []) else t.details;
  stats = stats_for a.stats_ok log m.session_id t.stats;
}

module _ {F S : Type 0} (sketches : Sketches S) (ttl : ℕ) where
  -- What follows the INSERT: nothing after an error.
  unfoldable pub after_insert : Answers → RequestLog F → Inserted F → Stores F S → Stores F S
  after_insert a log row s =
      if a.insert_ok
      then record {
        cache = s.cache;
        hlls = add_values sketches log.majordomo_api_key_id log.raw_metadata s.hlls;
        tables = write_claude a log log.claude_metadata (record (s.tables) {
          requests = s.tables.requests ++ (row ∷ []);
          metadata_keys =
              register_metadata_keys a.register_ok log.majordomo_api_key_id log.raw_metadata
                s.tables.metadata_keys;
        });
      }
      else s

  -- writeLog. Every log of the handler has an API key.
  unfoldable pub write_log : Answers → RequestLog F → Stores F S → Stores F S
  unfolding after_insert
  write_log a log s =
      let (keys, cache') =
        get_active_keys ttl s.cache log.majordomo_api_key_id a.now a.active a.done in
      after_insert a log (record { log = log; indexed_metadata = indexed_of keys log.raw_metadata })
        (record s { cache = cache' })

-- The capacity of the channel.
abbrev pub capacity : ℕ
capacity = 1000

-- The writer: the logs that wait in the channel, the stores, whether `done` is closed, whether the HLL
-- manager has stopped and whether the database is closed, whether the write loop has returned, and whether
-- the program has panicked.
pub record Writer (F S : Type 0) : Type 0 where
  pub log_chan : List (RequestLog F)
  pub stores : Stores F S
  pub is_done : Bool
  pub is_stopped : Bool
  pub is_db_closed : Bool
  pub is_returned : Bool
  pub is_panicked : Bool

-- WriteRequestLog: a log that does not fit into the channel is dropped.
unfoldable pub write_request_log : {F S : Type 0} → RequestLog F → Writer F S → Writer F S
write_request_log log w =
    if ltb (length w.log_chan) capacity then record w { log_chan = w.log_chan ++ (log ∷ []) } else w

-- What happens to a writer: a handler's call; a round of the loop that receives a log; the timer of the HLL
-- manager; the three statements of Close, which are close(w.done), hllManager.Stop and db.Close; and the
-- return of the loop, which it does only when it finds the writer closed and the channel empty. A flush
-- has the updates that the database takes.
pub data Step (F : Type 0) : Type 0 where
  write_request : RequestLog F → Step F
  receive : Answers → Step F
  flush_timer : (HllKey → Bool) → Step F
  close_done : Step F
  stop_hlls : (HllKey → Bool) → Step F
  close_db : Step F
  leave : Step F

-- What a closed database answers.
abbrev pub refused : Answers → Answers
refused a = record a {
  active = query_failed;
  insert_ok = false;
  register_ok = λ key. false;
  detail_ok = false;
  stats_ok = false;
}

abbrev pub answers_of : Bool → Answers → Answers
answers_of is_db_closed a = if is_db_closed then refused a else a

module _ {F S : Type 0} (sketches : Sketches S) (ttl : ℕ) where
  abbrev pub receive_log : Answers → Writer F S → List (RequestLog F) → Writer F S
  receive_log a w [] = w
  receive_log a w (log ∷ logs) = record w {
    log_chan = logs;
    stores = write_log sketches ttl (answers_of w.is_db_closed a) log w.stores;
  }

  abbrev pub flush_stores : (HllKey → Bool) → Stores F S → Stores F S
  flush_stores exec_ok s =
      let (updates, hlls') = flush_hlls sketches exec_ok s.hlls in
      record s {
        hlls = hlls';
        tables = record (s.tables) { hll_updates = s.tables.hll_updates ++ updates };
      }

  -- Stop of the HLL manager, which waits for the last flush.
  abbrev pub stop_manager : (HllKey → Bool) → Writer F S → Writer F S
  stop_manager exec_ok w = record w { stores = flush_stores exec_ok w.stores; is_stopped = true }

  -- close(w.done), which panics the second time.
  abbrev pub close_channel : Writer F S → Writer F S
  close_channel w =
      if w.is_done then record w { is_panicked = true } else record w { is_done = true }

  -- A round of a loop that has returned does not take place, and a statement of Close only after the one
  -- before it.
  unfoldable pub step : Step F → Writer F S → Writer F S
  step (write_request log) w = write_request_log log w
  step (receive a) w = if w.is_returned then w else receive_log a w w.log_chan
  step (flush_timer exec_ok) w =
      if w.is_stopped then w else record w { stores = flush_stores exec_ok w.stores }
  step close_done w = close_channel w
  step (stop_hlls exec_ok) w = if w.is_done && not w.is_stopped then stop_manager exec_ok w else w
  step close_db w = if w.is_stopped then record w { is_db_closed = true } else w
  step leave w = if w.is_done && length w.log_chan == 0 then record w { is_returned = true } else w

  -- The writer after some steps, the first of which stands first; none follows a panic.
  unfoldable pub run : List (Step F) → Writer F S → Writer F S
  run [] w = w
  run (x ∷ steps) w = let rest = run steps (step x w) in if w.is_panicked then w else rest
