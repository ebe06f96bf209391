-- ===== src/RequestLog/Writer/Queue.antt =====
-- The writer against its specification: a buffer of bounded size that keeps the order.
use mathlib.Core.List.{append-nil}
use majordomo_steward.Prelude.{
  ℕ, suc, ◌-◌, ◌≤◌, ◌==◌, ◌&&◌, Bool, true, false, List, [], ◌∷◌, ◌++◌, length, length-append, ltb,
  ◌≡◌, refl, sym, ap, subst, ◌∙◌, arith, if◌then◌else◌, not,
}
use majordomo_steward.Proxy.RequestLog.{RequestLog}
use majordomo_steward.RequestLog.Hll.{Sketches, HllKey}
use majordomo_steward.RequestLog.Writer.{
  Answers, Stores, Writer, Step, write_request, receive, flush_timer, close_done, stop_hlls,
  close_db, leave, answers_of, write_log, write_request_log, receive_log, flush_stores,
  stop_manager, step, run,
}

-- What the specification knows of a writer: how many logs wait, and not which; whether Close was called,
-- whether its loop has returned, and whether it has panicked.
pub record Buffer : Type 0 where
  pub waiting : ℕ
  pub is_done : Bool
  pub is_returned : Bool
  pub is_panicked : Bool

-- What is done to the stores: a log is handed to writeLog, which the database may refuse, or the sketches
-- are flushed.
pub data Action (F : Type 0) : Type 0 where
  wrote : Answers → RequestLog F → Action F
  flushed : (HllKey → Bool) → Action F

if_waiting :
    (b : Bool) (x y : Buffer)
    → (b ≡ true → x.waiting ≤ 1000)
    → y.waiting ≤ 1000
    → (if b then x else y).waiting ≤ 1000
if_waiting true x y h k = h refl
if_waiting false x y h k = k

module _ {F S : Type 0} (sketches : Sketches S) (ttl : ℕ) where
  -- A log is accepted while fewer than 1000 logs wait; a second Close panics.
  abbrev spec_step : Step F → Buffer → Buffer
  spec_step (write_request log) b =
      if ltb b.waiting 1000 then record b { waiting = suc b.waiting } else b
  spec_step (receive a) b = if b.is_returned then b else record b { waiting = b.waiting - 1 }
  spec_step close_done b =
      if b.is_done then record b { is_panicked = true } else record b { is_done = true }
  spec_step leave b = if b.is_done && b.waiting == 0 then record b { is_returned = true } else b
  spec_step _ b = b

  -- The log that a step adds to those that are accepted.
  abbrev accepted_by : Step F → Buffer → List (RequestLog F)
  accepted_by (write_request log) b = if ltb b.waiting 1000 then log ∷ [] else []
  accepted_by _ b = []

  -- The logs that the specification accepts, in the order of the calls; none after a panic.
  abbrev pub accepted : List (Step F) → Buffer → List (RequestLog F)
  accepted [] b = []
  accepted (x ∷ steps) b =
      let rest = accepted steps (spec_step x b) in
      if b.is_panicked then [] else accepted_by x b ++ rest

  abbrev pub buffer_of : Writer F S → Buffer
  buffer_of w = record {
    waiting = length w.log_chan;
    is_done = w.is_done;
    is_returned = w.is_returned;
    is_panicked = w.is_panicked;
  }

  -- The actions on the stores, one after the other.
  abbrev pub act_all : List (Action F) → Stores F S → Stores F S
  act_all [] s = s
  act_all (wrote a log ∷ actions) s = act_all actions (write_log sketches ttl a log s)
  act_all (flushed exec_ok ∷ actions) s = act_all actions (flush_stores sketches ttl exec_ok s)

  abbrev pub logs_of : List (Action F) → List (RequestLog F)
  logs_of [] = []
  logs_of (wrote a log ∷ actions) = log ∷ logs_of actions
  logs_of (flushed exec_ok ∷ actions) = logs_of actions

  -- What a step does to the stores, and what it leaves in the channel.
  abbrev Advances : Step F → Writer F S → Writer F S → Type 0
  Advances x w w' =
      (handled : List (Action F)) × (w'.stores ≡ act_all handled w.stores)
      × (w.log_chan ++ accepted_by x (buffer_of w) ≡ logs_of handled ++ w'.log_chan)
      × (buffer_of w' ≡ spec_step x (buffer_of w))

  -- The same for a step that is given by its results.
  abbrev Results : Writer F S → List (RequestLog F) → Writer F S → Buffer → Type 0
  Results w added w' b =
      (handled : List (Action F)) × (w'.stores ≡ act_all handled w.stores)
      × (w.log_chan ++ added ≡ logs_of handled ++ w'.log_chan)
      × (buffer_of w' ≡ b)

  write_Results :
      (log : RequestLog F) (w : Writer F S) (b : Bool)
      → Results w
          (if b then log ∷ [] else [])
          (if b then record w { log_chan = w.log_chan ++ (log ∷ []) } else w)
          (if b then record (buffer_of w) { waiting = suc (length w.log_chan) } else buffer_of w)
  write_Results log w true =
      let longer : length (w.log_chan ++ (log ∷ [])) ≡ suc (length w.log_chan) =
        ground (arith, length-append w.log_chan (log ∷ [])) in
      ([], refl, refl, ap (λ n. record (buffer_of w) { waiting = n }) longer)
  write_Results log w false = ([], refl, append-nil w.log_chan, refl)

  receive_Results :
      (a : Answers) (w : Writer F S) (b : Bool) (logs : List (RequestLog F))
      → w.log_chan ≡ logs
      → Results w []
          (if b then w else receive_log sketches ttl a w logs)
          (if b then buffer_of w else record (buffer_of w) { waiting = length logs - 1 })
  receive_Results a w true logs e = ([], refl, append-nil w.log_chan, refl)
  receive_Results a w false [] e = (
    [],
    refl,
    append-nil w.log_chan,
    ap (λ (l : List (RequestLog F)). record (buffer_of w) { waiting = length l }) e,
  )
  receive_Results a w false (log ∷ logs) e =
      let fewer : length logs ≡ suc (length logs) - 1 = omega arith in
      (
        wrote (answers_of w.is_db_closed a) log ∷ [],
        refl,
        append-nil w.log_chan ∙ e,
        ap (λ n. record (buffer_of w) { waiting = n }) fewer,
      )

  leave_Results :
      (w : Writer F S) (b : Bool)
      → Results w []
          (if b then record w { is_returned = true } else w)
          (if b then record (buffer_of w) { is_returned = true } else buffer_of w)
  leave_Results w true = ([], refl, append-nil w.log_chan, refl)
  leave_Results w false = ([], refl, append-nil w.log_chan, refl)

  flush_Results :
      (exec_ok : HllKey → Bool) (w : Writer F S) (b : Bool)
      → Results w []
          (if b then w else record w { stores = flush_stores sketches ttl exec_ok w.stores })
          (buffer_of w)
  flush_Results exec_ok w true = ([], refl, append-nil w.log_chan, refl)
  flush_Results exec_ok w false = (flushed exec_ok ∷ [], refl, append-nil w.log_chan, refl)

  stop_Results :
      (exec_ok : HllKey → Bool) (w : Writer F S) (b : Bool)
      → Results w [] (if b then stop_manager sketches ttl exec_ok w else w) (buffer_of w)
  stop_Results exec_ok w true = (flushed exec_ok ∷ [], refl, append-nil w.log_chan, refl)
  stop_Results exec_ok w false = ([], refl, append-nil w.log_chan, refl)

  close_Results :
      (w : Writer F S) (b : Bool)
      → Results w [] (if b then record w { is_panicked = true } else record w { is_done = true }) (
          if b
          then record (buffer_of w) { is_panicked = true }
          else record (buffer_of w) { is_done = true })
  close_Results w true = ([], refl, append-nil w.log_chan, refl)
  close_Results w false = ([], refl, append-nil w.log_chan, refl)

  close_db_Results :
      (w : Writer F S) (b : Bool)
      → Results w [] (if b then record w { is_db_closed = true } else w) (buffer_of w)
  close_db_Results w true = ([], refl, append-nil w.log_chan, refl)
  close_db_Results w false = ([], refl, append-nil w.log_chan, refl)

  step-Advances : (x : Step F) (w : Writer F S) → Advances x w (step sketches ttl x w)
  unfolding step write_request_log
  step-Advances (write_request log) w = write_Results log w (ltb (length w.log_chan) 1000)
  step-Advances (receive a) w = receive_Results a w w.is_returned w.log_chan refl
  step-Advances (flush_timer exec_ok) w = flush_Results exec_ok w w.is_stopped
  step-Advances close_done w = close_Results w w.is_done
  step-Advances (stop_hlls exec_ok) w = stop_Results exec_ok w (w.is_done && not w.is_stopped)
  step-Advances close_db w = close_db_Results w w.is_stopped
  step-Advances leave w = leave_Results w (w.is_done && length w.log_chan == 0)

  -- What a writer has done after some steps: the logs that it handed to writeLog are, with those that
  -- still wait, the logs that waited before and then the accepted ones.
  abbrev pub Refines : List (Step F) → Writer F S → Writer F S → Type 0
  Refines steps w w' =
      (handled : List (Action F)) × (w'.stores ≡ act_all handled w.stores)
      × (w.log_chan ++ accepted steps (buffer_of w) ≡ logs_of handled ++ w'.log_chan)

  spec_step-Bounded : (x : Step F) (b : Buffer) → b.waiting ≤ 1000 → (spec_step x b).waiting ≤ 1000
  spec_step-Bounded (write_request log) b h =
      if_waiting (ltb b.waiting 1000) _ b (λ room. ground arith) h
  spec_step-Bounded (receive a) b h = if_waiting b.is_returned b _ (λ r. h) (omega arith)
  spec_step-Bounded (flush_timer exec_ok) b h = h
  spec_step-Bounded close_done b h = if_waiting b.is_done _ _ (λ r. h) h
  spec_step-Bounded (stop_hlls exec_ok) b h = h
  spec_step-Bounded close_db b h = h
  spec_step-Bounded leave b h = if_waiting (b.is_done && b.waiting == 0) _ b (λ r. h) h

  if_short :
      (w w' : Writer F S) (b : Bool)
      → length w.log_chan ≤ 1000
      → length w'.log_chan ≤ 1000
      → length (if b then w else w').log_chan ≤ 1000
  if_short w w' true h k = h
  if_short w w' false h k = k

  -- The channel never holds more logs than 1000, whatever steps are taken in whatever order, if it holds
  -- no more at first.
  pub run-Bounded :
      (steps : List (Step F)) (w : Writer F S)
      → length w.log_chan ≤ 1000
      → length (run sketches ttl steps w).log_chan ≤ 1000
  unfolding run
  run-Bounded [] w h = h
  run-Bounded (x ∷ steps) w h =
      let buffer = (step-Advances x w).3 in
      let rest = run-Bounded steps (step sketches ttl x w) (
        subst (λ (b : Buffer). b.waiting ≤ 1000) (sym buffer)
          (spec_step-Bounded x (buffer_of w) h)) in
      if_short w _ w.is_panicked h rest
