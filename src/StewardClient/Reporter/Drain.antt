-- ===== src/StewardClient/Reporter/Drain.antt =====
-- The flush loop ends once requests stop adding rows, and it empties the table when nothing fails.
use mathlib.Core.List.{append-nil}
use majordomo_steward.Prelude.{
  ◌++◌, All, ℕ, zero, suc, ◌+◌, ◌<◌, ◌≤◌, Bool, true, false, not, some, Option, List, [], ◌∷◌, ◌≡◌,
  refl, sym, ap, inl, inr, arith, length, take, Bool-cases, subst, if◌then◌else◌, ◌==◌,
}
use majordomo_steward.StewardClient.Reporter.{
  Row, Round, State, unsynced, is_in, mark_synced, is_sent, arrive, send_batch, flush_round, flush,
  fetch_unsynced_records,
}
use majordomo_steward.StewardClient.Reporter.Safety.{
  Progress, Progress-trans, flush_round-Progress, AllDelivered, ids_of,
}

arrive-quiet : (ids : List ℕ) (s : State) → ids ≡ [] → arrive ids s ≡ s
arrive-quiet ids s h =
    rw h (ap (λ r. record { rows = r; delivered = s.delivered }) (append-nil s.rows))

-- Marking never adds an unsynced row.
mark-AtMost :
    (ids : List ℕ) (rows : List Row)
    → length (unsynced (mark_synced ids rows)) ≤ length (unsynced rows)
unfolding mark_synced
mark-AtMost ids [] = omega arith
mark-AtMost ids (r ∷ rows) = ground (arith, mark-AtMost ids rows)

-- Marking the first unsynced row leaves fewer.
mark-Fewer :
    (ids : List ℕ) (rows : List Row) (i : ℕ) (rest : List ℕ)
    → unsynced rows ≡ i ∷ rest
    → is_in i ids ≡ true
    → length (unsynced (mark_synced ids rows)) < length (unsynced rows)
unfolding mark_synced
mark-Fewer ids [] i rest h here = absurd (cc)
mark-Fewer ids (r ∷ rows) i rest h here = elim (Bool-cases r.synced) [
  | inl synced ↦ ground (arith, mark-Fewer ids rows i rest)
  | inr fresh ↦ grind (arith, mark-AtMost ids rows)
]

is_in-unsynced :
    (a : ℕ) (r : Row) (rows : List Row)
    → is_in a (unsynced rows) ≡ true
    → is_in a (unsynced (r ∷ rows)) ≡ true
is_in-unsynced a r rows h = ground arith

not_in :
    (ids : List ℕ) (r : Row) (rows : List Row)
    → r.synced ≡ false
    → is_in r.id ids ≡ false
    → ¬ (is_in r.id (unsynced (r ∷ rows)) ≡ true → is_in r.id ids ≡ true)
not_in ids r rows fresh out h = ground arith

-- Marking all of them leaves none.
mark-None :
    (ids : List ℕ) (rows : List Row)
    → ((a : ℕ) → is_in a (unsynced rows) ≡ true → is_in a ids ≡ true)
    → unsynced (mark_synced ids rows) ≡ []
unfolding mark_synced
mark-None ids [] h = refl
mark-None ids (r ∷ rows) h = elim (Bool-cases (is_in r.id ids)) [
  | inl new ↦ rw new (mark-None ids rows (λ a m. h a (is_in-unsynced a r rows m)))
  | inr old ↦ elim (Bool-cases r.synced) [
    | inl synced ↦ rw (old, synced) (mark-None ids rows (λ a m. h a (is_in-unsynced a r rows m)))
    | inr fresh ↦ absurd (not_in ids r rows fresh old (h r.id))
  ]
]

take-short : (n : ℕ) (xs : List ℕ) → length (take n xs) < n → take n xs ≡ xs
take-short zero xs h = absurd (omega (arith, h))
take-short (suc n) [] h = refl
take-short (suc n) (x ∷ xs) h = ap (λ l. x ∷ l) (take-short n xs (omega (arith, h)))

first_taken : (limit i : ℕ) (rest : List ℕ) → 0 < limit → is_in i (take limit (i ∷ rest)) ≡ true
first_taken zero i rest h = absurd (omega (arith, h))
first_taken (suc limit) i rest h = ground arith

-- A page that is marked leaves fewer unsynced rows, if there were any.
mark_page-Fewer :
    (limit : ℕ) (rows : List Row)
    → 0 < limit
    → length (take limit (unsynced rows)) == 0 ≡ false
    → length (unsynced (mark_synced (take limit (unsynced rows)) rows)) < length (unsynced rows)
mark_page-Fewer limit rows positive some_left = go (unsynced rows) refl some_left
  where
    go :
        (u : List ℕ)
        → unsynced rows ≡ u
        → length (take limit u) == 0 ≡ false
        → length (unsynced (mark_synced (take limit u) rows)) < length u
    go [] h nonempty = absurd (grind arith)
    go (i ∷ rest) h nonempty =
        subst (λ u. length (unsynced (mark_synced (take limit (i ∷ rest)) rows)) < length u) h
          (mark-Fewer (take limit (i ∷ rest)) rows i rest h (first_taken limit i rest positive))

-- A page that is not full is all that was left.
mark_page-None :
    (limit : ℕ) (rows : List Row)
    → length (take limit (unsynced rows)) < limit
    → unsynced (mark_synced (take limit (unsynced rows)) rows) ≡ []
mark_page-None limit rows short =
    mark-None (take limit (unsynced rows)) rows
      (λ a m. subst (λ l. is_in a l ≡ true) (sym (take-short limit (unsynced rows) short)) m)

-- The loop goes on only past a page that was marked.
send_batch-Fewer :
    (limit : ℕ) (round : Round) (s : State)
    → 0 < limit
    → (send_batch limit round (take limit (unsynced s.rows)) s).1 ≡ true
    → length (unsynced (send_batch limit round (take limit (unsynced s.rows)) s).0.rows)
      < length (unsynced s.rows)
unfolding send_batch
send_batch-Fewer limit round s positive more =
    elim (Bool-cases (length (take limit (unsynced s.rows)) == 0)) [
      | inl none_left ↦ absurd (cc (rw none_left at more))
      | inr some_left ↦ elim (Bool-cases (is_sent round.reply)) [
        | inr unsent ↦ absurd (cc (rw (some_left, unsent) at more))
        | inl sent ↦ elim (Bool-cases round.marked) [
          | inr unmarked ↦ absurd (cc (rw (some_left, sent, unmarked) at more))
          | inl marked ↦
              rw (some_left, sent, marked) (mark_page-Fewer limit s.rows positive some_left)
        ]
      ]
    ]

-- A round in which the database answers and Butler says 200.
abbrev pub IsGood : Round → Type 0
IsGood round = (round.fetched ≡ true) × (is_sent round.reply ≡ true) × (round.marked ≡ true)

none_left-None : (limit : ℕ) (u : List ℕ) → 0 < limit → length (take limit u) == 0 ≡ true → u ≡ []
none_left-None limit [] positive h = refl
none_left-None zero (i ∷ u) positive h = absurd (omega (arith, positive))
none_left-None (suc limit) (i ∷ u) positive h = absurd (grind arith)

-- In a good round the loop ends only with an empty table.
send_batch-Drained :
    (limit : ℕ) (round : Round) (s : State)
    → 0 < limit
    → IsGood round
    → (send_batch limit round (take limit (unsynced s.rows)) s).1 ≡ false
    → unsynced (send_batch limit round (take limit (unsynced s.rows)) s).0.rows ≡ []
unfolding send_batch
send_batch-Drained limit round s positive good ended =
    elim (Bool-cases (length (take limit (unsynced s.rows)) == 0)) [
      | inl none_left ↦ rw none_left (none_left-None limit (unsynced s.rows) positive none_left)
      | inr some_left ↦
          rw (some_left, good.1, good.2)
            (mark_page-None limit s.rows (ground (arith, rw (some_left, good.1, good.2) at ended)))
    ]

-- From round `n` on, no request adds a row.
abbrev pub IsQuiet : (ℕ → Round) → ℕ → Type 0
IsQuiet rounds n = (k : ℕ) → (rounds (n + k)).arrivals ≡ []

abbrev after_fetch : ℕ → Round → State → State × Bool
after_fetch limit round s =
    if not round.fetched
    then (s, false)
    else send_batch limit round (take limit (unsynced s.rows)) s

flush_round-fetched :
    (limit : ℕ) (round : Round) (s : State)
    → round.arrivals ≡ []
    → flush_round limit round s ≡ after_fetch limit round s
unfolding flush_round fetch_unsynced_records
flush_round-fetched limit round s quiet =
    ap (after_fetch limit round) (arrive-quiet round.arrivals s quiet)

flush_round-Fewer :
    (limit : ℕ) (round : Round) (s : State)
    → 0 < limit
    → round.arrivals ≡ []
    → (flush_round limit round s).1 ≡ true
    → length (unsynced (flush_round limit round s).0.rows) < length (unsynced s.rows)
unfolding send_batch
flush_round-Fewer limit round s positive quiet more = elim (Bool-cases round.fetched) [
  | inr failed ↦ absurd (cc (rw (flush_round-fetched limit round s quiet, failed) at more))
  | inl fetched ↦
      rw (flush_round-fetched limit round s quiet, fetched)
        (send_batch-Fewer limit round s positive
          (rw (flush_round-fetched limit round s quiet, fetched) at more))
]

flush_round-Drained :
    (limit : ℕ) (round : Round) (s : State)
    → 0 < limit
    → round.arrivals ≡ []
    → IsGood round
    → (flush_round limit round s).1 ≡ false
    → unsynced (flush_round limit round s).0.rows ≡ []
unfolding send_batch
flush_round-Drained limit round s positive quiet good ended =
    rw (flush_round-fetched limit round s quiet, good.0)
      (send_batch-Drained limit round s positive good
        (rw (flush_round-fetched limit round s quiet, good.0) at ended))

IsQuiet-next : (rounds : ℕ → Round) (n : ℕ) → IsQuiet rounds n → IsQuiet rounds (n + 1)
IsQuiet-next rounds n quiet k =
    let e : n + (1 + k) ≡ n + 1 + k = omega arith in
    subst (λ m. (rounds m).arrivals ≡ []) e (quiet (1 + k))

IsQuiet-now : (rounds : ℕ → Round) (n : ℕ) → IsQuiet rounds n → (rounds n).arrivals ≡ []
IsQuiet-now rounds n quiet =
    let e : n + 0 ≡ n = omega arith in subst (λ m. (rounds m).arrivals ≡ []) e (quiet 0)

-- What a flush that ends leaves: progress, as in `flush-Progress`, and, where no round failed, no
-- unsynced row.
record Ends (rounds : ℕ → Round) (s : State) (result : Option State) : Type 0 where
  final : State
  ended : result ≡ some final
  progress : Progress s final
  drained : ((k : ℕ) → IsGood (rounds k)) → unsynced final.rows ≡ []

Ends-after :
    (rounds : ℕ → Round) (s t : State) (result : Option State)
    → Progress s t
    → Ends rounds t result
    → Ends rounds s result
Ends-after rounds s t result p e = record {
  final = e.final;
  ended = e.ended;
  progress = Progress-trans s t e.final p e.progress;
  drained = e.drained;
}

flush-Ends :
    (fuel limit : ℕ) (rounds : ℕ → Round) (n : ℕ) (s : State)
    → 0 < limit
    → IsQuiet rounds n
    → length (unsynced s.rows) < fuel
    → Ends rounds s (flush fuel limit rounds n s)
unfolding flush
flush-Ends zero limit rounds n s positive quiet enough = absurd (omega (arith, enough))
flush-Ends (suc fuel) limit rounds n s positive quiet enough =
    let next : State × Bool = flush_round limit (rounds n) s in
    let calm = IsQuiet-now rounds n quiet in
    elim (Bool-cases next.1) [
      | inl more ↦ rw more (
          Ends-after rounds s next.0 _ (flush_round-Progress limit (rounds n) s) (
            flush-Ends fuel limit rounds (n + 1) next.0 positive (IsQuiet-next rounds n quiet)
              (omega (arith, enough, flush_round-Fewer limit (rounds n) s positive calm more))))
      | inr ended ↦ rw ended (record {
        final = next.0;
        ended = refl;
        progress = flush_round-Progress limit (rounds n) s;
        drained = λ good. flush_round-Drained limit (rounds n) s positive calm (good n) ended;
      })
    ]

-- With a page size that is not zero, and no rows added from round `n` on: whatever the database and
-- Butler answer, the flush ends within more rounds than there are unsynced rows at its start.
pub flush-Returns :
    (fuel limit : ℕ) (rounds : ℕ → Round) (n : ℕ) (s : State)
    → 0 < limit
    → IsQuiet rounds n
    → length (unsynced s.rows) < fuel
    → (t : State) × (flush fuel limit rounds n s ≡ some t)
flush-Returns fuel limit rounds n s positive quiet enough =
    let e = flush-Ends fuel limit rounds n s positive quiet enough in (e.final, e.ended)

synced-delivered :
    (delivered : List ℕ) (rows : List Row)
    → AllDelivered delivered rows
    → unsynced rows ≡ []
    → All (λ r. is_in r.id delivered ≡ true) rows
synced-delivered delivered [] h e = tt
synced-delivered delivered (r ∷ rows) h e = elim (Bool-cases r.synced) [
  | inl synced ↦ (h.0 synced, synced-delivered delivered rows h.1 (simp synced at e))
  | inr fresh ↦ absurd (grind arith)
]

-- Where a flush ends with nothing left to send: at a state with the rows of `s` and rows added since,
-- each of them acknowledged by Butler.
pub record Drained (s : State) (result : Option State) : Type 0 where
  pub final : State
  pub ended : result ≡ some final
  pub nothing_left : unsynced final.rows ≡ []
  pub added : List ℕ
  pub rows_kept : ids_of final.rows ≡ ids_of s.rows ++ added
  pub all_delivered : All (λ r. is_in r.id final.delivered ≡ true) final.rows

-- With a page size that is not zero, no rows added from round `n` on, more fuel than unsynced rows, no
-- round in which a call of the database fails or Butler does not say 200, and only acknowledged rows
-- marked at the start: the flush ends with every row marked and acknowledged by Butler.
pub flush-Drained :
    (fuel limit : ℕ) (rounds : ℕ → Round) (n : ℕ) (s : State)
    → 0 < limit
    → IsQuiet rounds n
    → length (unsynced s.rows) < fuel
    → ((k : ℕ) → IsGood (rounds k))
    → AllDelivered s.delivered s.rows
    → Drained s (flush fuel limit rounds n s)
flush-Drained fuel limit rounds n s positive quiet enough good before =
    let e = flush-Ends fuel limit rounds n s positive quiet enough in
    record {
      final = e.final;
      ended = e.ended;
      nothing_left = e.drained good;
      added = e.progress.added;
      rows_kept = e.progress.rows_kept;
      all_delivered =
          synced-delivered e.final.delivered e.final.rows (e.progress.sound before)
            (e.drained good);
    }
