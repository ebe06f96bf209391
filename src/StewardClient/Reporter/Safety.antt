-- ===== src/StewardClient/Reporter/Safety.antt =====
-- No record is marked as synced that Butler has not acknowledged, and none is lost.
use mathlib.Core.List.{map-append, append-nil, append_assoc}
use majordomo_steward.Prelude.{
  ℕ, zero, suc, ◌+◌, true, false, some, List, [], ◌∷◌, ◌++◌, map, ◌≡◌, refl, sym, ap, ◌∙◌, inl, inr,
  arith, ◌==◌, length, Bool-cases, All, All-append, subst, if◌then◌else◌,
}
use majordomo_steward.StewardClient.Reporter.{
  Row, Round, State, is_in, mark_synced, is_sent, arrive, send_batch, flush_round, flush,
}

-- Every row that is marked has been acknowledged.
abbrev pub AllDelivered : List ℕ → List Row → Type 0
AllDelivered delivered = All (λ r. r.synced ≡ true → is_in r.id delivered ≡ true)

is_in-append_left : (a : ℕ) (xs ys : List ℕ) → is_in a xs ≡ true → is_in a (xs ++ ys) ≡ true
is_in-append_left a [] ys h = absurd (cc)
is_in-append_left a (x ∷ xs) ys h = ground (arith, is_in-append_left a xs ys)

is_in-append_right : (a : ℕ) (xs ys : List ℕ) → is_in a ys ≡ true → is_in a (xs ++ ys) ≡ true
is_in-append_right a [] ys h = h
is_in-append_right a (x ∷ xs) ys h = ground (arith, is_in-append_right a xs ys)

AllDelivered-more :
    (delivered more : List ℕ) (rows : List Row)
    → AllDelivered delivered rows
    → AllDelivered (delivered ++ more) rows
AllDelivered-more delivered more [] h = tt
AllDelivered-more delivered more (r ∷ rows) h =
    (λ s. is_in-append_left r.id delivered more (h.0 s), AllDelivered-more delivered more rows h.1)

AllDelivered-mark :
    (delivered ids : List ℕ) (rows : List Row)
    → AllDelivered delivered rows
    → AllDelivered (delivered ++ ids) (mark_synced ids rows)
unfolding mark_synced
AllDelivered-mark delivered ids [] h = tt
AllDelivered-mark delivered ids (r ∷ rows) h =
    (here_or_before, AllDelivered-mark delivered ids rows h.1)
  where
    here_or_before :
        (if is_in r.id ids then true else r.synced) ≡ true → is_in r.id (delivered ++ ids) ≡ true
    here_or_before s = elim (Bool-cases (is_in r.id ids)) [
      | inl new ↦ is_in-append_right r.id delivered ids new
      | inr old ↦ is_in-append_left r.id delivered ids (h.0 (rw old at s))
    ]

AllDelivered-fresh :
    (delivered ids : List ℕ)
    → AllDelivered delivered (map (λ i. record { id = i; synced = false }) ids)
AllDelivered-fresh delivered [] = tt
AllDelivered-fresh delivered (i ∷ ids) = (λ s. absurd (cc), AllDelivered-fresh delivered ids)

abbrev pub ids_of : List Row → List ℕ
ids_of = map (λ r. r.id)

ids_of-mark : (ids : List ℕ) (rows : List Row) → ids_of (mark_synced ids rows) ≡ ids_of rows
unfolding mark_synced
ids_of-mark ids [] = refl
ids_of-mark ids (r ∷ rows) = ap (λ l. r.id ∷ l) (ids_of-mark ids rows)

-- What holds between the states before and after: rows are only added, acknowledgements are only
-- added, and if the marked rows were acknowledged they still are.
pub record Progress (s t : State) : Type 0 where
  pub added : List ℕ
  pub rows_kept : ids_of t.rows ≡ ids_of s.rows ++ added
  pub acknowledged : List ℕ
  pub delivered_kept : t.delivered ≡ s.delivered ++ acknowledged
  pub sound : AllDelivered s.delivered s.rows → AllDelivered t.delivered t.rows

Progress-refl : (s : State) → Progress s s
Progress-refl s = record {
  added = [];
  rows_kept = sym (append-nil _);
  acknowledged = [];
  delivered_kept = sym (append-nil _);
  sound = λ h. h;
}

pub Progress-trans : (s t u : State) → Progress s t → Progress t u → Progress s u
Progress-trans s t u p q = record {
  added = p.added ++ q.added;
  rows_kept =
      q.rows_kept
      ∙ ap (λ l. l ++ q.added) p.rows_kept
      ∙ append_assoc (ids_of s.rows) p.added q.added;
  acknowledged = p.acknowledged ++ q.acknowledged;
  delivered_kept =
      q.delivered_kept
      ∙ ap (λ l. l ++ q.acknowledged) p.delivered_kept
      ∙ append_assoc s.delivered p.acknowledged q.acknowledged;
  sound = λ h. q.sound (p.sound h);
}

arrive-Progress : (ids : List ℕ) (s : State) → Progress s (arrive ids s)
arrive-Progress ids s = record {
  added = ids_of (map (λ i. record { id = i; synced = false }) ids);
  rows_kept = map-append _ s.rows _;
  acknowledged = [];
  delivered_kept = sym (append-nil _);
  sound = λ h. All-append _ s.rows _ h (AllDelivered-fresh s.delivered ids);
}

acknowledge-Progress :
    (records : List ℕ) (s : State) → Progress s (record s { delivered = s.delivered ++ records })
acknowledge-Progress records s = record {
  added = [];
  rows_kept = sym (append-nil _);
  acknowledged = records;
  delivered_kept = refl;
  sound = AllDelivered-more s.delivered records s.rows;
}

mark-Progress :
    (records : List ℕ) (s : State)
    → Progress s
        (record s { delivered = s.delivered ++ records; rows = mark_synced records s.rows })
mark-Progress records s = record {
  added = [];
  rows_kept = ids_of-mark records s.rows ∙ sym (append-nil _);
  acknowledged = records;
  delivered_kept = refl;
  sound = AllDelivered-mark s.delivered records s.rows;
}

send_batch-Progress :
    (limit : ℕ) (round : Round) (records : List ℕ) (s : State)
    → Progress s (send_batch limit round records s).0
unfolding send_batch
send_batch-Progress limit round records s = elim (Bool-cases (length records == 0)) [
  | inl none_left ↦ rw none_left (Progress-refl s)
  | inr some_left ↦ elim (Bool-cases (is_sent round.reply)) [
    | inr unsent ↦ rw (some_left, unsent) (Progress-refl s)
    | inl sent ↦ elim (Bool-cases round.marked) [
      | inr unmarked ↦ rw (some_left, sent, unmarked) (acknowledge-Progress records s)
      | inl marked ↦ rw (some_left, sent, marked) (mark-Progress records s)
    ]
  ]
]

pub flush_round-Progress :
    (limit : ℕ) (round : Round) (s : State) → Progress s (flush_round limit round s).0
unfolding flush_round
flush_round-Progress limit round s = elim (Bool-cases round.fetched) [
  | inr failed ↦ simp failed (arrive-Progress round.arrivals s)
  | inl fetched ↦ simp fetched (
      Progress-trans s _ _ (arrive-Progress round.arrivals s)
        (send_batch-Progress limit round _ (arrive round.arrivals s)))
]

flush-Progress :
    (fuel limit : ℕ) (rounds : ℕ → Round) (n : ℕ) (s t : State)
    → flush fuel limit rounds n s ≡ some t
    → Progress s t
unfolding flush
flush-Progress zero limit rounds n s t h = absurd (cc)
flush-Progress (suc fuel) limit rounds n s t h =
    let next = (flush_round limit (rounds n) s).0 in
    let first = flush_round-Progress limit (rounds n) s in
    elim (Bool-cases (flush_round limit (rounds n) s).1) [
      | inl more ↦
          Progress-trans s next t first
            (flush-Progress fuel limit rounds (n + 1) next t (rw more at h))
      | inr ended ↦ subst (Progress s) (cc (rw ended at h)) first
    ]

-- What a flush from `s` to `t` has kept: the rows of `s` with the rows added since, the acknowledgements
-- of `s` with those added since, and only acknowledged rows are marked.
pub record Safe (s t : State) : Type 0 where
  pub added : List ℕ
  pub rows_kept : ids_of t.rows ≡ ids_of s.rows ++ added
  pub acknowledged : List ℕ
  pub delivered_kept : t.delivered ≡ s.delivered ++ acknowledged
  pub sound : AllDelivered t.delivered t.rows

-- For any fuel and any rounds, whatever fails and whatever rows are added between them: if every row
-- marked as synced was acknowledged by Butler before a flush, and the flush ends, then so it is after
-- it, and it has removed or reordered no row and no acknowledgement.
pub flush-Safe :
    (fuel limit : ℕ) (rounds : ℕ → Round) (n : ℕ) (s t : State)
    → AllDelivered s.delivered s.rows
    → flush fuel limit rounds n s ≡ some t
    → Safe s t
flush-Safe fuel limit rounds n s t h e =
    let p = flush-Progress fuel limit rounds n s t e in
    record {
      added = p.added;
      rows_kept = p.rows_kept;
      acknowledged = p.acknowledged;
      delivered_kept = p.delivered_kept;
      sound = p.sound h;
    }
