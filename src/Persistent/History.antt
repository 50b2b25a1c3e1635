-- ===== src/Persistent/History.antt =====
-- A log of src/journal.rs read as a history of events, by the recovery of src/persistent.rs: what a
-- write, a snapshot and a compaction do to the history.
use horsie_actor.Base.{
  ℕ, suc, ◌+◌, ◌≤◌, ◌<◌, ◌%◌, ◌≡◌, refl, ◌∙◌, ap, Option, none, some, List, [], ◌∷◌, ◌++◌, foldl,
  arith, Bytes, ok, ◌>>=◌, length, length-append, u64_mod, Result-cases, inl, inr,
}
use mathlib.Core.List.{foldl-append}
use horsie_actor.Journal.{Entry, JournalResult, push_events, events_after, all_ok}
use horsie_actor.Journal.Log.{
  IsLog, SnapshotBelow, numbered, push_events_lem, events_after-append, events_after_top,
  events_after-numbered, events_after_compacted, push_events-IsLog, snapshot-IsLog, compact-IsLog,
}
use horsie_actor.Effect.{EventSourcedActor, RoundTrips}
use horsie_actor.Persistent.{Persistent, snapshot_base, fold_replay, encode_events, fold_events}

module _ {Inner Command Event State Ack : Type 0}
    (a : EventSourcedActor Inner Command Event State Ack) where
  abbrev pub fold : List Event → State
  fold = foldl a.apply_event a.initial_state

  -- What recovery makes of a log that it reads without an error and without interruption.
  unfoldable pub recover_log : Entry → JournalResult (State × ℕ)
  unfolding snapshot_base fold_replay
  recover_log e = do
    base ← snapshot_base a e.snapshot
    fold_replay a base.0 base.1 (all_ok (events_after base.1 e.events))

  -- The log stands for the history: recovery rebuilds the fold of it, and counts it.
  pub record Holds (e : Entry) (history : List Event) : Type 0 where
    pub log : IsLog e
    pub count : e.last_seq ≡ length history
    pub recovered : recover_log e ≡ ok (fold history, length history)

  pub fold_replay-append :
      (s : State) (n : ℕ) (xs : List (ℕ × Bytes)) (ys : List (ℕ × Bytes))
      → fold_replay a s n (all_ok (xs ++ ys))
        ≡ (fold_replay a s n (all_ok xs) >>= λ r. fold_replay a r.0 r.1 (all_ok ys))
  unfolding fold_replay
  fold_replay-append s n [] ys = refl
  fold_replay-append s n ((m, b) ∷ xs) ys = elim (Result-cases (a.event_serde.from_slice b)) [
    | inl (event, e) ↦ rw (e, fold_replay) (fold_replay-append (a.apply_event s event) m xs ys)
    | inr (e, h) ↦ rw (h, fold_replay)
  ]

  encode_events-cons :
      (event : Event) (rest : List Event) (encoded : List Bytes)
      → encode_events a (event ∷ rest) ≡ ok encoded
      → (b : Bytes) × (bs : List Bytes) × (a.event_serde.to_vec event ≡ ok b)
        × (encode_events a rest ≡ ok bs)
        × (b ∷ bs ≡ encoded)
  unfolding encode_events
  encode_events-cons event rest encoded h = elim (Result-cases (a.event_serde.to_vec event)) [
    | inr (e, p) ↦ ground arith
    | inl (b, p) ↦ elim (Result-cases (encode_events a rest)) [
      | inr (e, q) ↦ ground arith
      | inl (bs, q) ↦ (b, bs, p, q, ground arith)
    ]
  ]

  -- What was encoded is folded back by a replay, each event under the number of its write.
  pub fold_replay-numbered :
      RoundTrips a.event_serde
      → (events : List Event) (encoded : List Bytes) (s : State) (n : ℕ)
      → encode_events a events ≡ ok encoded
      → (fold_replay a s n (all_ok (numbered n encoded))
          ≡ ok (foldl a.apply_event s events, n + length events))
        × (length encoded ≡ length events)
  unfolding fold_replay encode_events numbered
  fold_replay-numbered trips [] [] s n h = (ground arith, refl)
  fold_replay-numbered trips [] (b ∷ bs) s n h = ground arith
  fold_replay-numbered trips (event ∷ rest) encoded s n h =
      let (b, bs, p, q, e) = encode_events-cons event rest encoded h in
      let ih = fold_replay-numbered trips rest bs (a.apply_event s event) (n + 1) q in
      rw (← e) (rw (trips event b p, fold_replay) (ih.0 ∙ ground arith, ap suc ih.1))

  -- A replay counts by the journal's numbers, so where it starts to count does not matter.
  pub fold_replay-numbered_from :
      RoundTrips a.event_serde
      → (events : List Event) (encoded : List Bytes) (s : State) (m n : ℕ)
      → encode_events a events ≡ ok encoded
      → 0 < length events
      → fold_replay a s m (all_ok (numbered n encoded))
        ≡ ok (foldl a.apply_event s events, n + length events)
  unfolding fold_replay numbered
  fold_replay-numbered_from trips events [] s m n h some_events =
      absurd (omega (arith, (fold_replay-numbered trips events [] s n h).1))
  fold_replay-numbered_from trips events (b ∷ bs) s m n h some_events =
      (fold_replay-numbered trips events (b ∷ bs) s n h).0

  pub fold_events_lem :
      (events : List Event) (p : Persistent Inner State)
      → p.seq_nr + length events < u64_mod
      → fold_events a events p
        ≡ record p { state = foldl a.apply_event p.state events; seq_nr = p.seq_nr + length events }
  unfolding fold_events
  fold_events_lem [] p h = ground arith
  fold_events_lem (event ∷ rest) p h = ground (
    arith,
    fold_events_lem rest
        (record p { state = a.apply_event p.state event; seq_nr = (p.seq_nr + 1) % u64_mod }),
  )

  snapshot_base-le :
      (s : Option (Bytes × ℕ)) (hi : ℕ) {base : State × ℕ}
      → SnapshotBelow s hi
      → snapshot_base a s ≡ ok base
      → base.1 ≤ hi
  unfolding snapshot_base
  snapshot_base-le none hi below h = ground arith
  snapshot_base-le (some (b, n)) hi below h = elim (Result-cases (a.state_serde.from_slice b)) [
    | inl (state, p) ↦ ground arith
    | inr (e, p) ↦ ground arith
  ]

  snapshot_base-at :
      (s : Option (Bytes × ℕ)) (bytes : Bytes) (n : ℕ) {base : State × ℕ}
      → snapshot_base a s ≡ ok base
      → s ≡ some (bytes, n)
      → base.1 ≡ n
  unfolding snapshot_base
  snapshot_base-at none bytes n p h = ground arith
  snapshot_base-at (some (b, m)) bytes n p h = elim (Result-cases (a.state_serde.from_slice b)) [
    | inl (state, q) ↦ ground arith
    | inr (e, q) ↦ ground arith
  ]

  recover_log-eq-ok :
      (e : Entry) {r : State × ℕ}
      → recover_log e ≡ ok r
      → (base : State × ℕ) × (snapshot_base a e.snapshot ≡ ok base)
        × (fold_replay a base.0 base.1 (all_ok (events_after base.1 e.events)) ≡ ok r)
  unfolding recover_log
  recover_log-eq-ok e h = elim (Result-cases (snapshot_base a e.snapshot)) [
    | inl (base, p) ↦ (base, p, ground arith)
    | inr (e, p) ↦ ground arith
  ]

  module _ (e : Entry) (history : List Event) (holds : Holds e history) where
    fold_replay-extended :
        RoundTrips a.event_serde
        → (events : List Event) (encoded : List Bytes) (s : State) (n : ℕ)
        → encode_events a events ≡ ok encoded
        → n ≤ e.last_seq
        → fold_replay a s n (all_ok (events_after n e.events)) ≡ ok (fold history, length history)
        → fold_replay a s n (all_ok (events_after n (e.events ++ numbered e.last_seq encoded)))
          ≡ ok (fold (history ++ events), length (history ++ events))
    fold_replay-extended trips events encoded s n h le prior =
        let tail = fold_replay-numbered trips events encoded (fold history) (length history) h in
        rw (
          events_after-append n e.events (numbered e.last_seq encoded),
          events_after-numbered n e.last_seq encoded le,
          fold_replay-append s n (events_after n e.events) (numbered e.last_seq encoded),
          prior,
          holds.count,
          tail.0,
          foldl-append,
          length-append,
        )

    -- A write of encoded events appends them to the history.
    pub push_events-Holds :
        RoundTrips a.event_serde
        → (events : List Event) (encoded : List Bytes) → encode_events a events ≡ ok encoded
        → length history + length events < u64_mod
        → Holds (push_events e encoded) (history ++ events)
    push_events-Holds trips events encoded h room =
        let size : length encoded ≡ length events =
          (fold_replay-numbered trips events encoded (fold history) 0 h).1 in
        let fits : e.last_seq + length encoded < u64_mod = omega (arith, holds.count) in
        let (base, p, q) = recover_log-eq-ok e holds.recovered in
        let le = snapshot_base-le e.snapshot e.last_seq holds.log.snapshot_below p in
        record {
          log = push_events-IsLog e holds.log encoded fits;
          count =
              rw (push_events_lem e encoded fits)
                (omega (arith, holds.count, length-append history events));
          recovered = rw (push_events_lem e encoded fits) (
              unfold recover_log in
              rw p (fold_replay-extended trips events encoded base.0 base.1 h le q));
        }

    -- A snapshot of the fold, taken where the log ends, leaves the history as it was.
    pub snapshot-Holds :
        RoundTrips a.state_serde
        → (bytes : Bytes) (n : ℕ) → n ≡ e.last_seq
        → a.state_serde.to_vec (fold history) ≡ ok bytes
        → Holds (record e { snapshot = some (bytes, n) }) history
    snapshot-Holds trips bytes n at_end h = record {
      log = snapshot-IsLog e holds.log bytes n (omega arith);
      count = holds.count;
      recovered =
          unfold recover_log snapshot_base fold_replay in
          rw
            (
              trips (fold history) bytes h,
              events_after_top 0 e.last_seq n e.events holds.log.climbs (omega arith),
            )
            (ground (arith, holds.count));
    }

    -- So does a compaction up to the snapshot.
    pub compact-Holds :
        (bytes : Bytes) (n : ℕ)
        → e.snapshot ≡ some (bytes, n)
        → Holds (record e { events = events_after n e.events }) history
    compact-Holds bytes n h =
        let (base, p, q) = recover_log-eq-ok e holds.recovered in
        let at : base.1 ≡ n = snapshot_base-at e.snapshot bytes n p h in
        record {
          log = compact-IsLog e holds.log n;
          count = holds.count;
          recovered =
              unfold recover_log in
              rw p (rw (events_after_compacted n base.1 e.events (omega arith)) q);
        }
