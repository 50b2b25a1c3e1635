-- ===== src/Persistent/Recovering.antt =====
-- What the recovery of an actor in src/persistent.rs makes of a log that stands for a history.
use horsie_actor.Base.{
  ℕ, ◌≡◌, refl, ap, List, [], ◌∷◌, arith, Bytes, ok, err, Result-cases, inl, inr,
}
use horsie_actor.PersistenceId.{PersistenceId}
use horsie_actor.Journal.{Journal, JournalResult, all_ok}
use horsie_actor.Journal.Contract.{Contract}
use horsie_actor.Effect.{EventSourcedActor}
use horsie_actor.Persistent.{
  Persistent, snapshot_base, fold_replay, recover, recover_between, on_start, on_start_between,
}
use horsie_actor.Persistent.History.{Holds, recover_log}
use horsie_actor.Persistent.Refinement.{Live}

module _ {Inner Command Event State Ack J : Type 0}
    (a : EventSourcedActor Inner Command Event State Ack) (o : Journal J) (c : Contract o) where
  pub fold_replay-all_ok :
      (s : State) (n : ℕ) (items : List (JournalResult (ℕ × Bytes))) {r : State × ℕ}
      → fold_replay a s n items ≡ ok r
      → (xs : List (ℕ × Bytes)) × (items ≡ all_ok xs)
  unfolding fold_replay
  fold_replay-all_ok s n [] h = ([], refl)
  fold_replay-all_ok s n (err e ∷ items) h = ground arith
  fold_replay-all_ok s n (ok (m, b) ∷ items) h = elim (Result-cases (a.event_serde.from_slice b)) [
    | inl (event, q) ↦
        let (xs, e) =
          fold_replay-all_ok (a.apply_event s event) m items (rw (q, fold_replay) at h) in
        ((m, b) ∷ xs, ap (λ r. ok (m, b) ∷ r) e)
    | inr (e, q) ↦ ground arith
  ]

  -- A recovery that ends without an error has read the whole log.
  pub recover-recover_log :
      (j : J) (pid : PersistenceId) {r : State × ℕ}
      → recover a o j pid ≡ ok r
      → recover_log a (c.view j pid) ≡ ok r
  unfolding recover recover_between recover_log
  recover-recover_log j pid {r} h = elim (Result-cases (o.latest_snapshot j pid)) [
    | inr (e, p) ↦ ground arith
    | inl (s, p) ↦ elim (Result-cases (snapshot_base a s)) [
      | inr (e, q) ↦ ground arith
      | inl (base, q) ↦
          let tail : fold_replay a base.0 base.1 (o.replay j pid base.1) ≡ ok r = ground arith in
          let (xs, e) = fold_replay-all_ok base.0 base.1 (o.replay j pid base.1) tail in
          let whole = c.replay_lem j pid base.1 xs e in
          rw (← c.latest_lem j pid p, q, ← whole, ← e) tail
    ]
  ]

  -- Recovery that succeeds on a log that stands for a history makes an actor that agrees with it.
  pub on_start-Live :
      (p q : Persistent Inner State) (j : J) (history : List Event)
      → Holds a (c.view j p.pid) history
      → on_start a o j p ≡ ok q
      → Live a o c q j history × (q.pid ≡ p.pid)
  unfolding on_start on_start_between recover
  on_start-Live p q j history holds h = elim (Result-cases (recover a o j p.pid)) [
    | inr (e, r) ↦ ground arith
    | inl (found, r) ↦
        let same = recover-recover_log j p.pid r in
        let at : q.pid ≡ p.pid = ground arith in
        (
          record {
            holds = rw at holds;
            state = ground (arith, holds.recovered);
            seq_nr = ground (arith, holds.recovered);
          },
          at,
        )
  ]

  -- What recovery reads first is the snapshot alone: while that stays, the events may come later.
  pub on_start_between-on_start :
      (p : Persistent Inner State) (j later : J)
      → o.latest_snapshot j p.pid ≡ o.latest_snapshot later p.pid
      → on_start_between a o j later p ≡ on_start a o later p
  unfolding on_start on_start_between recover_between
  on_start_between-on_start p j later same = rw same refl
