-- ===== src/Persistent/Refinement.antt =====
-- src/persistent.rs over any journal that keeps its contract: the live actor and the log agree on
-- one history, whatever a command asks for and whatever fails.
use horsie_actor.Base.{
  ℕ, ◌+◌, ◌<◌, ◌≡◌, refl, sym, ◌∙◌, ap, some, not, ◌&&◌, List, [], ◌++◌, arith, Bytes, ok, err,
  is_ok, length, length-append, u64_mod, Result-cases, inl, inr, if_both,
}
use mathlib.Core.Option
use mathlib.Core.List.{foldl-append, append-nil}
use horsie_actor.PersistenceId.{PersistenceId}
use horsie_actor.Journal.{Entry, Journal, JournalResult, push_events, events_after}
use horsie_actor.Journal.Contract.{Contract}
use horsie_actor.Effect.{EventSourcedActor, CommandEffect, RoundTrips}
use horsie_actor.Persistent.{
  Persistent, encode_events, fold_events, persist_events, snapshot_state, publish, after_write,
  handle, is_empty,
}
use horsie_actor.Persistent.History.{
  Holds, fold, push_events-Holds, snapshot-Holds, compact-Holds, fold_events_lem,
}

module _ {Inner Command Event State Ack J : Type 0}
    (a : EventSourcedActor Inner Command Event State Ack) (o : Journal J) (c : Contract o) where
  -- The actor's state is the fold of the history that its log holds, and its number counts it.
  pub record Live (p : Persistent Inner State) (j : J) (history : List Event) : Type 0 where
    pub holds : Holds a (c.view j p.pid) history
    pub state : p.state ≡ fold a history
    pub seq_nr : p.seq_nr ≡ length history

  -- What a write adds to the history.
  abbrev pub accepted : JournalResult (Unit {0}) → List Event → List Event
  accepted (ok _) events = events
  accepted (err e) events = []

  -- The outcome of the durable write of one command.
  abbrev pub outcome : Persistent Inner State → Command → J → JournalResult (Unit {0})
  outcome p cmd j =
      let (inner, effect) = a.handle_command p.inner p.state cmd in
      (persist_events a o (record p { inner = inner }) effect.events j).0

  abbrev pub decided : Persistent Inner State → Command → CommandEffect Event Ack
  decided p cmd = (a.handle_command p.inner p.state cmd).1

module _ {Inner Command Event State Ack J : Type 0}
    (a : EventSourcedActor Inner Command Event State Ack) (o : Journal J) (c : Contract o)
    (trips : RoundTrips a.event_serde) (state_trips : RoundTrips a.state_serde) where
  -- A write that was refused.
  kept-Live :
      (p : Persistent Inner State) (j j' : J) (history : List Event)
      → c.view j' p.pid ≡ c.view j p.pid
      → Live a o c p j history
      → Live a o c p j' (history ++ [])
  kept-Live p j j' history same live =
      rw (append-nil history)
        (record { holds = rw same live.holds; state = live.state; seq_nr = live.seq_nr })

  written-Live :
      (p : Persistent Inner State) (j j' : J) (history events : List Event) (encoded : List Bytes)
      → encode_events a events ≡ ok encoded
      → length history + length events < u64_mod
      → c.view j' p.pid ≡ push_events (c.view j p.pid) encoded
      → Live a o c p j history
      → Live a o c (fold_events a events p) j' (history ++ events)
  written-Live p j j' history events encoded h room same live =
      let fits : p.seq_nr + length events < u64_mod = omega (arith, live.seq_nr) in
      rw (fold_events_lem a events p fits) (record {
        holds =
            rw same
              (push_events-Holds a (c.view j p.pid) history live.holds trips events encoded h room);
        state = rw (live.state, foldl-append);
        seq_nr = omega (arith, live.seq_nr, length-append history events);
      })

  persist_events-Live :
      (p : Persistent Inner State) (j : J) (history events : List Event)
      → length history + length events < u64_mod
      → Live a o c p j history
      → Live a o c
          (persist_events a o p events j).1
          (persist_events a o p events j).2
          (history ++ accepted a o c (persist_events a o p events j).0 events)
  unfolding persist_events
  persist_events-Live p j history events room live = elim (Result-cases (encode_events a events)) [
    | inr (e, h) ↦ rw (h, persist_events) (kept-Live p j j history refl live)
    | inl (encoded, h) ↦
        let kept = c.persist_lem j p.pid encoded p.seq_nr in
        elim (Result-cases (o.persist j p.pid encoded p.seq_nr).0) [
          | inr (e, q) ↦ rw (h, q, persist_events) (kept-Live p j _ history (rw q at kept) live)
          | inl (_, q) ↦
              rw (h, q, persist_events)
                (written-Live p j _ history events encoded h room (rw q at kept).1 live)
        ]
  ]

  compacted-Holds :
      (pid : PersistenceId) (history : List Event) (bytes : Bytes) (n : ℕ) (j : J)
      → (c.view j pid).snapshot ≡ some (bytes, n)
      → Holds a (c.view j pid) history
      → Holds a (c.view (o.delete_events_before j pid n).1 pid) history
  compacted-Holds pid history bytes n j at holds =
      let done = c.delete_lem j pid n in
      elim (Result-cases (o.delete_events_before j pid n).0) [
        | inr (e, q) ↦
            let same : c.view (o.delete_events_before j pid n).1 pid ≡ c.view j pid =
              rw q at done in
            rw same holds
        | inl (_, q) ↦
            let cut : c.view (o.delete_events_before j pid n).1 pid
                ≡ record (c.view j pid) { events = events_after n (c.view j pid).events } =
              rw q at done in
            rw cut (compact-Holds a (c.view j pid) history holds bytes n at)
      ]

  snapshot_state-Holds :
      (pid : PersistenceId) (state : State) (history : List Event) (n : ℕ) (j : J)
      → state ≡ fold a history
      → n ≡ length history
      → Holds a (c.view j pid) history
      → Holds a (c.view (snapshot_state a o pid state n j) pid) history
  unfolding snapshot_state
  snapshot_state-Holds pid state history n j folded at_end holds =
      elim (Result-cases (a.state_serde.to_vec state)) [
        | inr (e, h) ↦ rw (h, snapshot_state) holds
        | inl (bytes, h) ↦
            let saved = c.snapshot_lem j pid bytes n in
            elim (Result-cases (o.save_snapshot j pid bytes n).0) [
              | inr (e, q) ↦
                  let same : c.view (o.save_snapshot j pid bytes n).1 pid ≡ c.view j pid =
                    rw q at saved in
                  rw (h, q, snapshot_state) (rw same holds)
              | inl (_, q) ↦
                  rw (h, q, snapshot_state)
                    (compacted-Holds pid history bytes n (o.save_snapshot j pid bytes n).1
                      (ap (λ (e : Entry). e.snapshot) (rw q at saved).1)
                      (rw (rw q at saved).1 (
                        snapshot-Holds a (c.view j pid) history holds state_trips bytes n
                          (at_end ∙ sym holds.count) (rw folded at h))))
            ]
      ]

  publish-Live :
      (result : JournalResult (Unit {0})) (events : List Event) (p : Persistent Inner State) (j : J)
      (history : List Event)
      → Live a o c p j history
      → Live a o c (publish a o result events p) j history
  unfolding publish
  publish-Live result events p j history live =
      if_both (λ q. Live a o c q j history) (is_ok result && not (is_empty events))
        (λ _. record { holds = live.holds; state = live.state; seq_nr = live.seq_nr }) (λ _. live)

  after_write-Live :
      (effect : CommandEffect Event Ack) (result : JournalResult (Unit {0}))
      (p : Persistent Inner State) (j : J) (history : List Event)
      → Live a o c p j history
      → Live a o c
          (after_write a o effect result p j).actor
          (after_write a o effect result p j).journal
          history
  unfolding after_write
  after_write-Live effect result p j history live =
      publish-Live result effect.events p _ history (record {
        holds =
            if_both (λ j'. Holds a (c.view j' p.pid) history)
              (effect.snapshot && (is_ok result && not effect.stop))
              (λ _.
                snapshot_state-Holds p.pid p.state history p.seq_nr j live.state live.seq_nr
                  live.holds)
              (λ _. live.holds);
        state = live.state;
        seq_nr = live.seq_nr;
      })

  -- Handling a command keeps the live actor and its log in agreement, over any journal that keeps
  -- the contract: the history grows by the decided events if the write succeeded, and by nothing if
  -- it failed; the actor's state is the fold of that history, recovery rebuilds it from the log, and
  -- the reply handle, if there is one, gets the outcome of the write.
  pub handle-Live :
      (p : Persistent Inner State) (cmd : Command) (j : J) (history : List Event)
      → length history + length (decided a o c p cmd).events < u64_mod
      → Live a o c p j history
      → Live a o c
          (handle a o p cmd j).actor
          (handle a o p cmd j).journal
          (history ++ accepted a o c (outcome a o c p cmd j) (decided a o c p cmd).events)
        × ((handle a o p cmd j).acked
            ≡ Option.map (λ k. (k, outcome a o c p cmd j)) (decided a o c p cmd).ack)
  unfolding handle
  handle-Live p cmd j history room live =
      let before : Persistent Inner State = record p {
        inner = (a.handle_command p.inner p.state cmd).0;
      } in
      let effect = (a.handle_command p.inner p.state cmd).1 in
      let write = persist_events a o before effect.events j in
      (
        after_write-Live effect write.0 write.1 write.2 _ (
            persist_events-Live before j history effect.events room
              (record { holds = live.holds; state = live.state; seq_nr = live.seq_nr })),
        unfold after_write in refl,
      )
