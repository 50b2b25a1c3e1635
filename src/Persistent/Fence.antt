-- ===== src/Persistent/Fence.antt =====
-- The write fence of src/persistent.rs: what a superseded instance can do, over any journal that
-- keeps its contract and over the journal in memory.
use horsie_actor.Base.{
  ℕ, ◌+◌, ◌%◌, u64_mod, [], ◌∷◌, ◌≡◌, ◌≢◌, refl, ap, ◌∙◌, Bool-cases, List, arith, Bytes, ok, err,
  Result-cases, inl, inr, ◌==◌, nat_eq,
}
use mathlib.Core.Option
use horsie_actor.PersistenceId.{PersistenceId, to_string, pid_eq, pid_beq_iff}
use horsie_actor.Journal.{
  Journal, JournalError, JournalResult, InMemoryJournal, in_memory, conflict, entry_of, admit,
  persist as persist_log,
}
use horsie_actor.Journal.Contract.{Contract}
use horsie_actor.Journal.Memory.{memory_contract}
use horsie_actor.Effect.{EventSourcedActor, CommandEffect, Flow}
use horsie_actor.Persistent.{
  Persistent, fold_events, encode_events, persist_events, publish, after_write, handle, is_conflict,
}
use horsie_actor.Persistent.Refinement.{decided, outcome}

module _ {Inner Command Event State Ack J : Type 0}
    (a : EventSourcedActor Inner Command Event State Ack) (o : Journal J) (c : Contract o) where
  -- The journal shows every log as it was.
  abbrev pub SameLogs : J → J → Type 0
  SameLogs j j' = (q : PersistenceId) → c.view j' q ≡ c.view j q

  -- No command changes which log an instance writes.
  pid-fold_events :
      (events : List Event) (p : Persistent Inner State) → (fold_events a events p).pid ≡ p.pid
  unfolding fold_events
  pid-fold_events [] p = refl
  pid-fold_events (event ∷ rest) p =
      pid-fold_events rest
        (record p { state = a.apply_event p.state event; seq_nr = (p.seq_nr + 1) % u64_mod })

  pub pid-handle :
      (p : Persistent Inner State) (cmd : Command) (j : J) → (handle a o p cmd j).actor.pid ≡ p.pid
  unfolding handle after_write publish persist_events
  pid-handle p cmd j = ground (
    arith,
    pid-fold_events (a.handle_command p.inner p.state cmd).1.events
        (record p { inner = (a.handle_command p.inner p.state cmd).0 }),
  )

  persist_refused :
      (j : J) (pid : PersistenceId) (events : List Bytes) (n : ℕ)
      → (c.view j pid).last_seq ≢ n
      → ((e : JournalError) × ((o.persist j pid events n).0 ≡ err e))
        × SameLogs j (o.persist j pid events n).1
  persist_refused j pid events n behind =
      let kept = c.persist_lem j pid events n in
      elim (Result-cases (o.persist j pid events n).0) [
        | inl (_, p) ↦ absurd (behind (rw p at kept).0)
        | inr (e, p) ↦ (
          (e, p),
          λ q. elim (Bool-cases (q == pid)) [
            | inl same ↦ rw ((pid_beq_iff q pid).0 same) (rw p at kept)
            | inr other ↦ c.persist_frame j pid q events n (λ e. ground (arith, pid_beq_iff q pid))
          ],
        )
      ]

  persist_events_refused :
      (p : Persistent Inner State) (events : List Event) (j : J)
      → (c.view j p.pid).last_seq ≢ p.seq_nr
      → ((e : JournalError) × ((persist_events a o p events j).0 ≡ err e))
        × ((persist_events a o p events j).1 ≡ p)
        × SameLogs j (persist_events a o p events j).2
  unfolding persist_events
  persist_events_refused p events j behind = elim (Result-cases (encode_events a events)) [
    | inr (e, h) ↦ rw (h, persist_events) ((e, refl), refl, λ q. refl)
    | inl (encoded, h) ↦
        let ((e, r), same) = persist_refused j p.pid encoded p.seq_nr behind in
        rw (h, r, persist_events) ((e, refl), refl, same)
  ]

  after_refusal :
      (effect : CommandEffect Event Ack) (result : JournalResult (Unit {0}))
      (p : Persistent Inner State) (j : J) (e : JournalError)
      → result ≡ err e
      → ((after_write a o effect result p j).actor ≡ p)
        × ((after_write a o effect result p j).journal ≡ j)
  unfolding after_write publish
  after_refusal effect result p j e h = ground arith

  -- An instance whose number is not where its log ends cannot write: whatever the command, the
  -- durable write fails, every log stays as it was (no snapshot is taken and nothing is compacted),
  -- and the instance keeps its state and its number.
  pub stale_handle :
      (p : Persistent Inner State) (cmd : Command) (j : J)
      → (c.view j p.pid).last_seq ≢ p.seq_nr
      → ((e : JournalError) × (outcome a o c p cmd j ≡ err e))
        × SameLogs j (handle a o p cmd j).journal
        × ((handle a o p cmd j).actor.state ≡ p.state)
        × ((handle a o p cmd j).actor.seq_nr ≡ p.seq_nr)
        × ((handle a o p cmd j).actor.pid ≡ p.pid)
  unfolding handle
  stale_handle p cmd j behind =
      let before : Persistent Inner State = record p {
        inner = (a.handle_command p.inner p.state cmd).0;
      } in
      let effect = (a.handle_command p.inner p.state cmd).1 in
      let write = persist_events a o before effect.events j in
      let ((e, r), kept, same) = persist_events_refused before effect.events j behind in
      let (actor, journal) = after_refusal effect write.0 write.1 write.2 e r in
      (
        (e, r),
        λ q. rw journal (same q),
        ap (λ (x : Persistent Inner State). x.state) (actor ∙ kept),
        ap (λ (x : Persistent Inner State). x.seq_nr) (actor ∙ kept),
        ap (λ (x : Persistent Inner State). x.pid) (actor ∙ kept),
      )

module _ {Inner Command Event State Ack : Type 0}
    (a : EventSourcedActor Inner Command Event State Ack) where
  persist_events_conflict :
      (p : Persistent Inner State) (events : List Event) (encoded : List Bytes)
      (j : InMemoryJournal)
      → encode_events a events ≡ ok encoded
      → (entry_of j p.pid).last_seq ≢ p.seq_nr
      → (persist_events a in_memory p events j).0
        ≡ err (conflict (to_string p.pid) p.seq_nr (entry_of j p.pid).last_seq)
  unfolding persist_events persist_log admit
  persist_events_conflict p events encoded j h behind = ground arith

  -- Over the journal in memory a superseded instance is found out by any command whose events
  -- encode, one that decides no events included: the write is a conflict, the reply handle gets the
  -- conflict, and the instance stops.
  pub stale_instance_stops :
      (p : Persistent Inner State) (cmd : Command) (j : InMemoryJournal) (encoded : List Bytes)
      → encode_events a (decided a in_memory memory_contract p cmd).events ≡ ok encoded
      → (entry_of j p.pid).last_seq ≢ p.seq_nr
      → ((handle a in_memory p cmd j).flow ≡ Flow.stop)
        × ((handle a in_memory p cmd j).acked
            ≡ Option.map
                (λ k. (k, err (conflict (to_string p.pid) p.seq_nr (entry_of j p.pid).last_seq)))
                (decided a in_memory memory_contract p cmd).ack)
  unfolding handle after_write is_conflict
  stale_instance_stops p cmd j encoded h behind =
      let before : Persistent Inner State = record p {
        inner = (a.handle_command p.inner p.state cmd).0;
      } in
      let r =
        persist_events_conflict before (a.handle_command p.inner p.state cmd).1.events encoded j h
          behind in
      (ground (arith, r), rw r refl)
