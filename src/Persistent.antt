-- ===== src/Persistent.antt =====
-- src/persistent.rs: recovery, the durable write with the fold behind it, snapshots, and the
-- handling of one command, over any journal. The journal is shared, so it is passed through.
pub mod History
pub mod Refinement
pub mod Recovering
pub mod Fence
pub mod World
pub mod Race
use horsie_actor.Base.{
  ℕ, ◌+◌, ◌%◌, Bool, true, false, ◌&&◌, ◌||◌, not, Option, none, some, List, [], ◌∷◌, Result, ok,
  err, is_ok, map_err, ◌>>=◌, if◌then◌else◌, Bytes, u64_mod,
}
use mathlib.Core.Option
use horsie_actor.PersistenceId.{PersistenceId}
use horsie_actor.Journal.{Journal, JournalError, JournalResult, serialization, backend, conflict}
use horsie_actor.Effect.{EventSourcedActor, CommandEffect, Flow}

-- `StartError::Recovery`.
pub data StartError : Type 0 where
  recovery : JournalError → StartError

pub record Persistent (Inner State : Type 0) : Type 0 where
  pub inner : Inner
  pub pid : PersistenceId
  pub state : State
  pub seq_nr : ℕ

-- What handling a command leaves behind, `acked` being what was sent on the reply handle.
pub record Handled (Inner State Ack J : Type 0) : Type 0 where
  pub actor : Persistent Inner State
  pub journal : J
  pub acked : Option (Ack × JournalResult (Unit {0}))
  pub flow : Flow

unfoldable pub is_conflict : JournalResult (Unit {0}) → Bool
is_conflict (err (conflict pid expected actual)) = true
is_conflict (err (backend text)) = false
is_conflict (err (serialization text)) = false
is_conflict (ok _) = false

abbrev pub is_empty {ℓ} : {A : Type ℓ} → List A → Bool
is_empty [] = true
is_empty (x ∷ xs) = false

module _ {Inner Command Event State Ack : Type 0}
    (a : EventSourcedActor Inner Command Event State Ack) where
  unfoldable pub new : Inner → Persistent Inner State
  new inner = record {
    inner = inner;
    pid = a.persistence_id inner;
    state = a.initial_state;
    seq_nr = 0;
  }

  -- Where recovery starts: at the snapshot, or at the initial state.
  unfoldable pub snapshot_base : Option (Bytes × ℕ) → JournalResult (State × ℕ)
  snapshot_base none = ok (a.initial_state, 0)
  snapshot_base (some (bytes, seq)) = do
    state ← map_err serialization (a.state_serde.from_slice bytes)
    ok (state, seq)

  -- The loop over the replayed stream.
  unfoldable pub fold_replay :
      State → ℕ → List (JournalResult (ℕ × Bytes)) → JournalResult (State × ℕ)
  fold_replay state seq_nr [] = ok (state, seq_nr)
  fold_replay state seq_nr (err e ∷ rest) = err e
  fold_replay state seq_nr (ok (seq, bytes) ∷ rest) = elim (a.event_serde.from_slice bytes) [
    | err e ↦ err (serialization e)
    | ok event ↦ fold_replay (a.apply_event state event) seq rest
  ]

  -- The loop that encodes a batch, which stops at the first event that does not encode.
  unfoldable pub encode_events : List Event → JournalResult (List Bytes)
  encode_events [] = ok []
  encode_events (event ∷ rest) = do
    bytes ← map_err serialization (a.event_serde.to_vec event)
    encoded ← encode_events rest
    ok (bytes ∷ encoded)

  -- The loop that folds a written batch into the state and counts it.
  unfoldable pub fold_events : List Event → Persistent Inner State → Persistent Inner State
  fold_events [] p = p
  fold_events (event ∷ rest) p =
      fold_events rest
        (record p { state = a.apply_event p.state event; seq_nr = (p.seq_nr + 1) % u64_mod })

module _ {Inner Command Event State Ack J : Type 0}
    (a : EventSourcedActor Inner Command Event State Ack) (o : Journal J) where
  -- `recover` reads the snapshot and then the log. The reads are two operations of the journal, so
  -- another writer's may come between; `then` is the journal that the second one finds.
  unfoldable pub recover_between : J → J → PersistenceId → JournalResult (State × ℕ)
  unfolding snapshot_base fold_replay
  recover_between j later pid = do
    snapshot ← o.latest_snapshot j pid
    base ← snapshot_base a snapshot
    fold_replay a base.0 base.1 (o.replay later pid base.1)

  unfoldable pub recover : J → PersistenceId → JournalResult (State × ℕ)
  unfolding recover_between
  recover j pid = recover_between j j pid

  -- `on_start`, whose recovery reads twice.
  unfoldable pub on_start_between :
      J → J → Persistent Inner State → Result StartError (Persistent Inner State)
  unfolding recover_between
  on_start_between j later p = do
    recovered ← map_err recovery (recover_between j later p.pid)
    ok (record p {
      inner = a.on_recovery_complete p.inner recovered.0;
      state = recovered.0;
      seq_nr = recovered.1;
    })

  unfoldable pub on_start : J → Persistent Inner State → Result StartError (Persistent Inner State)
  unfolding on_start_between
  on_start j p = on_start_between j j p

  unfoldable pub persist_events :
      Persistent Inner State
      → List Event
      → J
      → JournalResult (Unit {0}) × Persistent Inner State × J
  unfolding encode_events fold_events
  persist_events p events j = elim (encode_events a events) [
    | err e ↦ (err e, p, j)
    | ok encoded ↦
        let (result, j') = o.persist j p.pid encoded p.seq_nr in
        elim result [ err e ↦ (err e, p, j') | ok _ ↦ (ok tt, fold_events a events p, j') ]
  ]

  unfoldable pub snapshot_state : PersistenceId → State → ℕ → J → J
  snapshot_state pid state seq_nr j = elim (a.state_serde.to_vec state) [
    | err e ↦ j
    | ok bytes ↦
        let (saved, j') = o.save_snapshot j pid bytes seq_nr in
        elim saved [ err e ↦ j' | ok _ ↦ (o.delete_events_before j' pid seq_nr).1 ]
  ]

  -- `on_events_persisted` runs after a batch that was written and is not empty.
  unfoldable pub publish :
      JournalResult (Unit {0}) → List Event → Persistent Inner State → Persistent Inner State
  publish result events p =
      if is_ok result && not (is_empty events)
      then record p { inner = a.on_events_persisted p.inner events p.state }
      else p

  -- What follows the write: publish, snapshot, ack, stop.
  unfoldable pub after_write :
      CommandEffect Event Ack
      → JournalResult (Unit {0})
      → Persistent Inner State
      → J
      → Handled Inner State Ack J
  unfolding publish snapshot_state is_conflict
  after_write effect result p j = record {
    actor = publish result effect.events p;
    journal =
        if effect.snapshot && (is_ok result && not effect.stop)
        then snapshot_state p.pid p.state p.seq_nr j
        else j;
    acked = Option.map (λ ack. (ack, result)) effect.ack;
    flow = if effect.stop || is_conflict result then Flow.stop else Flow.continue;
  }

  unfoldable pub handle : Persistent Inner State → Command → J → Handled Inner State Ack J
  unfolding persist_events after_write
  handle p cmd j =
      let (inner, effect) = a.handle_command p.inner p.state cmd in
      let (result, p', j') = persist_events (record p { inner = inner }) effect.events j in
      after_write effect result p' j'
