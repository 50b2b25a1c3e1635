-- ===== src/Units/Counters.antt =====
-- The tests of src/persistent.rs, but the last one, and their counter. The numbers they use are not
-- negative; what is told to the counter is handled in order, and what it answers is kept in it.
use horsie_actor.Base.{
  ℕ, ◌+◌, ◌≡◌, refl, Bool, true, false, not, ◌&&◌, Option, none, some, List, [], ◌∷◌, ◌++◌, Text,
  Bytes, Result, ok, err, is_ok, codes, ◌==◌, nat_eq, list_eq, length,
}
use horsie_actor.Map.{get, insert}
use horsie_actor.PersistenceId.{PersistenceId}
use horsie_actor.Journal.{
  Journal, InMemoryJournal, JournalResult, in_memory, entry_of, admit, push_event, push_events,
  persist, events_after, replay, save_snapshot, latest_snapshot, delete_events_before,
}
use horsie_actor.Testkit.{
  FaultyJournal, wrapping, fail_persist_after, delegated, faulty_persist, faulty_replay, faulty,
}
use horsie_actor.Effect
use horsie_actor.Effect.{
  Flow, CommandEffect, EventSourcedActor, Serde, no_effect, and_ack, and_snapshot, and_stop,
  snapshot, stop_effect,
}
use horsie_actor.Persistent.{
  Persistent, is_conflict, new, snapshot_base, fold_replay, encode_events, fold_events,
  recover_between, recover, on_start, on_start_between, persist_events, snapshot_state, publish,
  after_write, handle,
}
use horsie_actor.Units.{all_hold}

record Counter : Type 0 where
  id : Text
  reporting : Bool
  reported : Option ℕ
  persisted : List ℕ
  answers : List ℕ

-- `inc_ack` has the number of its reply handle.
data CounterCmd : Type 0 where
  inc : ℕ → CounterCmd
  inc_ack : ℕ → ℕ → CounterCmd
  take_snapshot get_value stop : CounterCmd

abbrev read_one : Bytes → Result Text ℕ
read_one (n ∷ []) = ok n
read_one _ = err []

abbrev number : Serde ℕ
number = record { to_vec = λ n. ok (n ∷ []); from_slice = read_one }

unfoldable handle_command : Counter → ℕ → CounterCmd → Counter × CommandEffect ℕ ℕ
unfolding no_effect and_ack snapshot stop_effect Effect.persist
handle_command c value (inc n) = (c, Effect.persist (n ∷ []))
handle_command c value (inc_ack n ack) = (c, and_ack (Effect.persist (n ∷ [])) ack)
handle_command c value take_snapshot = (c, snapshot)
handle_command c value get_value = (record c { answers = c.answers ++ value ∷ [] }, no_effect)
handle_command c value stop = (c, stop_effect)

-- What the test hears at startup, if the counter was made to report.
abbrev report_value : Counter → ℕ → Counter
report_value c value = elim c.reporting [
  | true ↦ record c { reporting = false; reported = some value }
  | false ↦ c
]

abbrev counter : EventSourcedActor Counter CounterCmd ℕ ℕ ℕ
counter = record {
  persistence_id = λ c. record { kind = codes "counter"; id = c.id };
  initial_state = 0;
  apply_event = λ value n. value + n;
  handle_command = handle_command;
  on_recovery_complete = report_value;
  on_events_persisted = λ c events value. record c { persisted = c.persisted ++ value ∷ [] };
  event_serde = number;
  state_serde = number;
}

-- What a test sees: the counter at the end, the journal, and whether each write acked as durable.
record Seen (J : Type 0) : Type 0 where
  counted : Counter
  journal : J
  durable : List Bool

abbrev acked : Option (ℕ × JournalResult (Unit {0})) → List Bool
acked none = []
acked (some (ack, result)) = is_ok result ∷ []

module _ {J : Type 0} (o : Journal J) where
  unfoldable told : Persistent Counter ℕ → J → List Bool → List CounterCmd → Seen J
  unfolding handle
  told p j durable [] = record { counted = p.inner; journal = j; durable = durable }
  told p j durable (cmd ∷ cmds) =
      let h = handle counter o p cmd j in
      let acks = durable ++ acked h.acked in
      let later = told h.actor h.journal acks cmds in
      elim h.flow [
        | Flow.continue ↦ later
        | Flow.stop ↦ record { counted = h.actor.inner; journal = h.journal; durable = acks }
      ]

  -- A counter starts and is told the commands.
  unfoldable started : Counter → J → List CounterCmd → Seen J
  unfolding told on_start new
  started fresh j cmds = elim (on_start counter o j (new counter fresh)) [
    | err e ↦ record { counted = fresh; journal = j; durable = [] }
    | ok p ↦ told p j [] cmds
  ]

  abbrev ran : Text → J → List CounterCmd → Seen J
  ran id j cmds =
      started record { id = id; reporting = false; reported = none; persisted = []; answers = [] } j
        cmds

  abbrev revived : Text → J → Seen J
  revived id j =
      started record { id = id; reporting = true; reported = none; persisted = []; answers = [] } j
        []

abbrev failing : FaultyJournal InMemoryJournal
failing = fail_persist_after (wrapping []) 0

abbrev durably : List Bool → Bool
durably (b ∷ []) = b
durably _ = false

abbrev is_reported : Option ℕ → ℕ → Bool
is_reported none n = false
is_reported (some m) n = m == n

abbrev persists_and_applies_events : Bool
persists_and_applies_events =
    (ran in_memory (codes "c1") [] (inc 3 ∷ inc 4 ∷ get_value ∷ [])).counted.answers == (7 ∷ [])

abbrev ask_with_persist_and_ack_returns_after_durable_write : Bool
ask_with_persist_and_ack_returns_after_durable_write =
    let seen = ran in_memory (codes "ack") [] (inc_ack 5 0 ∷ get_value ∷ []) in
    durably seen.durable && seen.counted.answers == (5 ∷ [])

abbrev ask_with_persist_and_ack_reports_journal_failure : Bool
ask_with_persist_and_ack_reports_journal_failure =
    let seen = ran (faulty in_memory) (codes "fail") failing (inc_ack 5 0 ∷ get_value ∷ []) in
    (length seen.durable == 1) && (not (durably seen.durable) && seen.counted.answers == (0 ∷ []))

abbrev on_events_persisted_runs_after_the_fold : Bool
on_events_persisted_runs_after_the_fold =
    let seen = ran in_memory (codes "hook") [] (inc 3 ∷ inc 4 ∷ get_value ∷ []) in
    seen.counted.answers == (7 ∷ []) && seen.counted.persisted == (3 ∷ 7 ∷ [])

abbrev on_events_persisted_is_skipped_when_the_write_fails : Bool
on_events_persisted_is_skipped_when_the_write_fails =
    let seen = ran (faulty in_memory) (codes "hookfail") failing (inc_ack 5 0 ∷ []) in
    (length seen.durable == 1) && (not (durably seen.durable) && seen.counted.persisted == [])

abbrev recovers_state_from_event_log_after_restart : Bool
recovers_state_from_event_log_after_restart =
    let first = ran in_memory (codes "c2") [] (inc 5 ∷ inc 10 ∷ get_value ∷ stop ∷ []) in
    let again = revived in_memory (codes "c2") first.journal in
    first.counted.answers == (15 ∷ []) && is_reported again.counted.reported 15

abbrev recovers_from_snapshot_after_compaction : Bool
recovers_from_snapshot_after_compaction =
    let first =
      ran in_memory (codes "c3") []
        (inc 2 ∷ inc 2 ∷ take_snapshot ∷ inc 1 ∷ get_value ∷ stop ∷ []) in
    let pid : PersistenceId = record { kind = codes "counter"; id = codes "c3" } in
    let again = revived in_memory (codes "c3") first.journal in
    all_hold (
      (first.counted.answers == (5 ∷ []))
      ∷ (length (replay first.journal pid 0) == 1)
      ∷ is_reported again.counted.reported 5
      ∷ [])

-- The counter passes its tests.
counters-pass :
    all_hold (
      persists_and_applies_events ∷ ask_with_persist_and_ack_returns_after_durable_write
      ∷ ask_with_persist_and_ack_reports_journal_failure ∷ on_events_persisted_runs_after_the_fold
      ∷ on_events_persisted_is_skipped_when_the_write_fails
      ∷ recovers_state_from_event_log_after_restart ∷ recovers_from_snapshot_after_compaction ∷ [])
    ≡ true
unfolding started told handle_command no_effect and_ack and_snapshot and_stop snapshot stop_effect
    Effect.persist is_conflict new snapshot_base fold_replay encode_events fold_events
    recover_between recover on_start on_start_between persist_events snapshot_state publish
    after_write handle persist replay save_snapshot latest_snapshot delete_events_before admit
    push_event push_events events_after entry_of get insert wrapping fail_persist_after delegated
    faulty_persist faulty_replay faulty
counters-pass = refl
