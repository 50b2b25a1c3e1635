-- ===== src/Tests/Counter.antt =====
-- A counter of numbers over the journal in memory: an event is a number to add.
use horsie_actor.Base.{ℕ, ◌+◌, refl, Option, [], ◌∷◌, Bytes, Text, Result, ok, err, arith, codes}
use horsie_actor.PersistenceId.{PersistenceId}
use horsie_actor.Journal.{InMemoryJournal, Entry, in_memory, entry_of, events_after}
use horsie_actor.Journal.Memory.{memory_contract}
use horsie_actor.Effect.{EventSourcedActor, Serde, RoundTrips, persist, and_snapshot, and_ack}
use horsie_actor.Persistent.{Persistent, snapshot_base, fold_replay}
use horsie_actor.Map.{get}
use horsie_actor.Persistent.History.{Holds, recover_log}
use horsie_actor.Persistent.Refinement.{Live}

abbrev pub read_number : Bytes → Result Text ℕ
read_number [] = err []
read_number (n ∷ []) = ok n
read_number (n ∷ m ∷ rest) = err []

abbrev pub number : Serde ℕ
number = record { to_vec = λ n. ok (n ∷ []); from_slice = read_number }

pub number-RoundTrips : RoundTrips number
number-RoundTrips a [] h = ground arith
number-RoundTrips a (x ∷ []) h = ground arith
number-RoundTrips a (x ∷ y ∷ rest) h = ground arith

abbrev pub pid : PersistenceId
pid = record { kind = codes "counter"; id = codes "7" }

-- It adds what it is told to, takes a snapshot, and acks on handle 7.
abbrev pub counter : EventSourcedActor (Unit {0}) ℕ ℕ ℕ ℕ
counter = record {
  persistence_id = λ inner. pid;
  initial_state = 0;
  apply_event = λ state event. state + event;
  handle_command = λ inner state cmd. (inner, and_ack (and_snapshot (persist (cmd ∷ []))) 7);
  on_recovery_complete = λ inner state. inner;
  on_events_persisted = λ inner events state. inner;
  event_serde = number;
  state_serde = number;
}

-- A log that holds one event, and nothing else in the journal.
abbrev pub one_event : Entry
one_event = record { events = (1, 5 ∷ []) ∷ []; last_seq = 1; snapshot = Option.none }

abbrev pub five : InMemoryJournal
five = (pid, one_event) ∷ []

abbrev pub instance_at : ℕ → ℕ → Persistent (Unit {0}) ℕ
instance_at state seq_nr = record { inner = tt; pid = pid; state = state; seq_nr = seq_nr }

pub five-Holds : Holds counter (entry_of five pid) (5 ∷ [])
unfolding entry_of recover_log snapshot_base fold_replay events_after get
five-Holds = record {
  log = record { climbs = ground arith; snapshot_below = tt; in_range = omega arith };
  count = refl;
  recovered = refl;
}

pub five-Live : Live counter in_memory memory_contract (instance_at 5 1) five (5 ∷ [])
unfolding memory_contract
five-Live = record { holds = five-Holds; state = refl; seq_nr = refl }
