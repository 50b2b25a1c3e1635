-- ===== src/Journal.antt =====
-- src/journal.rs and `JournalError` of src/error.rs: the journal's operations as an interface, and
-- the journal that keeps its logs in memory. The lock makes each operation of it one step.
pub mod Contract
pub mod Memory
pub mod Log
pub mod Fence
pub mod Reach
use horsie_actor.Base.{
  ℕ, ◌+◌, ◌%◌, ◌≡◌, Bool, Option, none, some, List, [], ◌∷◌, ◌++◌, map, Text, Bytes, Result, ok,
  err, ◌==◌, nat_eq, ltb, retain, if◌then◌else◌, ok_or, ◌>>=◌, codes, u64_mod,
}
use horsie_actor.PersistenceId.{PersistenceId, to_string, pid_eq}
use horsie_actor.Map.{Map, get, insert, remove}

pub data JournalError : Type 0 where
  backend : Text → JournalError
  serialization : Text → JournalError
  conflict : Text → ℕ → ℕ → JournalError

abbrev pub JournalResult : Type 0 → Type 0
JournalResult A = Result JournalError A

-- One log: its events with their numbers, the number given last, and the snapshot.
pub record Entry : Type 0 where
  pub events : List (ℕ × Bytes)
  pub last_seq : ℕ
  pub snapshot : Option (Bytes × ℕ)

abbrev pub empty_entry : Entry
empty_entry = record { events = []; last_seq = 0; snapshot = none }

-- The operations of the trait `Journal`, over the states of one implementation.
pub record Journal (J : Type 0) : Type 0 where
  pub persist : J → PersistenceId → List Bytes → ℕ → JournalResult (Unit {0}) × J
  pub replay : J → PersistenceId → ℕ → List (JournalResult (ℕ × Bytes))
  pub save_snapshot : J → PersistenceId → Bytes → ℕ → JournalResult (Unit {0}) × J
  pub latest_snapshot : J → PersistenceId → JournalResult (Option (Bytes × ℕ))
  pub delete_events_before : J → PersistenceId → ℕ → JournalResult (Unit {0}) × J
  pub copy_snapshot : J → PersistenceId → PersistenceId → JournalResult (Unit {0}) × J
  pub last_seq : J → PersistenceId → JournalResult ℕ
  pub clear : J → PersistenceId → JournalResult (Unit {0}) × J

unfoldable pub admit : Entry → PersistenceId → ℕ → JournalResult (Unit {0})
admit entry pid expected_last_seq =
    if entry.last_seq == expected_last_seq
    then ok tt
    else err (conflict (to_string pid) expected_last_seq entry.last_seq)

-- The body of the loop of `persist`: the counter moves, and the event is pushed under it.
unfoldable pub push_event : Entry → Bytes → Entry
push_event entry bytes = record entry {
  events = entry.events ++ ((entry.last_seq + 1) % u64_mod, bytes) ∷ [];
  last_seq = (entry.last_seq + 1) % u64_mod;
}

unfoldable pub push_events : Entry → List Bytes → Entry
push_events entry [] = entry
push_events entry (bytes ∷ rest) = push_events (push_event entry bytes) rest

abbrev pub InMemoryJournal : Type 0
InMemoryJournal = Map PersistenceId Entry

abbrev pub or_default : Option Entry → Entry
or_default none = empty_entry
or_default (some e) = e

-- What `map.entry(pid).or_default()` refers to.
unfoldable pub entry_of : InMemoryJournal → PersistenceId → Entry
entry_of j pid = or_default (get j pid)

-- The slot that `or_default` made stays when the write is refused.
unfoldable pub persist :
    InMemoryJournal → PersistenceId → List Bytes → ℕ → JournalResult (Unit {0}) × InMemoryJournal
unfolding admit
persist j pid events expected_last_seq =
    let entry = entry_of j pid in
    elim (admit entry pid expected_last_seq) [
      | ok _ ↦ (ok tt, insert j pid (push_events entry events))
      | err e ↦ (err e, insert j pid entry)
    ]

-- The events numbered above `after_seq`.
unfoldable pub events_after : ℕ → List (ℕ × Bytes) → List (ℕ × Bytes)
events_after after_seq = retain (λ e. ltb after_seq e.0)

abbrev pub all_ok : List (ℕ × Bytes) → List (JournalResult (ℕ × Bytes))
all_ok = map ok

unfoldable pub replay : InMemoryJournal → PersistenceId → ℕ → List (JournalResult (ℕ × Bytes))
unfolding events_after
replay j pid after_seq = elim (get j pid) [
  | none ↦ []
  | some e ↦ all_ok (events_after after_seq e.events)
]

unfoldable pub save_snapshot :
    InMemoryJournal → PersistenceId → Bytes → ℕ → JournalResult (Unit {0}) × InMemoryJournal
unfolding admit
save_snapshot j pid state seq_nr =
    let entry = entry_of j pid in
    elim (admit entry pid seq_nr) [
      | ok _ ↦ (ok tt, insert j pid (record entry { snapshot = some (state, seq_nr) }))
      | err e ↦ (err e, insert j pid entry)
    ]

abbrev pub snapshot_of : Option Entry → Option (Bytes × ℕ)
snapshot_of none = none
snapshot_of (some e) = e.snapshot

unfoldable pub latest_snapshot :
    InMemoryJournal → PersistenceId → JournalResult (Option (Bytes × ℕ))
latest_snapshot j pid = ok (snapshot_of (get j pid))

unfoldable pub delete_events_before :
    InMemoryJournal → PersistenceId → ℕ → JournalResult (Unit {0}) × InMemoryJournal
unfolding events_after
delete_events_before j pid seq_nr = elim (get j pid) [
  | none ↦ (ok tt, j)
  | some e ↦ (ok tt, insert j pid (record e { events = events_after seq_nr e.events }))
]

unfoldable pub copy_snapshot :
    InMemoryJournal → PersistenceId → PersistenceId → JournalResult (Unit {0}) × InMemoryJournal
copy_snapshot j from to = elim (snapshot_of (get j from)) [
  | none ↦ (err (backend (codes "no snapshot for '" ++ to_string from ++ codes "'")), j)
  | some (state, seq) ↦
      (ok tt, insert j to (record { events = []; last_seq = seq; snapshot = some (state, seq) }))
]

unfoldable pub last_seq : InMemoryJournal → PersistenceId → JournalResult ℕ
last_seq j pid = ok (elim (get j pid) [ none ↦ 0 | some e ↦ e.last_seq ])

unfoldable pub clear : InMemoryJournal → PersistenceId → JournalResult (Unit {0}) × InMemoryJournal
clear j pid = (ok tt, remove j pid)

abbrev pub in_memory : Journal InMemoryJournal
in_memory = record {
  persist = persist;
  replay = replay;
  save_snapshot = save_snapshot;
  latest_snapshot = latest_snapshot;
  delete_events_before = delete_events_before;
  copy_snapshot = copy_snapshot;
  last_seq = last_seq;
  clear = clear;
}
