-- ===== src/Journal/Contract.antt =====
-- What the trait `Journal` of src/journal.rs promises its callers, over any implementation: a view
-- of each log, and the effect of each operation on the views.
use horsie_actor.Base.{ℕ, ◌≡◌, ◌≢◌, Option, List, [], Bytes, ok, err}
use horsie_actor.PersistenceId.{PersistenceId}
use horsie_actor.Journal.{
  JournalResult, Entry, Journal, empty_entry, push_events, events_after, all_ok,
}

-- A write lands whole, and only on a log that ends where the writer expects; otherwise it leaves
-- the log as it was.
abbrev pub Persisted : Entry → List Bytes → ℕ → JournalResult (Unit {0}) → Entry → Type 0
Persisted v events expected (ok _) w = (v.last_seq ≡ expected) × (w ≡ push_events v events)
Persisted v events expected (err _) w = w ≡ v

abbrev pub Snapshotted : Entry → Bytes → ℕ → JournalResult (Unit {0}) → Entry → Type 0
Snapshotted v state seq_nr (ok _) w =
    (v.last_seq ≡ seq_nr) × (w ≡ record v { snapshot = Option.some (state, seq_nr) })
Snapshotted v state seq_nr (err _) w = w ≡ v

abbrev pub Compacted : Entry → ℕ → JournalResult (Unit {0}) → Entry → Type 0
Compacted v seq_nr (ok _) w = w ≡ record v { events = events_after seq_nr v.events }
Compacted v seq_nr (err _) w = w ≡ v

-- A copy starts an empty log behind the snapshot that it copies.
abbrev pub Copied : Entry → Entry → JournalResult (Unit {0}) → Entry → Type 0
Copied source v (ok _) w =
    (state : Bytes) × (seq : ℕ) × (source.snapshot ≡ Option.some (state, seq))
    × (w ≡ record { events = []; last_seq = seq; snapshot = Option.some (state, seq) })
Copied source v (err _) w = w ≡ v

abbrev pub Cleared : Entry → JournalResult (Unit {0}) → Entry → Type 0
Cleared v (ok _) w = w ≡ empty_entry
Cleared v (err _) w = w ≡ v

pub record Contract {J : Type 0} (o : Journal J) : Type 0 where
  pub view : J → PersistenceId → Entry
  pub persist_lem :
      (j : J) (pid : PersistenceId) (events : List Bytes) (n : ℕ)
      → Persisted
          (view j pid)
          events
          n
          (o.persist j pid events n).0
          (view (o.persist j pid events n).1 pid)
  pub snapshot_lem :
      (j : J) (pid : PersistenceId) (state : Bytes) (n : ℕ)
      → Snapshotted
          (view j pid)
          state
          n
          (o.save_snapshot j pid state n).0
          (view (o.save_snapshot j pid state n).1 pid)
  pub delete_lem :
      (j : J) (pid : PersistenceId) (n : ℕ)
      → Compacted
          (view j pid)
          n
          (o.delete_events_before j pid n).0
          (view (o.delete_events_before j pid n).1 pid)
  pub copy_lem :
      (j : J) (pid to : PersistenceId)
      → Copied
          (view j pid)
          (view j to)
          (o.copy_snapshot j pid to).0
          (view (o.copy_snapshot j pid to).1 to)
  pub clear_lem :
      (j : J) (pid : PersistenceId)
      → Cleared (view j pid) (o.clear j pid).0 (view (o.clear j pid).1 pid)
  pub persist_frame :
      (j : J) (pid q : PersistenceId) (events : List Bytes) (n : ℕ)
      → q ≢ pid
      → view (o.persist j pid events n).1 q ≡ view j q
  pub snapshot_frame :
      (j : J) (pid q : PersistenceId) (state : Bytes) (n : ℕ)
      → q ≢ pid
      → view (o.save_snapshot j pid state n).1 q ≡ view j q
  pub delete_frame :
      (j : J) (pid q : PersistenceId) (n : ℕ)
      → q ≢ pid
      → view (o.delete_events_before j pid n).1 q ≡ view j q
  pub copy_frame :
      (j : J) (pid to q : PersistenceId) → q ≢ to → view (o.copy_snapshot j pid to).1 q ≡ view j q
  pub clear_frame : (j : J) (pid q : PersistenceId) → q ≢ pid → view (o.clear j pid).1 q ≡ view j q
  pub last_seq_lem :
      (j : J) (pid : PersistenceId) {n : ℕ} → o.last_seq j pid ≡ ok n → n ≡ (view j pid).last_seq
  pub latest_lem :
      (j : J) (pid : PersistenceId) {s : Option (Bytes × ℕ)}
      → o.latest_snapshot j pid ≡ ok s
      → s ≡ (view j pid).snapshot
  -- A replay that ends without an error has yielded the whole rest of the log.
  pub replay_lem :
      (j : J) (pid : PersistenceId) (n : ℕ) (items : List (ℕ × Bytes))
      → o.replay j pid n ≡ all_ok items
      → items ≡ events_after n (view j pid).events

-- A journal that fails no more than its contract makes it: a write on a log that ends where the writer
-- expects succeeds, so does a copy of a snapshot that is there, and everything else always does.
pub record IsReliable {J : Type 0} (o : Journal J) (c : Contract o) : Type 0 where
  pub persist_ok :
      (j : J) (pid : PersistenceId) (events : List Bytes) (n : ℕ)
      → (c.view j pid).last_seq ≡ n
      → (o.persist j pid events n).0 ≡ ok tt
  pub snapshot_ok :
      (j : J) (pid : PersistenceId) (state : Bytes) (n : ℕ)
      → (c.view j pid).last_seq ≡ n
      → (o.save_snapshot j pid state n).0 ≡ ok tt
  pub delete_ok : (j : J) (pid : PersistenceId) (n : ℕ) → (o.delete_events_before j pid n).0 ≡ ok tt
  pub copy_ok :
      (j : J) (pid to : PersistenceId) (s : Bytes × ℕ)
      → (c.view j pid).snapshot ≡ Option.some s
      → (o.copy_snapshot j pid to).0 ≡ ok tt
  pub clear_ok : (j : J) (pid : PersistenceId) → (o.clear j pid).0 ≡ ok tt
  pub latest_ok :
      (j : J) (pid : PersistenceId) → o.latest_snapshot j pid ≡ ok (c.view j pid).snapshot
  pub last_seq_ok : (j : J) (pid : PersistenceId) → o.last_seq j pid ≡ ok (c.view j pid).last_seq
  pub replay_ok :
      (j : J) (pid : PersistenceId) (n : ℕ)
      → o.replay j pid n ≡ all_ok (events_after n (c.view j pid).events)
