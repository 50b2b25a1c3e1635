-- ===== src/Journal/Reach.antt =====
-- Every journal in memory (src/journal.rs) that a history of operations leads to.
use horsie_actor.Base.{
  nat_eq, if_both, ◌≤◌, ℕ, ◌+◌, ◌<◌, ◌≡◌, List, [], arith, Bytes, length, u64_mod, ◌==◌, some,
  Option-cases, inl, inr,
}
use horsie_actor.PersistenceId.{PersistenceId, pid_eq}
use horsie_actor.Map.{get}
use horsie_actor.Journal.{
  empty_entry, InMemoryJournal, persist, save_snapshot, delete_events_before, copy_snapshot, clear,
  entry_of,
}
use horsie_actor.Journal.Memory.{
  entry_of-persist, entry_of-save_snapshot, entry_of-delete, entry_of-insert, entry_of-clear,
  copy_snapshot_missing, copy_snapshot_found,
}
use horsie_actor.Journal.Log.{IsLog, push_events-IsLog, snapshot-IsLog, compact-IsLog}

pub data Op : Type 0 where
  persists : PersistenceId → List Bytes → ℕ → Op
  snapshots : PersistenceId → Bytes → ℕ → Op
  compacts : PersistenceId → ℕ → Op
  copies : PersistenceId → PersistenceId → Op
  clears : PersistenceId → Op

abbrev pub run_op : InMemoryJournal → Op → InMemoryJournal
run_op j (persists pid events n) = (persist j pid events n).1
run_op j (snapshots pid state n) = (save_snapshot j pid state n).1
run_op j (compacts pid n) = (delete_events_before j pid n).1
run_op j (copies from to) = (copy_snapshot j from to).1
run_op j (clears pid) = (clear j pid).1

-- The counter is a `u64`, and a write leaves it in range.
abbrev pub HasRoom : InMemoryJournal → Op → Type 0
HasRoom j (persists pid events n) = (entry_of j pid).last_seq + length events < u64_mod
HasRoom j _ = Unit {0}

pub data Reach : InMemoryJournal → Type 0 where
  start : Reach []
  next : {j : InMemoryJournal} → Reach j → (o : Op) → HasRoom j o → Reach (run_op j o)

abbrev pub AllLogs : InMemoryJournal → Type 0
AllLogs j = (pid : PersistenceId) → IsLog (entry_of j pid)

empty-IsLog : IsLog empty_entry
empty-IsLog = record { climbs = omega arith; snapshot_below = tt; in_range = omega arith }

empty-AllLogs : AllLogs []
unfolding entry_of get
empty-AllLogs pid = empty-IsLog

module _ (j : InMemoryJournal) (pid : PersistenceId) (all : AllLogs j) where
  persist-AllLogs :
      (events : List Bytes) (n : ℕ)
      → (entry_of j pid).last_seq + length events < u64_mod
      → AllLogs (persist j pid events n).1
  persist-AllLogs events n room q = rw (entry_of-persist j pid q events n) (
      if_both IsLog (pid == q)
        (λ _.
          if_both IsLog ((entry_of j pid).last_seq == n)
            (λ _. push_events-IsLog (entry_of j pid) (all pid) events room) (λ _. all pid))
        (λ _. all q))

  save_snapshot-AllLogs : (state : Bytes) (n : ℕ) → AllLogs (save_snapshot j pid state n).1
  save_snapshot-AllLogs state n q = rw (entry_of-save_snapshot j pid q state n) (
      if_both IsLog (pid == q)
        (λ _.
          if_both IsLog ((entry_of j pid).last_seq == n)
            (λ h. snapshot-IsLog (entry_of j pid) (all pid) state n (ground arith)) (λ _. all pid))
        (λ _. all q))

  delete-AllLogs : (n : ℕ) → AllLogs (delete_events_before j pid n).1
  delete-AllLogs n q =
      rw (entry_of-delete j pid q n)
        (if_both IsLog (pid == q) (λ _. compact-IsLog (entry_of j pid) (all pid) n) (λ _. all q))

  clear-AllLogs : AllLogs (clear j pid).1
  clear-AllLogs q =
      rw (entry_of-clear j pid q) (if_both IsLog (pid == q) (λ _. empty-IsLog) (λ _. all q))

  copy_snapshot-AllLogs : (to : PersistenceId) → AllLogs (copy_snapshot j pid to).1
  copy_snapshot-AllLogs to = elim (Option-cases (entry_of j pid).snapshot) [
    | inl missing ↦ rw (copy_snapshot_missing j pid to missing) all
    | inr ((state, seq), found) ↦ λ q.
        rw (copy_snapshot_found j pid to state seq found, entry_of-insert j to q _)
          (if_both IsLog (to == q) (λ _. seeded-IsLog state seq found) (λ _. all q))
  ]
    where
      seeded-IsLog :
          (state : Bytes) (seq : ℕ)
          → (entry_of j pid).snapshot ≡ some (state, seq)
          → IsLog (record { events = []; last_seq = seq; snapshot = some (state, seq) })
      seeded-IsLog state seq found =
          let below : seq ≤ (entry_of j pid).last_seq = rw found at ((all pid).snapshot_below) in
          record {
            climbs = omega arith;
            snapshot_below = omega arith;
            in_range = omega (arith, (all pid).in_range);
          }

pub run_op-AllLogs : (j : InMemoryJournal) (o : Op) → HasRoom j o → AllLogs j → AllLogs (run_op j o)
run_op-AllLogs j (persists pid events n) room all = persist-AllLogs j pid all events n room
run_op-AllLogs j (snapshots pid state n) room all = save_snapshot-AllLogs j pid all state n
run_op-AllLogs j (compacts pid n) room all = delete-AllLogs j pid all n
run_op-AllLogs j (copies from to) room all = copy_snapshot-AllLogs j from all to
run_op-AllLogs j (clears pid) room all = clear-AllLogs j pid all

-- In every journal in memory that operations lead to, in any order and with any expectations, the
-- event numbers of each log climb strictly from 1 on up to its counter, and its snapshot lies at or
-- below the counter; the condition is that no write takes a counter out of `u64`.
pub Reach-IsLog : {j : InMemoryJournal} → Reach j → (pid : PersistenceId) → IsLog (entry_of j pid)
Reach-IsLog start = empty-AllLogs
Reach-IsLog (next r o room) = run_op-AllLogs _ o room (Reach-IsLog r)
