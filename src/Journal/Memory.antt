-- ===== src/Journal/Memory.antt =====
-- The journal in memory keeps the contract of src/journal.rs; its views are its entries.
use horsie_actor.Base.{
  ℕ, ◌≡◌, ◌≢◌, refl, sym, ap, ◌∙◌, List, [], ◌∷◌, arith, ok, Option, some, none, if◌then◌else◌,
  Bytes, ◌==◌, nat_eq, ==_refl, err, codes, ◌++◌, Option-cases, inl, inr,
}
use horsie_actor.Map.{insert, get-insert, get-remove}
use horsie_actor.PersistenceId.{PersistenceId, to_string, pid_eq, pid_beq_iff}
use horsie_actor.Journal.{
  clear, copy_snapshot, empty_entry, last_seq, Entry, InMemoryJournal, in_memory, persist, replay,
  save_snapshot, latest_snapshot, delete_events_before, entry_of, push_events, events_after, all_ok,
  backend,
}
use horsie_actor.Journal.Contract.{
  Contract, Persisted, Snapshotted, Compacted, Copied, Cleared, IsReliable,
}

pub entry_of-insert :
    (j : InMemoryJournal) (p q : PersistenceId) (e : Entry)
    → entry_of (insert j p e) q ≡ (if p == q then e else entry_of j q)
unfolding entry_of
entry_of-insert j p q e = ground (arith, get-insert j p q e)

module _ (j : InMemoryJournal) (pid q : PersistenceId) where
  pub entry_of-persist :
      (events : List Bytes) (n : ℕ)
      → entry_of (persist j pid events n).1 q ≡ (
          if pid == q
          then (if (entry_of j pid).last_seq == n
              then push_events (entry_of j pid) events
              else entry_of j pid)
          else entry_of j q)
  unfolding persist
  entry_of-persist events n = ground (
    arith,
    entry_of-insert j pid q (push_events (entry_of j pid) events),
    entry_of-insert j pid q (entry_of j pid),
  )

  pub entry_of-save_snapshot :
      (state : Bytes) (n : ℕ)
      → entry_of (save_snapshot j pid state n).1 q ≡ (
          if pid == q
          then (if (entry_of j pid).last_seq == n
              then record (entry_of j pid) { snapshot = some (state, n) }
              else entry_of j pid)
          else entry_of j q)
  unfolding save_snapshot
  entry_of-save_snapshot state n = ground (
    arith,
    entry_of-insert j pid q (record (entry_of j pid) { snapshot = some (state, n) }),
    entry_of-insert j pid q (entry_of j pid),
  )

  pub entry_of-delete :
      (n : ℕ)
      → entry_of (delete_events_before j pid n).1 q ≡ (
          if pid == q
          then record (entry_of j pid) { events = events_after n (entry_of j pid).events }
          else entry_of j q)
  unfolding delete_events_before entry_of events_after
  entry_of-delete n = ground (
    arith,
    get-insert j pid q
        (record (entry_of j pid) { events = events_after n (entry_of j pid).events }),
    pid_beq_iff pid q,
  )

pub all_ok-injective : (xs ys : List (ℕ × Bytes)) → all_ok xs ≡ all_ok ys → xs ≡ ys
all_ok-injective [] [] h = refl
all_ok-injective (x ∷ xs) (y ∷ ys) h = ground (arith, all_ok-injective xs ys)
all_ok-injective [] (y ∷ ys) h = ground arith
all_ok-injective (x ∷ xs) [] h = ground arith

module _ (j : InMemoryJournal) (pid : PersistenceId) where
  pub replay-entry_of : (n : ℕ) → replay j pid n ≡ all_ok (events_after n (entry_of j pid).events)
  unfolding replay entry_of
  replay-entry_of n = ground arith

  pub latest-entry_of : latest_snapshot j pid ≡ ok (entry_of j pid).snapshot
  unfolding latest_snapshot entry_of
  latest-entry_of = ground arith

  pub last_seq-entry_of : last_seq j pid ≡ ok (entry_of j pid).last_seq
  unfolding last_seq entry_of
  last_seq-entry_of = ground arith

  pub entry_of-clear :
      (q : PersistenceId)
      → entry_of (clear j pid).1 q ≡ (if pid == q then empty_entry else entry_of j q)
  unfolding clear entry_of
  entry_of-clear q = ground (arith, get-remove j pid q)

  pub copy_snapshot_missing :
      (to : PersistenceId) → (entry_of j pid).snapshot ≡ none → (copy_snapshot j pid to).1 ≡ j
  unfolding copy_snapshot entry_of
  copy_snapshot_missing to h = ground arith

  copy_snapshot_refused :
      (to : PersistenceId)
      → (entry_of j pid).snapshot ≡ none
      → copy_snapshot j pid to
        ≡ (err (backend (codes "no snapshot for '" ++ to_string pid ++ codes "'")), j)
  unfolding copy_snapshot entry_of
  copy_snapshot_refused to h = ground arith

  pub copy_snapshot_found :
      (to : PersistenceId) (state : Bytes) (seq : ℕ)
      → (entry_of j pid).snapshot ≡ some (state, seq)
      → copy_snapshot j pid to ≡ (
        ok tt,
        insert j to (record { events = []; last_seq = seq; snapshot = some (state, seq) }),
      )
  unfolding copy_snapshot entry_of
  copy_snapshot_found to state seq h = ground arith

  pub persist-Persisted :
      (events : List Bytes) (n : ℕ)
      → Persisted
          (entry_of j pid)
          events
          n
          (persist j pid events n).0
          (entry_of (persist j pid events n).1 pid)
  persist-Persisted events n =
      rw (entry_of-persist j pid pid events n)
        (unfold persist in ground (arith, pid_beq_iff pid pid))

  pub save_snapshot-Snapshotted :
      (state : Bytes) (n : ℕ)
      → Snapshotted
          (entry_of j pid)
          state
          n
          (save_snapshot j pid state n).0
          (entry_of (save_snapshot j pid state n).1 pid)
  save_snapshot-Snapshotted state n =
      rw (entry_of-save_snapshot j pid pid state n)
        (unfold save_snapshot in ground (arith, pid_beq_iff pid pid))

  pub delete-Compacted :
      (n : ℕ)
      → Compacted
          (entry_of j pid)
          n
          (delete_events_before j pid n).0
          (entry_of (delete_events_before j pid n).1 pid)
  delete-Compacted n =
      rw (entry_of-delete j pid pid n)
        (unfold delete_events_before in ground (arith, pid_beq_iff pid pid))

  pub replay_lem :
      (n : ℕ) (items : List (ℕ × Bytes))
      → replay j pid n ≡ all_ok items
      → items ≡ events_after n (entry_of j pid).events
  replay_lem n items h = all_ok-injective items _ (sym h ∙ replay-entry_of n)

  pub latest_lem :
      {s : Option (Bytes × ℕ)} → latest_snapshot j pid ≡ ok s → s ≡ (entry_of j pid).snapshot
  unfolding latest_snapshot entry_of
  latest_lem h = ground arith

  pub copy_snapshot-Copied :
      (to : PersistenceId)
      → Copied
          (entry_of j pid)
          (entry_of j to)
          (copy_snapshot j pid to).0
          (entry_of (copy_snapshot j pid to).1 to)
  copy_snapshot-Copied to = elim (Option-cases (entry_of j pid).snapshot) [
    | inl e ↦ rw (copy_snapshot_refused to e) refl
    | inr ((state, seq), e) ↦
        rw (copy_snapshot_found to state seq e, entry_of-insert j to to, ==_refl to)
          (state, seq, e, refl)
  ]

  pub clear-Cleared : Cleared (entry_of j pid) (clear j pid).0 (entry_of (clear j pid).1 pid)
  clear-Cleared = rw (entry_of-clear pid) (unfold clear in ground (arith, pid_beq_iff pid pid))

  pub last_seq_lem : {n : ℕ} → last_seq j pid ≡ ok n → n ≡ (entry_of j pid).last_seq
  unfolding last_seq entry_of
  last_seq_lem h = ground arith

  persist_succeeds :
      (events : List Bytes) (n : ℕ)
      → (entry_of j pid).last_seq ≡ n
      → (persist j pid events n).0 ≡ ok tt
  unfolding persist
  persist_succeeds events n h = ground (arith, h)

  save_snapshot_succeeds :
      (state : Bytes) (n : ℕ)
      → (entry_of j pid).last_seq ≡ n
      → (save_snapshot j pid state n).0 ≡ ok tt
  unfolding save_snapshot
  save_snapshot_succeeds state n h = ground (arith, h)

  delete_succeeds : (n : ℕ) → (delete_events_before j pid n).0 ≡ ok tt
  unfolding delete_events_before
  delete_succeeds n = ground arith

pub persist_frame :
    (j : InMemoryJournal) (pid q : PersistenceId) (events : List Bytes) (n : ℕ)
    → q ≢ pid
    → entry_of (persist j pid events n).1 q ≡ entry_of j q
persist_frame j pid q events n d =
    ground (arith, entry_of-persist j pid q events n, pid_beq_iff pid q)

pub save_snapshot_frame :
    (j : InMemoryJournal) (pid q : PersistenceId) (state : Bytes) (n : ℕ)
    → q ≢ pid
    → entry_of (save_snapshot j pid state n).1 q ≡ entry_of j q
save_snapshot_frame j pid q state n d =
    ground (arith, entry_of-save_snapshot j pid q state n, pid_beq_iff pid q)

pub delete_frame :
    (j : InMemoryJournal) (pid q : PersistenceId) (n : ℕ)
    → q ≢ pid
    → entry_of (delete_events_before j pid n).1 q ≡ entry_of j q
delete_frame j pid q n d = ground (arith, entry_of-delete j pid q n, pid_beq_iff pid q)

pub copy_frame :
    (j : InMemoryJournal) (pid to q : PersistenceId)
    → q ≢ to
    → entry_of (copy_snapshot j pid to).1 q ≡ entry_of j q
copy_frame j pid to q d = elim (Option-cases (entry_of j pid).snapshot) [
  | inl e ↦ rw (copy_snapshot_missing j pid to e) refl
  | inr ((state, seq), e) ↦ rw (copy_snapshot_found j pid to state seq e) (
      ground (
        arith,
        pid_beq_iff to q,
        entry_of-insert j to q
            (record { events = []; last_seq = seq; snapshot = some (state, seq) }),
      ))
]

pub clear_frame :
    (j : InMemoryJournal) (pid q : PersistenceId)
    → q ≢ pid
    → entry_of (clear j pid).1 q ≡ entry_of j q
clear_frame j pid q d = ground (arith, entry_of-clear j pid q, pid_beq_iff pid q)

unfoldable pub memory_contract : Contract in_memory
memory_contract = record {
  view = entry_of;
  persist_lem = persist-Persisted;
  snapshot_lem = save_snapshot-Snapshotted;
  delete_lem = delete-Compacted;
  copy_lem = copy_snapshot-Copied;
  clear_lem = clear-Cleared;
  persist_frame = persist_frame;
  snapshot_frame = save_snapshot_frame;
  delete_frame = delete_frame;
  copy_frame = copy_frame;
  clear_frame = clear_frame;
  last_seq_lem = λ j pid h. last_seq_lem j pid h;
  latest_lem = λ j pid h. latest_lem j pid h;
  replay_lem = replay_lem;
}

memory-IsReliable : IsReliable in_memory memory_contract
unfolding memory_contract
memory-IsReliable = record {
  persist_ok = persist_succeeds;
  snapshot_ok = save_snapshot_succeeds;
  delete_ok = delete_succeeds;
  copy_ok = λ j pid to s h. ap (λ r. r.0) (copy_snapshot_found j pid to s.0 s.1 h);
  clear_ok = λ j pid. unfold clear in refl;
  latest_ok = latest-entry_of;
  last_seq_ok = last_seq-entry_of;
  replay_ok = replay-entry_of;
}

-- The journal in memory keeps the contract of the trait, the view of a log being its entry: writes
-- and snapshots land whole and only where the log ends as expected, compaction drops just the
-- events up to its bound, a copy starts an empty log behind the copied snapshot, clearing empties a
-- log, and none of these touches another log. A write where the log ends as expected succeeds, a copy
-- of a snapshot that is there does, compacting and clearing always do, and reads always succeed and
-- return what is there.
pub in_memory-Contract : (c : Contract in_memory) × (c.view ≡ entry_of) × IsReliable in_memory c
unfolding memory_contract
in_memory-Contract = (memory_contract, refl, memory-IsReliable)
