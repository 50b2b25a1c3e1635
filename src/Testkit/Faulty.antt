-- ===== src/Testkit/Faulty.antt =====
-- The faults that src/testkit.rs injects stay inside what a caller of a journal must expect.
use horsie_actor.Base.{
  ℕ, ◌≡◌, ◌≢◌, refl, List, [], ◌∷◌, Bytes, ok, err, leb, arith, Bool-cases, inl, inr, Option-cases,
}
use horsie_actor.PersistenceId.{PersistenceId}
use horsie_actor.Journal.{Journal, JournalResult, all_ok, events_after}
use horsie_actor.Journal.Contract.{Contract, Persisted, Snapshotted}
use horsie_actor.Testkit.{
  FaultyJournal, until_failure, delegated, faulty_persist, faulty_replay, faulty_save_snapshot,
  faulty,
}

-- A replay that ends without an error has met no failure.
until_failure-all_ok :
    (fail_at : ℕ) (xs : List (JournalResult (ℕ × Bytes))) (items : List (ℕ × Bytes))
    → until_failure fail_at xs ≡ all_ok items
    → xs ≡ all_ok items
unfolding until_failure
until_failure-all_ok fail_at [] items h = h
until_failure-all_ok fail_at (err e ∷ rest) [] h = ground arith
until_failure-all_ok fail_at (err e ∷ rest) (x ∷ items) h = ground arith
until_failure-all_ok fail_at (ok (seq, bytes) ∷ rest) [] h = ground arith
until_failure-all_ok fail_at (ok (seq, bytes) ∷ rest) (x ∷ items) h =
    ground (arith, until_failure-all_ok fail_at rest items)

module _ {J : Type 0} (o : Journal J) (c : Contract o) where
  persist-Persisted :
      (f : FaultyJournal J) (pid : PersistenceId) (events : List Bytes) (n : ℕ)
      → Persisted
          (c.view f.inner pid)
          events
          n
          (faulty_persist o f pid events n).0
          (c.view (faulty_persist o f pid events n).1.inner pid)
  unfolding faulty_persist
  persist-Persisted f pid events n = elim (Option-cases f.persist_budget) [
    | inl e ↦ rw e (c.persist_lem f.inner pid events n)
    | inr (budget, e) ↦ elim (Bool-cases (leb budget f.persists)) [
      | inl over ↦ rw (e, over) refl
      | inr within ↦ rw (e, within) (c.persist_lem f.inner pid events n)
    ]
  ]

  persist_frame :
      (f : FaultyJournal J) (pid q : PersistenceId) (events : List Bytes) (n : ℕ)
      → q ≢ pid
      → c.view (faulty_persist o f pid events n).1.inner q ≡ c.view f.inner q
  unfolding faulty_persist
  persist_frame f pid q events n d = elim (Option-cases f.persist_budget) [
    | inl e ↦ rw e (c.persist_frame f.inner pid q events n d)
    | inr (budget, e) ↦ elim (Bool-cases (leb budget f.persists)) [
      | inl over ↦ rw (e, over) refl
      | inr within ↦ rw (e, within) (c.persist_frame f.inner pid q events n d)
    ]
  ]

  snapshot-Snapshotted :
      (f : FaultyJournal J) (pid : PersistenceId) (state : Bytes) (n : ℕ)
      → Snapshotted
          (c.view f.inner pid)
          state
          n
          (faulty_save_snapshot o f pid state n).0
          (c.view (faulty_save_snapshot o f pid state n).1.inner pid)
  unfolding faulty_save_snapshot
  snapshot-Snapshotted f pid state n = elim (Bool-cases f.snapshot_fails) [
    | inl e ↦ rw e refl
    | inr e ↦ rw e (c.snapshot_lem f.inner pid state n)
  ]

  snapshot_frame :
      (f : FaultyJournal J) (pid q : PersistenceId) (state : Bytes) (n : ℕ)
      → q ≢ pid
      → c.view (faulty_save_snapshot o f pid state n).1.inner q ≡ c.view f.inner q
  unfolding faulty_save_snapshot
  snapshot_frame f pid q state n d = elim (Bool-cases f.snapshot_fails) [
    | inl e ↦ rw e refl
    | inr e ↦ rw e (c.snapshot_frame f.inner pid q state n d)
  ]

  replay-all_ok :
      (f : FaultyJournal J) (pid : PersistenceId) (n : ℕ) (items : List (ℕ × Bytes))
      → faulty_replay o f pid n ≡ all_ok items
      → items ≡ events_after n (c.view f.inner pid).events
  unfolding faulty_replay
  replay-all_ok f pid n items h = elim (Option-cases f.replay_fails_at) [
    | inl e ↦ c.replay_lem f.inner pid n items (rw e at h)
    | inr (fail_at, e) ↦
        c.replay_lem f.inner pid n items
          (until_failure-all_ok fail_at (o.replay f.inner pid n) items (rw e at h))
  ]

  -- A journal with injected faults keeps the contract that the journal in it keeps, whichever
  -- faults are configured, and its logs are those of the journal in it: a failed write or snapshot
  -- leaves the log as it was, and a replay that was cut short never ends as if it were whole.
  pub faulty-Contract :
      (f : Contract (faulty o)) × ((j : FaultyJournal J) (pid : PersistenceId)
        → f.view j pid ≡ c.view j.inner pid)
  unfolding faulty delegated
  faulty-Contract = (
    record {
      view = λ f pid. c.view f.inner pid;
      persist_lem = persist-Persisted;
      snapshot_lem = snapshot-Snapshotted;
      delete_lem = λ f pid n. c.delete_lem f.inner pid n;
      copy_lem = λ f pid to. c.copy_lem f.inner pid to;
      clear_lem = λ f pid. c.clear_lem f.inner pid;
      persist_frame = persist_frame;
      snapshot_frame = snapshot_frame;
      delete_frame = λ f pid q n d. c.delete_frame f.inner pid q n d;
      copy_frame = λ f pid to q d. c.copy_frame f.inner pid to q d;
      clear_frame = λ f pid q d. c.clear_frame f.inner pid q d;
      last_seq_lem = λ f pid h. c.last_seq_lem f.inner pid h;
      latest_lem = λ f pid h. c.latest_lem f.inner pid h;
      replay_lem = replay-all_ok;
    },
    λ j pid. refl,
  )
