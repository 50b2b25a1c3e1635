-- ===== src/Testkit.antt =====
-- `FaultyJournal` of src/testkit.rs: a journal that wraps another one and fails on demand.
pub mod Faulty
pub mod Conformance
use horsie_actor.Base.{
  ℕ, ◌+◌, ◌%◌, Bool, true, false, Option, none, some, List, [], ◌∷◌, Bytes, Result, ok, err, leb,
  if◌then◌else◌, codes, u64_mod,
}
use horsie_actor.PersistenceId.{PersistenceId}
use horsie_actor.Journal.{Journal, JournalResult, backend}

pub record FaultyJournal (J : Type 0) : Type 0 where
  pub inner : J
  pub persist_budget : Option ℕ
  pub persists : ℕ
  pub snapshot_fails : Bool
  pub replay_fails_at : Option ℕ

-- The body of the loop of `replay`: an error in place of the event, and nothing behind it.
unfoldable pub until_failure :
    ℕ → List (JournalResult (ℕ × Bytes)) → List (JournalResult (ℕ × Bytes))
until_failure fail_at [] = []
until_failure fail_at (err e ∷ rest) = err e ∷ until_failure fail_at rest
until_failure fail_at (ok (seq, bytes) ∷ rest) =
    let out = until_failure fail_at rest in
    if leb fail_at seq
    then err (backend (codes "injected replay failure")) ∷ []
    else ok (seq, bytes) ∷ out

module _ {J : Type 0} where
  unfoldable pub wrapping : J → FaultyJournal J
  wrapping inner = record {
    inner = inner;
    persist_budget = none;
    persists = 0;
    snapshot_fails = false;
    replay_fails_at = none;
  }

  unfoldable pub fail_persist_after : FaultyJournal J → ℕ → FaultyJournal J
  fail_persist_after f n = record f { persist_budget = some n }

  unfoldable pub fail_snapshot : FaultyJournal J → FaultyJournal J
  fail_snapshot f = record f { snapshot_fails = true }

  unfoldable pub fail_replay_at : FaultyJournal J → ℕ → FaultyJournal J
  fail_replay_at f seq = record f { replay_fails_at = some seq }

  -- What a delegated call returns, with the inner journal that it leaves.
  unfoldable pub delegated {ℓ} : {R : Type ℓ} → FaultyJournal J → R × J → R × FaultyJournal J
  delegated f (r, j) = (r, record f { inner = j })

module _ {J : Type 0} (o : Journal J) where
  -- The counter of an atomic `usize` wraps.
  unfoldable pub faulty_persist :
      FaultyJournal J → PersistenceId → List Bytes → ℕ → JournalResult (Unit {0}) × FaultyJournal J
  unfolding delegated
  faulty_persist f pid events expected_last_seq = elim f.persist_budget [
    | none ↦ delegated f (o.persist f.inner pid events expected_last_seq)
    | some budget ↦
        let counted : FaultyJournal J = record f { persists = (f.persists + 1) % u64_mod } in
        if leb budget f.persists
        then (err (backend (codes "injected persist failure")), counted)
        else delegated counted (o.persist f.inner pid events expected_last_seq)
  ]

  unfoldable pub faulty_replay :
      FaultyJournal J → PersistenceId → ℕ → List (JournalResult (ℕ × Bytes))
  unfolding until_failure
  faulty_replay f pid after_seq = elim f.replay_fails_at [
    | none ↦ o.replay f.inner pid after_seq
    | some fail_at ↦ until_failure fail_at (o.replay f.inner pid after_seq)
  ]

  unfoldable pub faulty_save_snapshot :
      FaultyJournal J → PersistenceId → Bytes → ℕ → JournalResult (Unit {0}) × FaultyJournal J
  unfolding delegated
  faulty_save_snapshot f pid state seq_nr =
      if f.snapshot_fails
      then (err (backend (codes "injected snapshot failure")), f)
      else delegated f (o.save_snapshot f.inner pid state seq_nr)

  unfoldable pub faulty : Journal (FaultyJournal J)
  unfolding faulty_persist faulty_replay faulty_save_snapshot
  faulty = record {
    persist = faulty_persist;
    replay = faulty_replay;
    save_snapshot = faulty_save_snapshot;
    latest_snapshot = λ f pid. o.latest_snapshot f.inner pid;
    delete_events_before = λ f pid seq_nr. delegated f (o.delete_events_before f.inner pid seq_nr);
    copy_snapshot = λ f from to. delegated f (o.copy_snapshot f.inner from to);
    last_seq = λ f pid. o.last_seq f.inner pid;
    clear = λ f pid. delegated f (o.clear f.inner pid);
  }
