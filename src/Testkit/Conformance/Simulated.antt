-- ===== src/Testkit/Conformance/Simulated.antt =====
-- Which journals pass the assertions of src/testkit.rs.
use horsie_actor.Base.{ℕ, ◌≡◌, refl, true, List, [], ◌∷◌, Bytes, is_ok, All, ap, not, ◌∙◌, All-map}
use horsie_actor.PersistenceId.{PersistenceId}
use horsie_actor.Journal.{
  Journal, JournalResult, InMemoryJournal, in_memory, persist, replay, save_snapshot,
  latest_snapshot, delete_events_before, copy_snapshot, last_seq, clear, entry_of, push_events,
  push_event,
}
use horsie_actor.Map.{get, insert}
use horsie_actor.Testkit.{
  wrapping, faulty, faulty_persist, faulty_save_snapshot, faulty_replay, delegated,
}
use horsie_actor.Testkit.Conformance.{
  Statement, persists, persist_fails, saves, save_fails, deletes, copies, copy_fails, clears,
  drained, first_is, latest_is, last_is, execute, passes, suite,
}

-- An operation of both journals: both succeed or neither, and they stay related.
abbrev pub Alike :
    {J K : Type 0}
    → (J → K → Type 0)
    → JournalResult (Unit {0}) × J
    → JournalResult (Unit {0}) × K
    → Type 0
Alike R x y = (is_ok x.0 ≡ is_ok y.0) × R x.1 y.1

-- Callers cannot tell two journals apart: related states answer alike and stay related.
pub record Simulates {J K : Type 0} (o : Journal J) (p : Journal K) (R : J → K → Type 0)
    : Type 0 where
  pub alike_persist :
      (j : J) (k : K) (id : PersistenceId) (events : List Bytes) (n : ℕ)
      → R j k
      → Alike R (o.persist j id events n) (p.persist k id events n)
  pub alike_save :
      (j : J) (k : K) (id : PersistenceId) (state : Bytes) (n : ℕ)
      → R j k
      → Alike R (o.save_snapshot j id state n) (p.save_snapshot k id state n)
  pub alike_delete :
      (j : J) (k : K) (id : PersistenceId) (n : ℕ)
      → R j k
      → Alike R (o.delete_events_before j id n) (p.delete_events_before k id n)
  pub alike_copy :
      (j : J) (k : K) (from to : PersistenceId)
      → R j k
      → Alike R (o.copy_snapshot j from to) (p.copy_snapshot k from to)
  pub alike_clear :
      (j : J) (k : K) (id : PersistenceId) → R j k → Alike R (o.clear j id) (p.clear k id)
  pub same_replay :
      (j : J) (k : K) (id : PersistenceId) (n : ℕ) → R j k → o.replay j id n ≡ p.replay k id n
  pub same_latest :
      (j : J) (k : K) (id : PersistenceId) → R j k → o.latest_snapshot j id ≡ p.latest_snapshot k id
  pub same_last : (j : J) (k : K) (id : PersistenceId) → R j k → o.last_seq j id ≡ p.last_seq k id

module _ {J K : Type 0} (o : Journal J) (p : Journal K) (R : J → K → Type 0)
    (s : Simulates o p R) where
  execute-alike :
      (j : J) (k : K) (t : Statement)
      → R j k
      → ((execute o j t).0 ≡ (execute p k t).0) × R (execute o j t).1 (execute p k t).1
  unfolding execute
  execute-alike j k (persists id events n) r = s.alike_persist j k id events n r
  execute-alike j k (persist_fails id events n) r =
      let h = s.alike_persist j k id events n r in (ap not h.0, h.1)
  execute-alike j k (saves id state n) r = s.alike_save j k id state n r
  execute-alike j k (save_fails id state n) r =
      let h = s.alike_save j k id state n r in (ap not h.0, h.1)
  execute-alike j k (deletes id n) r = s.alike_delete j k id n r
  execute-alike j k (copies from to) r = s.alike_copy j k from to r
  execute-alike j k (copy_fails from to) r = let h = s.alike_copy j k from to r in (ap not h.0, h.1)
  execute-alike j k (clears id) r = s.alike_clear j k id r
  execute-alike j k (drained id after events) r = (rw (s.same_replay j k id after r) refl, r)
  execute-alike j k (first_is id after n bytes) r = (rw (s.same_replay j k id after r) refl, r)
  execute-alike j k (latest_is id expected) r = (rw (s.same_latest j k id r) refl, r)
  execute-alike j k (last_is id n) r = (rw (s.same_last j k id r) refl, r)

  pub passes-alike : (ts : List Statement) (j : J) (k : K) → R j k → passes o j ts ≡ passes p k ts
  unfolding passes
  passes-alike [] j k r = refl
  passes-alike (t ∷ ts) j k r =
      let (went, still) = execute-alike j k t r in
      rw (went, passes-alike ts (execute o j t).1 (execute p k t).1 still) refl

all_passed : All (λ ts. passes in_memory [] ts ≡ true) suite
unfolding passes persist replay save_snapshot latest_snapshot delete_events_before copy_snapshot
    last_seq clear entry_of get insert push_events push_event
all_passed = (
  refl,
  (
    refl,
    (
      refl,
      (
        refl,
        (refl, (refl, (refl, (refl, (refl, (refl, (refl, (refl, (refl, (refl, (refl, tt))))))))))),
      ),
    ),
  ),
)

-- A journal that callers cannot tell from the one in memory passes every assertion of the suite when it
-- is empty as that one is.
pub suite-passed :
    {J : Type 0} (o : Journal J) (R : J → InMemoryJournal → Type 0) (j : J)
    → Simulates o in_memory R
    → R j []
    → All (λ ts. passes o j ts ≡ true) suite
suite-passed o R j s r =
    All-map {P = λ ts. passes in_memory [] ts ≡ true} {Q = λ ts. passes o j ts ≡ true} suite
      (λ ts h. passes-alike o in_memory R s ts j [] r ∙ h) all_passed

-- A wrapper on which no fault was set cannot be told from the journal that it wraps, whatever it is.
pub faulty-Simulates : {J : Type 0} (o : Journal J) → Simulates (faulty o) o (λ f j. f ≡ wrapping j)
unfolding faulty faulty_persist faulty_save_snapshot faulty_replay delegated wrapping
faulty-Simulates o = record {
  alike_persist = λ f j id events n r. rw r (refl, refl);
  alike_save = λ f j id state n r. rw r (refl, refl);
  alike_delete = λ f j id n r. rw r (refl, refl);
  alike_copy = λ f j from to r. rw r (refl, refl);
  alike_clear = λ f j id r. rw r (refl, refl);
  same_replay = λ f j id n r. rw r refl;
  same_latest = λ f j id r. rw r refl;
  same_last = λ f j id r. rw r refl;
}
