-- ===== src/Units/Journals.antt =====
-- The tests of src/journal.rs and of the journal that fails on demand in src/testkit.rs.
use horsie_actor.Base.{
  ℕ, ◌≡◌, refl, Bool, true, false, none, some, List, [], ◌∷◌, Text, Bytes, ok, err, is_ok, codes,
  ◌==◌, nat_eq, list_eq, ◌&&◌,
}
use horsie_actor.Map.{get, insert}
use horsie_actor.PersistenceId.{PersistenceId}
use horsie_actor.Journal.{
  InMemoryJournal, backend, conflict, JournalResult, in_memory, entry_of, admit, push_event,
  push_events, persist, events_after, replay, save_snapshot, latest_snapshot, delete_events_before,
  copy_snapshot, last_seq, clear,
}
use horsie_actor.Testkit.{
  FaultyJournal, until_failure, wrapping, fail_persist_after, fail_snapshot, fail_replay_at,
  delegated, faulty_persist, faulty_replay, faulty_save_snapshot, faulty,
}
use horsie_actor.Testkit.Conformance.{
  Statement, persists, persist_fails, saves, save_fails, deletes, copies, drained, first_is,
  latest_is, last_is, drain, execute, passes, named, one, two, three,
}
use horsie_actor.Units.{all_hold}

abbrev t : Text → PersistenceId
t = named (codes "t")

abbrev a : PersistenceId
a = t (codes "a")

abbrev runs : List Statement → Bool
runs = passes in_memory []

abbrev is_conflict : JournalResult (Unit {0}) → Bool
is_conflict (err (conflict _ _ _)) = true
is_conflict _ = false

abbrev is_conflict_of : JournalResult (Unit {0}) → ℕ → ℕ → Bool
is_conflict_of (err (conflict _ expected actual)) n m = expected == n && actual == m
is_conflict_of _ n m = false

abbrev is_backend : JournalResult (Unit {0}) → Bool
is_backend (err (backend _)) = true
is_backend _ = false

abbrev persist_then_replay_returns_events_in_order : Bool
persist_then_replay_returns_events_in_order =
    runs (persists a (one ∷ two ∷ three ∷ []) 0 ∷ drained a 0 (one ∷ two ∷ three ∷ []) ∷ [])

abbrev logs_are_namespaced_by_kind : Bool
logs_are_namespaced_by_kind =
    let workflow = named (codes "workflow") (codes "x") in
    let agent = named (codes "agent") (codes "x") in
    runs (
      persists workflow (one ∷ []) 0
      ∷ persists agent (two ∷ []) 0
      ∷ first_is workflow 0 1 one
      ∷ first_is agent 0 1 two
      ∷ [])

abbrev replay_skips_events_at_or_before_after_seq : Bool
replay_skips_events_at_or_before_after_seq =
    runs (persists a (one ∷ two ∷ three ∷ []) 0 ∷ drained a 1 (two ∷ three ∷ []) ∷ [])

abbrev snapshot_roundtrips_with_seq : Bool
snapshot_roundtrips_with_seq = runs (
    persists a (one ∷ two ∷ []) 0
    ∷ saves a (9 ∷ 9 ∷ []) 2
    ∷ latest_is a (some (9 ∷ 9 ∷ [], 2))
    ∷ [])

abbrev delete_events_before_compacts : Bool
delete_events_before_compacts =
    runs (persists a (one ∷ two ∷ three ∷ []) 0 ∷ deletes a 2 ∷ drained a 0 (three ∷ []) ∷ [])

abbrev persist_continues_numbering_after_compaction : Bool
persist_continues_numbering_after_compaction = runs (
    persists a (one ∷ two ∷ []) 0
    ∷ deletes a 2
    ∷ persists a (three ∷ []) 2
    ∷ drained a 2 (three ∷ [])
    ∷ [])

abbrev copy_snapshot_seeds_new_id : Bool
copy_snapshot_seeds_new_id =
    let src = t (codes "src") in
    let dst = t (codes "dst") in
    runs (
      persists src (one ∷ two ∷ []) 0
      ∷ saves src (7 ∷ []) 2
      ∷ copies src dst
      ∷ latest_is dst (some (7 ∷ [], 2))
      ∷ drained dst 2 []
      ∷ persists dst ((8 ∷ []) ∷ []) 2
      ∷ drained dst 2 ((8 ∷ []) ∷ [])
      ∷ [])

abbrev copy_snapshot_without_source_errors : Bool
copy_snapshot_without_source_errors =
    is_backend (copy_snapshot [] (t (codes "missing")) (t (codes "dst"))).0

abbrev last_seq_reports_where_the_log_ends : Bool
last_seq_reports_where_the_log_ends =
    runs (last_is a 0 ∷ persists a (one ∷ two ∷ []) 0 ∷ last_is a 2 ∷ [])

abbrev written : List Bytes → InMemoryJournal
written events = (persist [] a events 0).1

abbrev a_write_from_a_stale_writer_is_rejected : Bool
a_write_from_a_stale_writer_is_rejected =
    let (result, after) = persist (written (one ∷ [])) a (two ∷ []) 0 in
    is_conflict_of result 0 1 && passes in_memory after (drained a 0 (one ∷ []) ∷ [])

abbrev consecutive_writes_advance_the_expectation : Bool
consecutive_writes_advance_the_expectation = runs (
    persists a (one ∷ two ∷ []) 0
    ∷ persists a (three ∷ []) 2
    ∷ drained a 0 (one ∷ two ∷ three ∷ [])
    ∷ [])

abbrev a_write_ahead_of_the_log_is_rejected : Bool
a_write_ahead_of_the_log_is_rejected =
    let (result, after) = persist [] a (one ∷ []) 5 in
    is_conflict result && passes in_memory after (drained a 0 [] ∷ [])

abbrev a_snapshot_from_a_stale_writer_is_rejected : Bool
a_snapshot_from_a_stale_writer_is_rejected =
    let (result, after) = save_snapshot (written (one ∷ two ∷ [])) a (9 ∷ []) 1 in
    is_conflict result && passes in_memory after (latest_is a none ∷ [])

abbrev a_rejected_snapshot_leaves_the_events_it_would_have_compacted : Bool
a_rejected_snapshot_leaves_the_events_it_would_have_compacted =
    runs
      (persists a (one ∷ two ∷ []) 0 ∷ save_fails a (9 ∷ []) 1 ∷ drained a 0 (one ∷ two ∷ []) ∷ [])

abbrev only_one_writer_can_start_a_log : Bool
only_one_writer_can_start_a_log =
    let log = t (codes "new") in
    runs
      (persists log (one ∷ []) 0 ∷ persist_fails log (two ∷ []) 0 ∷ drained log 0 (one ∷ []) ∷ [])

-- The statements over a journal that was told when to fail.
abbrev faults : FaultyJournal InMemoryJournal → List Statement → Bool
faults = passes (faulty in_memory)

abbrev fail_persist_after_lets_the_first_n_through : Bool
fail_persist_after_lets_the_first_n_through =
    faults (fail_persist_after (wrapping []) 1)
      (persists a (one ∷ []) 0 ∷ persist_fails a (two ∷ []) 1 ∷ persist_fails a (three ∷ []) 1 ∷ [])

abbrev fail_persist_after_zero_fails_immediately : Bool
fail_persist_after_zero_fails_immediately =
    faults (fail_persist_after (wrapping []) 0) (persist_fails a (one ∷ []) 0 ∷ [])

abbrev healthy_by_default_delegates_to_inner : Bool
healthy_by_default_delegates_to_inner =
    faults (wrapping []) (persists a ((7 ∷ []) ∷ []) 0 ∷ first_is a 0 1 (7 ∷ []) ∷ [])

abbrev fail_snapshot_rejects_saves_but_not_persists : Bool
fail_snapshot_rejects_saves_but_not_persists =
    faults (fail_snapshot (wrapping [])) (persists a (one ∷ []) 0 ∷ save_fails a (9 ∷ []) 1 ∷ [])

abbrev good_then_failed : List (JournalResult (ℕ × Bytes)) → Bool
good_then_failed (ok _ ∷ err _ ∷ _) = true
good_then_failed _ = false

abbrev fail_replay_at_truncates_the_stream_with_an_error : Bool
fail_replay_at_truncates_the_stream_with_an_error =
    let (result, j) =
      faulty_persist in_memory (fail_replay_at (wrapping []) 2) a (one ∷ two ∷ three ∷ []) 0 in
    is_ok result && good_then_failed (faulty_replay in_memory j a 0)

abbrev the_wrapper_forwards_the_write_condition : Bool
the_wrapper_forwards_the_write_condition =
    faults (wrapping []) (persists a (one ∷ []) 0 ∷ persist_fails a (two ∷ []) 0 ∷ [])

-- The journal in memory passes its tests, and the one that fails on demand does.
journals-pass :
    all_hold (
      persist_then_replay_returns_events_in_order ∷ logs_are_namespaced_by_kind
      ∷ replay_skips_events_at_or_before_after_seq ∷ snapshot_roundtrips_with_seq
      ∷ delete_events_before_compacts ∷ persist_continues_numbering_after_compaction
      ∷ copy_snapshot_seeds_new_id ∷ copy_snapshot_without_source_errors
      ∷ last_seq_reports_where_the_log_ends ∷ a_write_from_a_stale_writer_is_rejected
      ∷ consecutive_writes_advance_the_expectation ∷ a_write_ahead_of_the_log_is_rejected
      ∷ a_snapshot_from_a_stale_writer_is_rejected
      ∷ a_rejected_snapshot_leaves_the_events_it_would_have_compacted
      ∷ only_one_writer_can_start_a_log ∷ fail_persist_after_lets_the_first_n_through
      ∷ fail_persist_after_zero_fails_immediately ∷ healthy_by_default_delegates_to_inner
      ∷ fail_snapshot_rejects_saves_but_not_persists
      ∷ fail_replay_at_truncates_the_stream_with_an_error ∷ the_wrapper_forwards_the_write_condition
      ∷ [])
    ≡ true
unfolding execute passes drain persist replay save_snapshot latest_snapshot delete_events_before
    copy_snapshot last_seq clear admit push_event push_events events_after entry_of get insert
    wrapping fail_persist_after fail_snapshot fail_replay_at delegated faulty_persist faulty_replay
    faulty_save_snapshot faulty until_failure
journals-pass = refl
