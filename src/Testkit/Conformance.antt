-- ===== src/Testkit/Conformance.antt =====
-- The contract of a journal as executable assertions, `conformance` in src/testkit.rs. An assertion is
-- a list of statements; one that panics fails the whole.
pub mod Simulated
use horsie_actor.Base.{
  ℕ, ◌&&◌, Bool, true, false, not, Option, none, some, List, [], ◌∷◌, Text, Bytes, Result, ok, err,
  is_ok, codes, ◌==◌, nat_eq, list_eq, list_beq, if◌then◌else◌,
}
use mathlib.Core.Option
use horsie_actor.PersistenceId.{PersistenceId}
use horsie_actor.Journal.{Journal, JournalResult}

-- `j.op(..).await.unwrap()`, `assert!(j.op(..).await.is_err())`, or `assert_eq!` of what a query returns.
-- `drained` is of `drain`, and `first_is` of the first item of a replay.
pub data Statement : Type 0 where
  persists : PersistenceId → List Bytes → ℕ → Statement
  persist_fails : PersistenceId → List Bytes → ℕ → Statement
  saves : PersistenceId → Bytes → ℕ → Statement
  save_fails : PersistenceId → Bytes → ℕ → Statement
  deletes : PersistenceId → ℕ → Statement
  copies : PersistenceId → PersistenceId → Statement
  copy_fails : PersistenceId → PersistenceId → Statement
  clears : PersistenceId → Statement
  drained : PersistenceId → ℕ → List Bytes → Statement
  first_is : PersistenceId → ℕ → ℕ → Bytes → Statement
  latest_is : PersistenceId → Option (Bytes × ℕ) → Statement
  last_is : PersistenceId → ℕ → Statement

-- `drain`: the events, or none where an item is an error.
unfoldable pub drain : List (JournalResult (ℕ × Bytes)) → Option (List Bytes)
drain [] = some []
drain (err e ∷ rest) = none
drain (ok (seq, bytes) ∷ rest) = Option.map (λ out. bytes ∷ out) (drain rest)

abbrev pub is_drained : Option (List Bytes) → List Bytes → Bool
is_drained none expected = false
is_drained (some out) expected = out == expected

abbrev pub is_first : List (JournalResult (ℕ × Bytes)) → ℕ → Bytes → Bool
is_first [] n bytes = false
is_first (err e ∷ rest) n bytes = false
is_first (ok (seq, found) ∷ rest) n bytes = if seq == n then found == bytes else false

abbrev pub is_snapshot : Option (Bytes × ℕ) → Option (Bytes × ℕ) → Bool
is_snapshot none none = true
is_snapshot (some (a, n)) (some (b, m)) = if a == b then n == m else false
is_snapshot _ _ = false

abbrev pub is_latest : JournalResult (Option (Bytes × ℕ)) → Option (Bytes × ℕ) → Bool
is_latest (err e) expected = false
is_latest (ok found) expected = is_snapshot found expected

abbrev pub is_last : JournalResult ℕ → ℕ → Bool
is_last (err e) expected = false
is_last (ok found) expected = found == expected

module _ {J : Type 0} (o : Journal J) where
  abbrev pub succeeds : JournalResult (Unit {0}) × J → Bool × J
  succeeds done = (is_ok done.0, done.1)

  abbrev pub is_refused : JournalResult (Unit {0}) × J → Bool × J
  is_refused done = (not (is_ok done.0), done.1)

  -- Whether the statement went through, and the journal after it.
  unfoldable pub execute : J → Statement → Bool × J
  unfolding drain
  execute j (persists pid events n) = succeeds (o.persist j pid events n)
  execute j (persist_fails pid events n) = is_refused (o.persist j pid events n)
  execute j (saves pid state n) = succeeds (o.save_snapshot j pid state n)
  execute j (save_fails pid state n) = is_refused (o.save_snapshot j pid state n)
  execute j (deletes pid n) = succeeds (o.delete_events_before j pid n)
  execute j (copies from to) = succeeds (o.copy_snapshot j from to)
  execute j (copy_fails from to) = is_refused (o.copy_snapshot j from to)
  execute j (clears pid) = succeeds (o.clear j pid)
  execute j (drained pid after events) = (is_drained (drain (o.replay j pid after)) events, j)
  execute j (first_is pid after n bytes) = (is_first (o.replay j pid after) n bytes, j)
  execute j (latest_is pid expected) = (is_latest (o.latest_snapshot j pid) expected, j)
  execute j (last_is pid n) = (is_last (o.last_seq j pid) n, j)

  unfoldable pub passes : J → List Statement → Bool
  unfolding execute
  passes j [] = true
  passes j (s ∷ rest) =
      let (went, after) = execute j s in
      let later = passes after rest in if went then later else false

abbrev pub pid : Text → PersistenceId
pid id = record { kind = codes "conformance"; id = id }

abbrev pub named : Text → Text → PersistenceId
named kind id = record { kind = kind; id = id }

abbrev pub one : Bytes
one = 1 ∷ []

abbrev pub two : Bytes
two = 2 ∷ []

abbrev pub three : Bytes
three = 3 ∷ []

abbrev pub persist_then_replay_returns_events_in_order : List Statement
persist_then_replay_returns_events_in_order =
    persists (pid (codes "order")) (one ∷ two ∷ three ∷ []) 0
    ∷ drained (pid (codes "order")) 0 (one ∷ two ∷ three ∷ [])
    ∷ []

abbrev pub replay_skips_events_at_or_before_after_seq : List Statement
replay_skips_events_at_or_before_after_seq =
    persists (pid (codes "skip")) (one ∷ two ∷ three ∷ []) 0
    ∷ drained (pid (codes "skip")) 1 (two ∷ three ∷ [])
    ∷ []

abbrev pub logs_are_namespaced_by_kind : List Statement
logs_are_namespaced_by_kind =
    persists (named (codes "workflow") (codes "shared")) (one ∷ []) 0
    ∷ persists (named (codes "agent") (codes "shared")) (two ∷ []) 0
    ∷ first_is (named (codes "workflow") (codes "shared")) 0 1 one
    ∷ first_is (named (codes "agent") (codes "shared")) 0 1 two
    ∷ []

abbrev pub clear_removes_all_state : List Statement
clear_removes_all_state =
    persists (pid (codes "cleared")) (one ∷ []) 0
    ∷ clears (pid (codes "cleared"))
    ∷ drained (pid (codes "cleared")) 0 []
    ∷ last_is (pid (codes "cleared")) 0
    ∷ []

abbrev pub persist_continues_numbering_after_compaction : List Statement
persist_continues_numbering_after_compaction =
    persists (pid (codes "numbering")) (one ∷ two ∷ []) 0
    ∷ deletes (pid (codes "numbering")) 2
    ∷ persists (pid (codes "numbering")) (three ∷ []) 2
    ∷ drained (pid (codes "numbering")) 2 (three ∷ [])
    ∷ []

abbrev pub snapshot_roundtrips_with_seq : List Statement
snapshot_roundtrips_with_seq =
    persists (pid (codes "snap")) (one ∷ two ∷ []) 0
    ∷ saves (pid (codes "snap")) (9 ∷ 9 ∷ []) 2
    ∷ latest_is (pid (codes "snap")) (some (9 ∷ 9 ∷ [], 2))
    ∷ []

abbrev pub delete_events_before_compacts : List Statement
delete_events_before_compacts =
    persists (pid (codes "compact")) (one ∷ two ∷ three ∷ []) 0
    ∷ deletes (pid (codes "compact")) 2
    ∷ drained (pid (codes "compact")) 0 (three ∷ [])
    ∷ []

abbrev pub copy_snapshot_seeds_new_id : List Statement
copy_snapshot_seeds_new_id =
    persists (pid (codes "src")) (one ∷ two ∷ []) 0
    ∷ saves (pid (codes "src")) (7 ∷ []) 2
    ∷ copies (pid (codes "src")) (pid (codes "dst"))
    ∷ latest_is (pid (codes "dst")) (some (7 ∷ [], 2))
    ∷ drained (pid (codes "dst")) 2 []
    ∷ last_is (pid (codes "dst")) 2
    ∷ persists (pid (codes "dst")) ((8 ∷ []) ∷ []) 2
    ∷ []

abbrev pub copy_snapshot_without_source_errors : List Statement
copy_snapshot_without_source_errors = copy_fails (pid (codes "missing")) (pid (codes "dst2")) ∷ []

abbrev pub snapshot_then_compact_leaves_only_later_events : List Statement
snapshot_then_compact_leaves_only_later_events =
    persists (pid (codes "e2e")) (one ∷ two ∷ []) 0
    ∷ saves (pid (codes "e2e")) (42 ∷ []) 2
    ∷ deletes (pid (codes "e2e")) 2
    ∷ persists (pid (codes "e2e")) (three ∷ []) 2
    ∷ latest_is (pid (codes "e2e")) (some (42 ∷ [], 2))
    ∷ drained (pid (codes "e2e")) 0 (three ∷ [])
    ∷ []

abbrev pub last_seq_reports_where_the_log_ends : List Statement
last_seq_reports_where_the_log_ends =
    last_is (pid (codes "tip")) 0
    ∷ persists (pid (codes "tip")) (one ∷ two ∷ []) 0
    ∷ last_is (pid (codes "tip")) 2
    ∷ []

abbrev pub persist_rejects_a_stale_writer : List Statement
persist_rejects_a_stale_writer =
    persists (pid (codes "stale")) (one ∷ []) 0
    ∷ persist_fails (pid (codes "stale")) (two ∷ []) 0
    ∷ drained (pid (codes "stale")) 0 (one ∷ [])
    ∷ []

abbrev pub persist_rejects_a_writer_ahead_of_the_log : List Statement
persist_rejects_a_writer_ahead_of_the_log =
    persist_fails (pid (codes "ahead")) (one ∷ []) 5 ∷ drained (pid (codes "ahead")) 0 [] ∷ []

abbrev pub save_snapshot_rejects_a_stale_writer : List Statement
save_snapshot_rejects_a_stale_writer =
    persists (pid (codes "snapfence")) (one ∷ two ∷ []) 0
    ∷ save_fails (pid (codes "snapfence")) (9 ∷ []) 1
    ∷ latest_is (pid (codes "snapfence")) none
    ∷ drained (pid (codes "snapfence")) 0 (one ∷ two ∷ [])
    ∷ []

abbrev pub only_one_writer_can_start_a_log : List Statement
only_one_writer_can_start_a_log =
    persists (pid (codes "race")) (one ∷ []) 0
    ∷ persist_fails (pid (codes "race")) (two ∷ []) 0
    ∷ drained (pid (codes "race")) 0 (one ∷ [])
    ∷ []

-- Each runs on a journal of its own.
abbrev pub suite : List (List Statement)
suite =
    persist_then_replay_returns_events_in_order ∷ replay_skips_events_at_or_before_after_seq
    ∷ logs_are_namespaced_by_kind ∷ clear_removes_all_state
    ∷ persist_continues_numbering_after_compaction ∷ snapshot_roundtrips_with_seq
    ∷ delete_events_before_compacts ∷ copy_snapshot_seeds_new_id
    ∷ copy_snapshot_without_source_errors ∷ snapshot_then_compact_leaves_only_later_events
    ∷ last_seq_reports_where_the_log_ends ∷ persist_rejects_a_stale_writer
    ∷ persist_rejects_a_writer_ahead_of_the_log ∷ save_snapshot_rejects_a_stale_writer
    ∷ only_one_writer_can_start_a_log ∷ []
