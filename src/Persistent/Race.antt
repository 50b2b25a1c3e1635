-- ===== src/Persistent/Race.antt =====
-- `recover` of src/persistent.rs reads the snapshot and the log in two operations of the journal.
use horsie_actor.Base.{
  ℕ, ◌+◌, ◌<◌, ◌≡◌, refl, none, some, List, foldl, arith, Bytes, ok, length, u64_mod, nat_eq,
  ==_refl,
}
use horsie_actor.PersistenceId.{PersistenceId, pid_eq}
use horsie_actor.Journal.{
  InMemoryJournal, in_memory, persist, save_snapshot, delete_events_before, entry_of,
}
use horsie_actor.Journal.Memory.{entry_of-persist, replay-entry_of, latest-entry_of}
use horsie_actor.Journal.Log.{numbered, push_events_lem, events_after_top, events_after-numbered}
use horsie_actor.Journal.Fence.{entry_of-compacted}
use horsie_actor.Effect.{EventSourcedActor, RoundTrips}
use horsie_actor.Persistent.{snapshot_base, encode_events, recover_between}
use horsie_actor.Persistent.History.{Holds, fold, fold_replay-numbered, fold_replay-numbered_from}

module _ {Inner Command Event State Ack : Type 0}
    (a : EventSourcedActor Inner Command Event State Ack) (j : InMemoryJournal)
    (pid : PersistenceId) (state : Bytes) (encoded : List Bytes) where
  -- Another writer takes a snapshot where the log ends, compacts up to it, and writes on.
  abbrev pub overtaken : InMemoryJournal
  overtaken =
      (persist
        (delete_events_before (save_snapshot j pid state (entry_of j pid).last_seq).1 pid
          (entry_of j pid).last_seq).1
        pid encoded (entry_of j pid).last_seq).1

  entry_of-overtaken :
      (history : List Event)
      → Holds a (entry_of j pid) history
      → (entry_of j pid).last_seq + length encoded < u64_mod
      → entry_of overtaken pid ≡ record {
        events = numbered (entry_of j pid).last_seq encoded;
        last_seq = (entry_of j pid).last_seq + length encoded;
        snapshot = some (state, (entry_of j pid).last_seq);
      }
  entry_of-overtaken history holds room =
      let end : ℕ = (entry_of j pid).last_seq in
      let shape = entry_of-compacted j pid state end refl in
      rw
        (
          entry_of-persist _ pid pid encoded end,
          ==_refl pid,
          shape,
          ==_refl end,
          events_after_top 0 end end (entry_of j pid).events holds.log.climbs (omega arith),
        )
        (push_events_lem _ encoded room)

  -- A recovery of a log with no snapshot, between whose two reads another writer takes a snapshot,
  -- compacts and writes on, succeeds with the fold of the later events alone: the history up to
  -- the snapshot is lost. Its number is where the log ends, so the write fence does not catch it.
  pub recovery_race :
      RoundTrips a.event_serde
      → (history more : List Event) → Holds a (entry_of j pid) history
      → (entry_of j pid).snapshot ≡ none
      → encode_events a more ≡ ok encoded
      → 0 < length more
      → length history + length more < u64_mod
      → (recover_between a in_memory j overtaken pid
          ≡ ok (foldl a.apply_event a.initial_state more, length history + length more))
        × ((entry_of overtaken pid).last_seq ≡ length history + length more)
  unfolding recover_between snapshot_base
  recovery_race trips history more holds fresh h some_more room =
      let size : length encoded ≡ length more =
        (fold_replay-numbered a trips more encoded (fold a history) 0 h).1 in
      let fits : (entry_of j pid).last_seq + length encoded < u64_mod =
        omega (arith, holds.count) in
      let shape = entry_of-overtaken history holds fits in
      (
        rw (
          latest-entry_of j pid,
          fresh,
          replay-entry_of overtaken pid 0,
          shape,
          events_after-numbered 0 (entry_of j pid).last_seq encoded (omega arith),
          fold_replay-numbered_from a trips more encoded a.initial_state 0 (entry_of j pid).last_seq
              h some_more,
          holds.count,
        ),
        rw shape (omega (arith, holds.count)),
      )
