-- ===== src/Journal/Fence.antt =====
-- The write fence and the numbering of the journal in memory (src/journal.rs).
use horsie_actor.Base.{
  ℕ, ◌+◌, ◌≤◌, ◌<◌, ◌≡◌, ◌≢◌, refl, sym, ◌∙◌, ap, some, List, [], ◌++◌, arith, ok, err, Bytes,
  length, ◌==◌, nat_eq, nat_beq_iff, u64_mod, if◌then◌else◌, ==_refl,
}
use horsie_actor.Map.{insert}
use horsie_actor.PersistenceId.{PersistenceId, pid_eq, pid_beq_iff, to_string}
use horsie_actor.Journal.{
  Entry, InMemoryJournal, conflict, persist, replay, save_snapshot, latest_snapshot,
  delete_events_before, copy_snapshot, last_seq, admit, entry_of, events_after, all_ok,
}
use horsie_actor.Journal.Memory.{
  entry_of-persist, entry_of-save_snapshot, entry_of-delete, entry_of-insert, replay-entry_of,
  last_seq-entry_of, latest-entry_of, copy_snapshot_found,
}
use horsie_actor.Journal.Log.{
  IsLog, numbered, push_events_lem, events_after-append, events_after_top, events_after-numbered,
  events_after_compacted, events_after_bottom,
}

module _ (j : InMemoryJournal) (pid : PersistenceId) (n : ℕ)
    (behind : (entry_of j pid).last_seq ≢ n) where
  -- A write and a snapshot from a writer whose expectation is not where the log ends are refused
  -- with a conflict that names both numbers, and no log of the journal changes.
  pub stale_writer :
      (events : List Bytes) (state : Bytes) (q : PersistenceId)
      → ((persist j pid events n).0 ≡ err (conflict (to_string pid) n (entry_of j pid).last_seq))
        × (entry_of (persist j pid events n).1 q ≡ entry_of j q)
        × ((save_snapshot j pid state n).0
            ≡ err (conflict (to_string pid) n (entry_of j pid).last_seq))
        × (entry_of (save_snapshot j pid state n).1 q ≡ entry_of j q)
  stale_writer events state q = (
    unfold persist in ground arith,
    ground (arith, entry_of-persist j pid q events n, pid_beq_iff pid q),
    unfold save_snapshot in ground arith,
    ground (arith, entry_of-save_snapshot j pid q state n, pid_beq_iff pid q),
  )

module _ (j : InMemoryJournal) (pid : PersistenceId) (log : IsLog (entry_of j pid))
    (events : List Bytes) (room : (entry_of j pid).last_seq + length events < u64_mod) where
  abbrev end : ℕ
  end = (entry_of j pid).last_seq

  abbrev written : InMemoryJournal
  written = (persist j pid events end).1

  entry_of-written : entry_of written pid ≡ record (entry_of j pid) {
    events = (entry_of j pid).events ++ numbered end events;
    last_seq = end + length events;
  }
  entry_of-written =
      rw (entry_of-persist j pid pid events end, ==_refl pid, ==_refl end)
        (push_events_lem (entry_of j pid) events room)

  -- A write that expects where the log ends succeeds; afterwards a replay from the old end yields
  -- the written events in order, numbered from there on, a replay from the start yields them after
  -- what was there, and the log ends at the old end plus the number of events.
  pub replay-persist :
      ((persist j pid events end).0 ≡ ok tt)
      × (replay written pid end ≡ all_ok (numbered end events))
      × (replay written pid 0 ≡ all_ok ((entry_of j pid).events ++ numbered end events))
      × (last_seq written pid ≡ ok (end + length events))
  replay-persist = (
    unfold persist admit in ground arith,
    rw (replay-entry_of written pid end, entry_of-written)
        (ap all_ok (
          events_after-append end (entry_of j pid).events (numbered end events)
          ∙ ground (
            arith,
            events_after_top 0 end end (entry_of j pid).events log.climbs,
            events_after-numbered end end events,
          ))),
    rw (replay-entry_of written pid 0, entry_of-written)
        (ap all_ok (
          events_after-append 0 (entry_of j pid).events (numbered end events)
          ∙ ground (
            arith,
            events_after-numbered 0 end events,
            events_after_bottom 0 end 0 (entry_of j pid).events log.climbs,
          ))),
    last_seq-entry_of written pid ∙ rw entry_of-written,
  )

module _ (j : InMemoryJournal) (pid : PersistenceId) (state : Bytes) (n : ℕ) where
  pub entry_of-compacted :
      (entry_of j pid).last_seq ≡ n
      → entry_of (delete_events_before (save_snapshot j pid state n).1 pid n).1 pid
        ≡ record (entry_of j pid) {
          events = events_after n (entry_of j pid).events;
          snapshot = some (state, n);
        }
  entry_of-compacted h = rw (
    entry_of-delete (save_snapshot j pid state n).1 pid pid n,
    entry_of-save_snapshot j pid pid state n,
    ==_refl pid,
    (nat_beq_iff _ n).1 h,
  )

-- A snapshot at the end of a log followed by a compaction up to it leaves the snapshot, the number
-- where the log ends, and every replay from there on as they were: a later write is numbered on.
pub snapshot_then_compact :
    (j : InMemoryJournal) (pid : PersistenceId) (state : Bytes)
    → let end : ℕ = (entry_of j pid).last_seq in
      let compacted : InMemoryJournal =
        (delete_events_before (save_snapshot j pid state end).1 pid end).1 in
      (latest_snapshot compacted pid ≡ ok (some (state, end)))
      × (last_seq compacted pid ≡ ok end)
      × ((n : ℕ) → end ≤ n → replay compacted pid n ≡ replay j pid n)
snapshot_then_compact j pid state =
    let shape = entry_of-compacted j pid state (entry_of j pid).last_seq refl in
    (
      latest-entry_of _ pid ∙ rw shape,
      last_seq-entry_of _ pid ∙ rw shape,
      λ n h.
          replay-entry_of _ pid n
          ∙ rw shape (
              ap all_ok (events_after_compacted _ n (entry_of j pid).events h)
              ∙ sym (replay-entry_of j pid n)),
    )

-- A copied snapshot seeds the destination: it has the source's snapshot, ends where that was taken,
-- yields no event, and takes a first write only from there. Every other log stays.
pub copy_snapshot_lem :
    (j : InMemoryJournal) (from to : PersistenceId) (state : Bytes) (seq : ℕ)
    → latest_snapshot j from ≡ ok (some (state, seq))
    → ((copy_snapshot j from to).0 ≡ ok tt)
      × (latest_snapshot (copy_snapshot j from to).1 to ≡ ok (some (state, seq)))
      × (last_seq (copy_snapshot j from to).1 to ≡ ok seq)
      × ((n : ℕ) → replay (copy_snapshot j from to).1 to n ≡ [])
      × ((q : PersistenceId) → q ≢ to → entry_of (copy_snapshot j from to).1 q ≡ entry_of j q)
copy_snapshot_lem j from to state seq h =
    let seeded : Entry = record { events = []; last_seq = seq; snapshot = some (state, seq) } in
    let there : (q : PersistenceId)
        → entry_of (insert j to seeded) q ≡ (if to == q then seeded else entry_of j q) =
      λ q. entry_of-insert j to q seeded in
    rw (copy_snapshot_found j from to state seq (snapshot_there h)) (
      refl,
      latest-entry_of _ to ∙ rw (there to, ==_refl to),
      last_seq-entry_of _ to ∙ rw (there to, ==_refl to),
      λ n. replay-entry_of _ to n ∙ rw (there to, ==_refl to) (unfold events_after in refl),
      λ q d. ground (arith, there q, pid_beq_iff to q),
    )
  where
    snapshot_there :
        latest_snapshot j from ≡ ok (some (state, seq))
        → (entry_of j from).snapshot ≡ some (state, seq)
    snapshot_there p = ground (arith, latest-entry_of j from)
