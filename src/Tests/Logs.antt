-- ===== src/Tests/Logs.antt =====
-- The theorems on the journal in memory (src/journal.rs) at concrete logs.
use horsie_actor.Base.{◌+◌, ◌≡◌, ◌≢◌, ◌<◌, refl, List, [], ◌∷◌, ◌++◌, Bytes, ok, err, arith, codes}
use horsie_actor.PersistenceId.{PersistenceId, to_string}
use horsie_actor.Map.{get}
use horsie_actor.Journal.{entry_of, conflict, persist, replay, last_seq, save_snapshot, all_ok}
use horsie_actor.Journal.Log.{IsLog, numbered}
use horsie_actor.Journal.Fence.{stale_writer, replay-persist}
use horsie_actor.Journal.Reach.{start, next, persists, Reach-IsLog}
use horsie_actor.Tests.Counter.{five, pid}

five_behind : (entry_of five pid).last_seq ≢ 0
unfolding entry_of get
five_behind h = omega (arith, h)

five-IsLog : IsLog (entry_of five pid)
unfolding entry_of get
five-IsLog = record { climbs = ground arith; snapshot_below = tt; in_range = omega arith }

five_end : (entry_of five pid).last_seq ≡ 1
unfolding entry_of get
five_end = refl

abbrev two : List Bytes
two = (2 ∷ []) ∷ (3 ∷ []) ∷ []

-- A journal with a snapshot at 4.
abbrev template : PersistenceId
template = record { kind = codes "counter"; id = codes "1" }

stale_writer_example :
    ((persist five pid two 0).0 ≡ err (conflict (to_string pid) 0 (entry_of five pid).last_seq))
    × (entry_of (persist five pid two 0).1 template ≡ entry_of five template)
    × ((save_snapshot five pid (9 ∷ []) 0).0
        ≡ err (conflict (to_string pid) 0 (entry_of five pid).last_seq))
    × (entry_of (save_snapshot five pid (9 ∷ []) 0).1 template ≡ entry_of five template)
stale_writer_example = stale_writer five pid 0 five_behind two (9 ∷ []) template

replay-persist_example :
    ((persist five pid two (entry_of five pid).last_seq).0 ≡ ok tt)
    × (replay (persist five pid two (entry_of five pid).last_seq).1 pid (entry_of five pid).last_seq
        ≡ all_ok (numbered (entry_of five pid).last_seq two))
    × (replay (persist five pid two (entry_of five pid).last_seq).1 pid 0
        ≡ all_ok ((entry_of five pid).events ++ numbered (entry_of five pid).last_seq two))
    × (last_seq (persist five pid two (entry_of five pid).last_seq).1 pid
        ≡ ok ((entry_of five pid).last_seq + 2))
replay-persist_example = replay-persist five pid five-IsLog two (omega (arith, five_end))

fresh_room : (entry_of [] pid).last_seq + 2 < 18446744073709551616
unfolding entry_of get
fresh_room = omega arith

Reach-IsLog_example : IsLog (entry_of (persist [] pid two 0).1 template)
Reach-IsLog_example = Reach-IsLog (next start (persists pid two 0) fresh_room) template
