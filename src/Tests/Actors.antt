-- ===== src/Tests/Actors.antt =====
-- The theorems on persistent actors (src/persistent.rs) for the counter.
use horsie_actor.Base.{ℕ, ◌≡◌, ◌≢◌, refl, none, some, List, [], ◌∷◌, ◌++◌, ok, err, arith}
use horsie_actor.PersistenceId.{to_string}
use horsie_actor.Map.{get}
use horsie_actor.Journal.{InMemoryJournal, JournalError, in_memory, entry_of, conflict}
use horsie_actor.Journal.Memory.{memory_contract}
use horsie_actor.Effect.{Flow, and_ack, and_snapshot, persist}
use horsie_actor.Persistent.{handle, encode_events, recover_between}
use horsie_actor.Persistent.Refinement.{Live, accepted, outcome, handle-Live}
use horsie_actor.Persistent.Fence.{stale_handle, stale_instance_stops, SameLogs}
use horsie_actor.Persistent.World.{World, Step, handles, here, next, IsLinear, Reach-IsLinear}
use horsie_actor.Persistent.Race.{overtaken, recovery_race}
use horsie_actor.Tests.Counter.{
  counter, number-RoundTrips, five, pid, instance_at, five-Holds, five-Live,
}

handle-Live_example :
    Live counter in_memory memory_contract
      (handle counter in_memory (instance_at 5 1) 4 five).actor
      (handle counter in_memory (instance_at 5 1) 4 five).journal
      ((5 ∷ [])
        ++ accepted counter in_memory memory_contract
            (outcome counter in_memory memory_contract (instance_at 5 1) 4 five)
            (4 ∷ []))
    × ((handle counter in_memory (instance_at 5 1) 4 five).acked
        ≡ some (7, outcome counter in_memory memory_contract (instance_at 5 1) 4 five))
unfolding and_ack and_snapshot persist
handle-Live_example =
    handle-Live counter in_memory memory_contract number-RoundTrips number-RoundTrips
      (instance_at 5 1) 4 five (5 ∷ []) (omega arith) five-Live

five_ahead : (entry_of five pid).last_seq ≢ 0
unfolding entry_of get
five_ahead h = omega (arith, h)

stale_handle_example :
    ((e : JournalError) × (outcome counter in_memory memory_contract (instance_at 0 0) 4 five
        ≡ err e))
    × SameLogs counter in_memory memory_contract five
        (handle counter in_memory (instance_at 0 0) 4 five).journal
    × ((handle counter in_memory (instance_at 0 0) 4 five).actor.state ≡ 0)
    × ((handle counter in_memory (instance_at 0 0) 4 five).actor.seq_nr ≡ 0)
    × ((handle counter in_memory (instance_at 0 0) 4 five).actor.pid ≡ pid)
unfolding memory_contract
stale_handle_example =
    stale_handle counter in_memory memory_contract (instance_at 0 0) 4 five five_ahead

four_encodes : encode_events counter (4 ∷ []) ≡ ok ((4 ∷ []) ∷ [])
unfolding encode_events
four_encodes = refl

stale_instance_stops_example :
    ((handle counter in_memory (instance_at 0 0) 4 five).flow ≡ Flow.stop)
    × ((handle counter in_memory (instance_at 0 0) 4 five).acked
        ≡ some (7, err (conflict (to_string pid) 0 (entry_of five pid).last_seq)))
unfolding and_ack and_snapshot persist
stale_instance_stops_example =
    stale_instance_stops counter (instance_at 0 0) 4 five ((4 ∷ []) ∷ []) four_encodes five_ahead

abbrev two_hosts : World (Unit {0}) ℕ InMemoryJournal
two_hosts = record { journal = five; instances = instance_at 0 0 ∷ instance_at 5 1 ∷ [] }

two_hosts-IsLinear : IsLinear counter in_memory memory_contract pid two_hosts (5 ∷ [])
unfolding memory_contract
two_hosts-IsLinear = record {
  holds = five-Holds;
  instances = (
    record { past = []; rest = 5 ∷ []; splits = refl; pid_eq = refl; state = refl; seq_nr = refl },
    (
      record {
        past = 5 ∷ [];
        rest = [];
        splits = refl;
        pid_eq = refl;
        state = refl;
        seq_nr = refl;
      },
      tt,
    ),
  );
}

abbrev after_four : World (Unit {0}) ℕ InMemoryJournal
after_four = record {
  journal = (handle counter in_memory (instance_at 5 1) 4 five).journal;
  instances = instance_at 0 0 ∷ (handle counter in_memory (instance_at 5 1) 4 five).actor ∷ [];
}

four_handled : Step counter in_memory memory_contract pid two_hosts after_four
unfolding memory_contract and_ack and_snapshot persist entry_of get
four_handled = handles (instance_at 0 0 ∷ []) [] (instance_at 5 1) 4 refl (omega arith)

Reach-IsLinear_example :
    (more : List ℕ) × IsLinear counter in_memory memory_contract pid after_four ((5 ∷ []) ++ more)
Reach-IsLinear_example =
    Reach-IsLinear counter in_memory memory_contract pid number-RoundTrips number-RoundTrips
      (5 ∷ []) two_hosts-IsLinear (next here four_handled)

five_fresh : (entry_of five pid).snapshot ≡ none
unfolding entry_of get
five_fresh = refl

recovery_race_example :
    (recover_between counter in_memory five
        (overtaken counter five pid (5 ∷ []) ((4 ∷ []) ∷ []))
        pid
      ≡ ok (4, 2))
    × ((entry_of (overtaken counter five pid (5 ∷ []) ((4 ∷ []) ∷ [])) pid).last_seq ≡ 2)
recovery_race_example =
    recovery_race counter five pid (5 ∷ []) ((4 ∷ []) ∷ []) number-RoundTrips (5 ∷ []) (4 ∷ [])
      five-Holds five_fresh four_encodes (omega arith) (omega arith)
