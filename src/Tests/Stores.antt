-- ===== src/Tests/Stores.antt =====
-- The theorems on src/cluster/store.rs at a store whose votes, log ids and member sets are numbers.
use horsie_actor.Base.{
  ℕ, zero, suc, ◌≡◌, refl, false, Option, none, some, List, [], ◌∷◌, Bytes, ok, arith,
}
use horsie_actor.Map.{Map, get}
use horsie_actor.Store.{
  Fault, works, rename_fails, Entry, blank, normal, SnapshotMeta, Persisted, Applied, Codec, Disk,
  RaftStore, default, open_store, in_memory_unsafe, save_vote, append, apply,
}
use horsie_actor.Store.Durable.{RoundTrips, updates, last_saved, open-updates}
use horsie_actor.Store.Log.{IsLog, written-IsLog}
use horsie_actor.Store.Snapshots.{Item}

abbrev State : Type 0
State = Persisted ℕ ℕ ℕ

abbrev opt : Option ℕ → ℕ
opt none = 0
opt (some n) = suc n

abbrev unopt : ℕ → Option ℕ
unopt zero = none
unopt (suc n) = some n

unopt-opt : (o : Option ℕ) → unopt (opt o) ≡ o
unopt-opt none = refl
unopt-opt (some n) = refl

-- A state without entries and snapshots is encoded, any other is not.
abbrev pack :
    Option ℕ
    → Map ℕ (Entry ℕ ℕ)
    → Option ℕ
    → Option ℕ
    → Option ℕ
    → Option ℕ
    → ℕ
    → List ℕ
    → Option (SnapshotMeta ℕ ℕ × Bytes)
    → Option Bytes
pack vote [] none none applied none m live none = some (opt vote ∷ opt applied ∷ m ∷ live)
pack _ _ _ _ _ _ _ _ _ = none

abbrev encode : State → Option Bytes
encode p =
    pack p.vote p.entries p.purged p.committed p.applied p.membership.log_id p.membership.membership
      p.live p.snapshot

abbrev decode : Bytes → Option State
decode (vote ∷ applied ∷ m ∷ live) = some (record {
  vote = unopt vote;
  entries = [];
  purged = none;
  committed = none;
  applied = unopt applied;
  membership = record { log_id = none; membership = m };
  live = live;
  snapshot = none;
})
decode _ = none

abbrev encode_applied : Applied ℕ ℕ → Option Bytes
encode_applied (applied, membership, live) =
    some (opt applied ∷ opt membership.log_id ∷ membership.membership ∷ live)

abbrev decode_applied : Bytes → Option (Applied ℕ ℕ)
decode_applied (applied ∷ id ∷ m ∷ live) =
    some (unopt applied, record { log_id = unopt id; membership = m }, live)
decode_applied _ = none

abbrev codec : Codec ℕ ℕ ℕ
codec = record {
  index = λ id. id;
  no_members = 0;
  encode = encode;
  decode = decode;
  encode_applied = encode_applied;
  decode_applied = decode_applied;
}

decode-pack :
    (vote : Option ℕ) (entries : Map ℕ (Entry ℕ ℕ)) (purged committed applied id : Option ℕ) (m : ℕ)
    (live : List ℕ) (snapshot : Option (SnapshotMeta ℕ ℕ × Bytes)) (bytes : Bytes)
    → pack vote entries purged committed applied id m live snapshot ≡ some bytes
    → decode bytes
      ≡ some (record {
        vote = vote;
        entries = entries;
        purged = purged;
        committed = committed;
        applied = applied;
        membership = record { log_id = id; membership = m };
        live = live;
        snapshot = snapshot;
      })
decode-pack vote [] none none applied none m live none bytes h =
    let same : opt vote ∷ opt applied ∷ m ∷ live ≡ bytes = ground (arith, h) in
    rw (← same, unopt-opt vote, unopt-opt applied) refl
decode-pack _ _ _ _ _ _ _ _ _ bytes h = absurd (ground (arith, h))

codec-RoundTrips : RoundTrips codec
codec-RoundTrips p bytes h =
    decode-pack p.vote p.entries p.purged p.committed p.applied p.membership.log_id
      p.membership.membership p.live p.snapshot bytes h

abbrev no_disk : Disk
no_disk = record { file = none; tmp = none }

abbrev fresh : RaftStore ℕ ℕ ℕ
fresh = record { path_is_empty = false; inner = default codec; disk = no_disk }

-- A vote that is saved, and one whose rename fails.
abbrev votes : List (Fault × (State → State))
votes = (works, save_vote codec 5) ∷ (rename_fails, save_vote codec 6) ∷ []

fresh_opens : open_store codec none no_disk ≡ ok fresh
unfolding open_store
fresh_opens = refl

open-updates_example :
    open_store codec none (updates codec fresh votes).disk
    ≡ ok (record {
      path_is_empty = false;
      inner = last_saved codec fresh fresh.inner votes;
      disk = (updates codec fresh votes).disk;
    })
open-updates_example = open-updates codec no_disk fresh votes codec-RoundTrips fresh_opens

abbrev items : List (Item codec)
items = (ok (record { log_id = 4; payload = normal (1 ∷ 2 ∷ []) }, some 9), works) ∷ []

abbrev first_entry : Entry ℕ ℕ
first_entry = record { log_id = 1; payload = blank }

none_yet : IsLog codec fresh.inner.entries
unfolding default
none_yet = record { ascending = tt; own = λ j e h. absurd (unfold get in ground (arith, h)) }

abbrev written : State
written = append codec (first_entry ∷ []) fresh.inner

base-IsLog : IsLog codec written.entries
base-IsLog = (written-IsLog codec fresh.inner none_yet).0 (first_entry ∷ [])

abbrev leader : RaftStore ℕ ℕ ℕ
leader = (apply codec (in_memory_unsafe codec) items).1
