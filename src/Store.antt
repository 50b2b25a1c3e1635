-- ===== src/Store.antt =====
-- src/cluster/store.rs: the log and the state machine of one node of the consensus, in one file that
-- every change rewrites. The types of the consensus library (votes, log ids, member sets) and the
-- encodings of serde_json are parameters; what the file system does to a write is a value of `Fault`.
pub mod Durable
pub mod Ordered
pub mod Log
pub mod Snapshots
use horsie_actor.Base.{
  ℕ, zero, suc, ◌+◌, Bool, true, false, ◌&&◌, not, Option, none, some, List, [], ◌∷◌, map, foldl,
  retain, Bytes, Result, ok, err, ◌==◌, nat_eq, ltb, leb, if◌then◌else◌,
}
use horsie_actor.Map.{Map, btree_insert}

pub data IoError : Type 0 where
  not_found invalid_data other : IoError

-- How a write of the file fails: at the creation of the temporary file, after a part of the bytes,
-- before they are on the disk, or at the rename.
pub data Fault : Type 0 where
  works create_fails sync_fails rename_fails : Fault
  write_fails : Bytes → Fault

pub record StoredMembership (LogId Members : Type 0) : Type 0 where
  pub log_id : Option LogId
  pub membership : Members

pub data EntryPayload (Members : Type 0) : Type 0 where
  blank : EntryPayload Members
  normal : List ℕ → EntryPayload Members
  members : Members → EntryPayload Members

pub record Entry (LogId Members : Type 0) : Type 0 where
  pub log_id : LogId
  pub payload : EntryPayload Members

pub record SnapshotMeta (LogId Members : Type 0) : Type 0 where
  pub last_log_id : Option LogId
  pub last_membership : StoredMembership LogId Members

-- The entries are in the order of their indices.
pub record Persisted (Vote LogId Members : Type 0) : Type 0 where
  pub vote : Option Vote
  pub entries : Map ℕ (Entry LogId Members)
  pub purged : Option LogId
  pub committed : Option LogId
  pub applied : Option LogId
  pub membership : StoredMembership LogId Members
  pub live : List ℕ
  pub snapshot : Option (SnapshotMeta LogId Members × Bytes)

abbrev pub Applied : (LogId Members : Type 0) → Type 0
Applied LogId Members = Option LogId × StoredMembership LogId Members × List ℕ

-- The encodings, and what the library gives: the index of a log id, and the empty member set.
pub record Codec (Vote LogId Members : Type 0) : Type 0 where
  pub index : LogId → ℕ
  pub no_members : Members
  pub encode : Persisted Vote LogId Members → Option Bytes
  pub decode : Bytes → Option (Persisted Vote LogId Members)
  pub encode_applied : Applied LogId Members → Option Bytes
  pub decode_applied : Bytes → Option (Applied LogId Members)

pub record Disk : Type 0 where
  pub file : Option Bytes
  pub tmp : Option Bytes

-- An empty path is a store in memory.
pub record RaftStore (Vote LogId Members : Type 0) : Type 0 where
  pub path_is_empty : Bool
  pub inner : Persisted Vote LogId Members
  pub disk : Disk

-- `BTreeMap::last_key_value`.
unfoldable pub last_value : {V : Type 0} → Map ℕ V → Option V
last_value [] = none
last_value ((k, v) ∷ rest) = elim (last_value rest) [ none ↦ some v | some w ↦ some w ]

module _ {Vote LogId Members : Type 0} (codec : Codec Vote LogId Members) where
  -- `Persisted::default`.
  unfoldable pub default : Persisted Vote LogId Members
  default = record {
    vote = none;
    entries = [];
    purged = none;
    committed = none;
    applied = none;
    membership = record { log_id = none; membership = codec.no_members };
    live = [];
    snapshot = none;
  }

  -- What `open` reads; a file that cannot be read is the error `unreadable`.
  unfoldable pub opened : Option IoError → Disk → Result IoError (Persisted Vote LogId Members)
  unfolding default
  opened (some not_found) disk = ok default
  opened (some e) disk = err e
  opened none disk = elim disk.file [
    | none ↦ ok default
    | some bytes ↦ elim (codec.decode bytes) [ none ↦ err invalid_data | some inner ↦ ok inner ]
  ]

  unfoldable pub open_store : Option IoError → Disk → Result IoError (RaftStore Vote LogId Members)
  unfolding opened
  open_store unreadable disk = elim (opened unreadable disk) [
    | err e ↦ err e
    | ok inner ↦ ok (record { path_is_empty = false; inner = inner; disk = disk })
  ]

  unfoldable pub in_memory_unsafe : RaftStore Vote LogId Members
  unfolding default
  in_memory_unsafe = record {
    path_is_empty = true;
    inner = default;
    disk = record { file = none; tmp = none };
  }

  unfoldable pub flush :
      Bool → Disk → Fault → Persisted Vote LogId Members → Result IoError (Unit {0}) × Disk
  flush path_is_empty disk fault state =
      if path_is_empty then (ok tt, disk) else elim (codec.encode state) [
        | none ↦ (err invalid_data, disk)
        | some bytes ↦ elim fault [
          | create_fails ↦ (err other, disk)
          | write_fails part ↦ (err other, record disk { tmp = some part })
          | sync_fails ↦ (err other, record disk { tmp = some bytes })
          | rename_fails ↦ (err other, record disk { tmp = some bytes })
          | works ↦ (ok tt, record disk { file = some bytes; tmp = none })
        ]
      ]

  unfoldable pub update :
      RaftStore Vote LogId Members
      → Fault
      → (Persisted Vote LogId Members → Persisted Vote LogId Members)
      → Result IoError (Unit {0}) × RaftStore Vote LogId Members
  unfolding flush
  update s fault f =
      let state = f s.inner in
      let (result, disk) = flush s.path_is_empty s.disk fault state in
      (result, record s { inner = state; disk = disk })

  -- A range of indices is a test.
  unfoldable pub try_get_log_entries :
      RaftStore Vote LogId Members → (ℕ → Bool) → List (Entry LogId Members)
  try_get_log_entries s range = map (λ e. e.1) (retain (λ e. range e.0) s.inner.entries)

  -- The purged log id and the last one.
  unfoldable pub log_state : Persisted Vote LogId Members → Option LogId × Option LogId
  unfolding last_value
  log_state s = (s.purged, elim (last_value s.entries) [ none ↦ s.purged | some e ↦ some e.log_id ])

  unfoldable pub save_vote : Vote → Persisted Vote LogId Members → Persisted Vote LogId Members
  save_vote vote s = record s { vote = some vote }

  unfoldable pub save_committed :
      Option LogId → Persisted Vote LogId Members → Persisted Vote LogId Members
  save_committed committed s = record s { committed = committed }

  abbrev pub insert_entry :
      Map ℕ (Entry LogId Members) → Entry LogId Members → Map ℕ (Entry LogId Members)
  insert_entry entries entry = btree_insert entries (codec.index entry.log_id) entry

  unfoldable pub append :
      List (Entry LogId Members) → Persisted Vote LogId Members → Persisted Vote LogId Members
  append entries s = record s { entries = foldl insert_entry s.entries entries }

  unfoldable pub truncate_after :
      Option LogId → Persisted Vote LogId Members → Persisted Vote LogId Members
  truncate_after last_log_id s =
      let from : ℕ = elim last_log_id [ none ↦ 0 | some id ↦ codec.index id + 1 ] in
      record s { entries = retain (λ e. ltb e.0 from) s.entries }

  unfoldable pub purge : LogId → Persisted Vote LogId Members → Persisted Vote LogId Members
  purge log_id s = record s {
    entries = retain (λ e. ltb (codec.index log_id) e.0) s.entries;
    purged = some log_id;
  }

  unfoldable pub apply_entry :
      Entry LogId Members → Persisted Vote LogId Members → Persisted Vote LogId Members
  apply_entry entry s =
      let t : Persisted Vote LogId Members = record s { applied = some entry.log_id } in
      elim entry.payload [
        | members m ↦ record t {
          membership = record { log_id = some entry.log_id; membership = m };
        }
        | normal live ↦ record t { live = live }
        | blank ↦ t
      ]

  -- The items that the stream gives, each with the responder that waits for it, and with how the write
  -- that follows goes; the responders that are answered are given back.
  unfoldable pub apply :
      RaftStore Vote LogId Members
      → List (Result IoError (Entry LogId Members × Option ℕ) × Fault)
      → Result IoError (Unit {0}) × RaftStore Vote LogId Members × List ℕ
  unfolding update apply_entry
  apply s [] = (ok tt, s, [])
  apply s ((err e, fault) ∷ rest) = (err e, s, [])
  apply s ((ok (entry, responder), fault) ∷ rest) =
      let (result, t) = update s fault (apply_entry entry) in
      let (last, u, answered) = apply t rest in
      elim result [
        | err e ↦ (err e, t, [])
        | ok _ ↦ (last, u, elim responder [ none ↦ answered | some r ↦ r ∷ answered ])
      ]

  unfoldable pub build_snapshot :
      RaftStore Vote LogId Members
      → Fault
      → Result IoError (SnapshotMeta LogId Members × Bytes) × RaftStore Vote LogId Members
  unfolding update
  build_snapshot s fault =
      elim (codec.encode_applied (s.inner.applied, s.inner.membership, s.inner.live)) [
        | none ↦ (err invalid_data, s)
        | some bytes ↦
            let meta : SnapshotMeta LogId Members = record {
              last_log_id = s.inner.applied;
              last_membership = s.inner.membership;
            } in
            let (result, t) = update s fault (λ p. record p { snapshot = some (meta, bytes) }) in
            (elim result [ err e ↦ err e | ok _ ↦ ok (meta, bytes) ], t)
      ]

  unfoldable pub install_snapshot :
      RaftStore Vote LogId Members
      → Fault
      → SnapshotMeta LogId Members
      → Bytes
      → Result IoError (Unit {0}) × RaftStore Vote LogId Members
  unfolding update
  install_snapshot s fault meta snapshot = elim (codec.decode_applied snapshot) [
    | none ↦ (err invalid_data, s)
    | some (applied, membership, live) ↦ update s fault (λ p. record p {
      applied = applied;
      membership = membership;
      live = live;
      snapshot = some (meta, snapshot);
    })
  ]
