-- ===== src/Store/Durable.antt =====
-- What a node finds after a restart, in src/cluster/store.rs.
use horsie_actor.Base.{
  ◌≡◌, refl, false, none, some, List, [], ◌∷◌, Bytes, ok, arith, is_ok, if◌then◌else◌, Option-cases,
  Result-cases, inl, inr,
}
use horsie_actor.Store.{
  Fault, works, create_fails, sync_fails, rename_fails, write_fails, Persisted, Codec, Disk,
  RaftStore, opened, open_store, flush, update,
}

module _ {Vote LogId Members : Type 0} (codec : Codec Vote LogId Members) where
  -- Any sequence of changes, each with how its write goes.
  abbrev pub updates :
      RaftStore Vote LogId Members
      → List (Fault × (Persisted Vote LogId Members → Persisted Vote LogId Members))
      → RaftStore Vote LogId Members
  updates s [] = s
  updates s ((fault, f) ∷ rest) = updates (update codec s fault f).1 rest

  -- The state after the last of the changes that succeeded: all changes up to it are in it, also
  -- those that failed.
  abbrev pub last_saved :
      RaftStore Vote LogId Members
      → Persisted Vote LogId Members
      → List (Fault × (Persisted Vote LogId Members → Persisted Vote LogId Members))
      → Persisted Vote LogId Members
  last_saved s saved [] = saved
  last_saved s saved ((fault, f) ∷ rest) =
      let (result, t) = update codec s fault f in
      last_saved t (if is_ok result then f s.inner else saved) rest

  -- Decoding reads back what was encoded.
  abbrev pub RoundTrips : Type 0
  RoundTrips =
      (p : Persisted Vote LogId Members) (bytes : Bytes)
      → codec.encode p ≡ some bytes
      → codec.decode bytes ≡ some p

  abbrev pub Reopens :
      Disk → Fault → Persisted Vote LogId Members → Persisted Vote LogId Members → Type 0
  Reopens disk fault state saved =
      let (result, after) = flush codec false disk fault state in
      opened codec none after ≡ ok (if is_ok result then state else saved)

  encoded-Reopens :
      (disk : Disk) (fault : Fault) (state saved : Persisted Vote LogId Members) (bytes : Bytes)
      → RoundTrips
      → codec.encode state ≡ some bytes
      → opened codec none disk ≡ ok saved
      → Reopens disk fault state saved
  unfolding opened flush
  encoded-Reopens disk works state saved bytes trip e h = rw (e, trip state bytes e) refl
  encoded-Reopens disk create_fails state saved bytes trip e h = rw e h
  encoded-Reopens disk (write_fails part) state saved bytes trip e h = rw e h
  encoded-Reopens disk sync_fails state saved bytes trip e h = rw e h
  encoded-Reopens disk rename_fails state saved bytes trip e h = rw e h

  pub flush-Reopens :
      (disk : Disk) (fault : Fault) (state saved : Persisted Vote LogId Members)
      → RoundTrips
      → opened codec none disk ≡ ok saved
      → Reopens disk fault state saved
  unfolding flush
  flush-Reopens disk fault state saved trip h = elim (Option-cases (codec.encode state)) [
    | inl e ↦ rw (e, flush) h
    | inr (bytes, e) ↦ encoded-Reopens disk fault state saved bytes trip e h
  ]

  updates-file :
      (s : RaftStore Vote LogId Members) (saved : Persisted Vote LogId Members)
      (ops : List (Fault × (Persisted Vote LogId Members → Persisted Vote LogId Members)))
      → RoundTrips
      → s.path_is_empty ≡ false
      → opened codec none s.disk ≡ ok saved
      → (opened codec none (updates s ops).disk ≡ ok (last_saved s saved ops))
        × ((updates s ops).path_is_empty ≡ false)
  unfolding update
  updates-file s saved [] trip on h = (h, on)
  updates-file s saved ((fault, f) ∷ rest) trip on h =
      updates-file (update codec s fault f).1
        (if is_ok (update codec s fault f).0 then f s.inner else saved) rest trip on
        (rw on (flush-Reopens s.disk fault (f s.inner) saved trip h))

  -- Where decoding reads back what was encoded, a node that restarts after any changes, whatever
  -- became of the write of each, has the state as the last change that was reported as made left it,
  -- or what it had opened when there was none.
  pub open-updates :
      (disk : Disk) (s : RaftStore Vote LogId Members)
      (ops : List (Fault × (Persisted Vote LogId Members → Persisted Vote LogId Members)))
      → RoundTrips
      → open_store codec none disk ≡ ok s
      → open_store codec none (updates s ops).disk
        ≡ ok (record {
          path_is_empty = false;
          inner = last_saved s s.inner ops;
          disk = (updates s ops).disk;
        })
  unfolding open_store
  open-updates disk s ops trip h = elim (Result-cases (opened codec none disk)) [
    | inr (x, e) ↦ absurd (ground (arith, h, e))
    | inl (inner, e) ↦
        let fresh : RaftStore Vote LogId Members = record {
          path_is_empty = false;
          inner = inner;
          disk = disk;
        } in
        let found : fresh ≡ s = ground (arith, h, e) in
        let at : opened codec none s.disk ≡ ok s.inner = rw (← found) e in
        let on : s.path_is_empty ≡ false = rw (← found) refl in
        rw (open_store, (updates-file s s.inner ops trip on at).0) refl
  ]
