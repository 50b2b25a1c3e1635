-- ===== src/Store/Snapshots.antt =====
-- The state machine of src/cluster/store.rs: what applying entries leaves, and a snapshot's way from
-- one node to another.
use horsie_actor.Base.{
  ℕ, ◌≡◌, refl, sym, ap, ◌∙◌, false, Option, none, some, List, [], ◌∷◌, Bytes, Result, ok, err,
  arith, is_ok, if◌then◌else◌, Option-cases, Result-cases, inl, inr,
}
use horsie_actor.Store.{
  IoError, Fault, Entry, Persisted, Applied, Codec, RaftStore, SnapshotMeta, opened, flush, update,
  apply_entry, apply, build_snapshot, install_snapshot,
}
use horsie_actor.Store.Durable.{RoundTrips, flush-Reopens}

module _ {Vote LogId Members : Type 0} (codec : Codec Vote LogId Members) where
  abbrev pub Item : Type 0
  Item = Result IoError (Entry LogId Members × Option ℕ) × Fault

  -- The state and the answers that the items call for, when nothing fails.
  abbrev pub applied_all : Persisted Vote LogId Members → List Item → Persisted Vote LogId Members
  applied_all p [] = p
  applied_all p ((err e, fault) ∷ rest) = p
  applied_all p ((ok (entry, responder), fault) ∷ rest) =
      applied_all (apply_entry codec entry p) rest

  abbrev pub responders : List Item → List ℕ
  responders [] = []
  responders ((err e, fault) ∷ rest) = []
  responders ((ok (entry, responder), fault) ∷ rest) =
      let others = responders rest in elim responder [ none ↦ others | some r ↦ r ∷ others ]

  update-opened :
      (s : RaftStore Vote LogId Members) (fault : Fault)
      (f : Persisted Vote LogId Members → Persisted Vote LogId Members)
      → RoundTrips codec
      → s.path_is_empty ≡ false
      → opened codec none s.disk ≡ ok s.inner
      → (update codec s fault f).0 ≡ ok tt
      → opened codec none (update codec s fault f).1.disk ≡ ok (f s.inner)
  unfolding update
  update-opened s fault f trip on at done =
      let saved = flush-Reopens codec s.disk fault (f s.inner) s.inner trip at in
      let good : (flush codec false s.disk fault (f s.inner)).0 ≡ ok tt = rw (← on) done in
      rw on (saved ∙ ap (λ r. ok (if is_ok r then f s.inner else s.inner)) good)

  -- Where decoding reads back what was encoded, for a store whose file holds its state: when the
  -- stream is applied without an error, every entry is in the state in order, every responder is
  -- answered in order, and a restart would find this state.
  pub apply_lem :
      (s : RaftStore Vote LogId Members) (items : List Item)
      → RoundTrips codec
      → s.path_is_empty ≡ false
      → opened codec none s.disk ≡ ok s.inner
      → (apply codec s items).0 ≡ ok tt
      → ((apply codec s items).1.inner ≡ applied_all s.inner items)
        × ((apply codec s items).2 ≡ responders items)
        × (opened codec none (apply codec s items).1.disk ≡ ok (applied_all s.inner items))
  unfolding apply
  apply_lem s [] trip on at done = (refl, refl, at)
  apply_lem s ((err e, fault) ∷ rest) trip on at done = absurd (ground (arith, done))
  apply_lem s ((ok (entry, responder), fault) ∷ rest) trip on at done =
      let f = apply_entry codec entry in
      let t = (update codec s fault f).1 in
      elim (Result-cases (update codec s fault f).0) [
        | inr (x, e) ↦ absurd (ground (arith, done, e))
        | inl (u, e) ↦
            let later : (apply codec t rest).0 ≡ ok tt = ground (arith, done, e) in
            let found = apply_lem t rest trip on (update-opened s fault f trip on at e) later in
            rw (apply, e)
              (
                found.0,
                ap (λ answered. elim responder [ none ↦ answered | some r ↦ r ∷ answered ]) found.1,
                found.2,
              )
      ]

  -- Where decoding an applied state reads back what was encoded: of a snapshot that one node built,
  -- another that installs it takes over the applied log id, the member set and the live set, and
  -- keeps the snapshot; its log and its vote stay its own. The snapshot is described by the first
  -- node's log id and member set.
  pub install_snapshot-build_snapshot :
      (s t : RaftStore Vote LogId Members) (f g : Fault) (meta : SnapshotMeta LogId Members)
      (bytes : Bytes)
      → ((a : Applied LogId Members) (b : Bytes)
          → codec.encode_applied a ≡ some b
          → codec.decode_applied b ≡ some a)
      → (build_snapshot codec s f).0 ≡ ok (meta, bytes)
      → (install_snapshot codec t g meta bytes).1.inner ≡ record t.inner {
        applied = s.inner.applied;
        membership = s.inner.membership;
        live = s.inner.live;
        snapshot = some (meta, bytes);
      }
        × (meta ≡ record { last_log_id = s.inner.applied; last_membership = s.inner.membership })
  unfolding build_snapshot install_snapshot update
  install_snapshot-build_snapshot s t f g meta bytes trip built =
      let whole : Applied LogId Members = (s.inner.applied, s.inner.membership, s.inner.live) in
      elim (Option-cases (codec.encode_applied whole)) [
        | inl e ↦ absurd (ground (arith, built, e))
        | inr (b, e) ↦
            let made : SnapshotMeta LogId Members = record {
              last_log_id = s.inner.applied;
              last_membership = s.inner.membership;
            } in
            elim (Result-cases (update codec s f (λ p. record p { snapshot = some (made, b) })).0) [
              | inr (x, h) ↦ absurd (ground (arith, built, e, h))
              | inl (u, h) ↦
                  let same : (made ≡ meta) × (b ≡ bytes) = ground (arith, built, e, h) in
                  let back : codec.decode_applied bytes ≡ some whole =
                    trip whole bytes (e ∙ ap some same.1) in
                  (rw (install_snapshot, back) refl, sym same.0)
            ]
      ]
