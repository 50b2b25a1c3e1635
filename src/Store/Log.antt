-- ===== src/Store/Log.antt =====
-- The log of src/cluster/store.rs: its order, and what appending, truncating and purging leave.
use horsie_actor.Base.{
  ℕ, ◌+◌, ◌≤◌, ◌≡◌, refl, Bool, Option, none, some, List, [], ◌∷◌, ◌++◌, foldl, retain, arith,
  nat_eq, ltb, leb, if◌then◌else◌, All,
}
use horsie_actor.Map.{Map, get}
use horsie_actor.Store.{
  Entry, Persisted, Codec, last_value, log_state, insert_entry, append, truncate_after, purge,
}
use horsie_actor.Store.Ordered.{
  Ascending, UpTo, UpTo-btree_insert, get-btree_insert, get-retain, Ascending-btree_insert,
  Ascending-retain, last_value-btree_insert, last_value-cut,
}

module _ {Vote LogId Members : Type 0} (codec : Codec Vote LogId Members) where
  -- The entries are in order, each under its own index.
  pub record IsLog (m : Map ℕ (Entry LogId Members)) : Type 0 where
    pub ascending : Ascending m
    pub own : (j : ℕ) (e : Entry LogId Members) → get m j ≡ some e → codec.index e.log_id ≡ j

  insert_entry-IsLog :
      (m : Map ℕ (Entry LogId Members)) (e : Entry LogId Members)
      → IsLog m
      → IsLog (insert_entry codec m e)
  insert_entry-IsLog m e i = record {
    ascending = Ascending-btree_insert m (codec.index e.log_id) e i.ascending;
    own = λ j x h. ground (arith, h, get-btree_insert m (codec.index e.log_id) j e, i.own j x);
  }

  foldl-IsLog :
      (m : Map ℕ (Entry LogId Members)) (es : List (Entry LogId Members))
      → IsLog m
      → IsLog (foldl (insert_entry codec) m es)
  foldl-IsLog m [] i = i
  foldl-IsLog m (e ∷ es) i = foldl-IsLog (insert_entry codec m e) es (insert_entry-IsLog m e i)

  retain-IsLog :
      (keep : ℕ → Bool) (m : Map ℕ (Entry LogId Members))
      → IsLog m
      → IsLog (retain (λ e. keep e.0) m)
  retain-IsLog keep m i = record {
    ascending = Ascending-retain keep m i.ascending;
    own = λ j x h. i.own j x (ground (arith, h, get-retain keep m j));
  }

  -- The order of the log, with every entry under its own index, stays through every append, every
  -- truncation and every purge.
  pub written-IsLog :
      (s : Persisted Vote LogId Members)
      → IsLog s.entries
      → ((es : List (Entry LogId Members)) → IsLog (append codec es s).entries)
        × ((last : Option LogId) → IsLog (truncate_after codec last s).entries)
        × ((id : LogId) → IsLog (purge codec id s).entries)
  unfolding append truncate_after purge
  written-IsLog s i = (
    λ es. foldl-IsLog s.entries es i,
    λ last.
        retain-IsLog (λ j. ltb j (elim last [ none ↦ 0 | some id ↦ codec.index id + 1 ])) s.entries
          i,
    λ id. retain-IsLog (λ j. ltb (codec.index id) j) s.entries i,
  )

  -- An index holds what it held if it is not past the one that a truncation names, or if it is past
  -- the one that a purge names, and nothing otherwise; a truncation that names none empties the log.
  pub truncate_after-purge-get :
      (s : Persisted Vote LogId Members) (id : LogId) (j : ℕ)
      → (get (truncate_after codec (some id) s).entries j
          ≡ (if leb j (codec.index id) then get s.entries j else none))
        × (get (truncate_after codec none s).entries j ≡ none)
        × (get (purge codec id s).entries j
            ≡ (if leb j (codec.index id) then none else get s.entries j))
  unfolding truncate_after purge
  truncate_after-purge-get s id j = (
    ground (arith, get-retain (λ i. ltb i (codec.index id + 1)) s.entries j),
    ground (arith, get-retain (λ i. ltb i 0) s.entries j),
    ground (arith, get-retain (λ i. ltb (codec.index id) i) s.entries j),
  )

  UpTo-foldl :
      (bound : ℕ) (m : Map ℕ (Entry LogId Members)) (es : List (Entry LogId Members))
      → UpTo bound m
      → All (λ e. codec.index e.log_id ≤ bound) es
      → UpTo bound (foldl (insert_entry codec) m es)
  UpTo-foldl bound m [] u a = u
  UpTo-foldl bound m (e ∷ es) u a =
      UpTo-foldl bound (insert_entry codec m e) es
        (UpTo-btree_insert bound m (codec.index e.log_id) e a.0 u) a.1

  last-foldl :
      (m : Map ℕ (Entry LogId Members)) (es : List (Entry LogId Members)) (e : Entry LogId Members)
      → IsLog m
      → UpTo (codec.index e.log_id) m
      → All (λ x. codec.index x.log_id ≤ codec.index e.log_id) es
      → last_value (foldl (insert_entry codec) m (es ++ e ∷ [])) ≡ some e
  last-foldl m [] e i u a = last_value-btree_insert m (codec.index e.log_id) e i.ascending u
  last-foldl m (x ∷ es) e i u a =
      last-foldl (insert_entry codec m x) es e (insert_entry-IsLog m x i)
        (UpTo-btree_insert (codec.index e.log_id) m (codec.index x.log_id) x a.0 u) a.1

  -- In an ordered log, the last log id after an append is that of its last entry, if no index in the
  -- log or before it in the append is greater.
  pub log_state-append :
      (s : Persisted Vote LogId Members) (es : List (Entry LogId Members)) (e : Entry LogId Members)
      → IsLog s.entries
      → UpTo (codec.index e.log_id) s.entries
      → All (λ x. codec.index x.log_id ≤ codec.index e.log_id) es
      → log_state codec (append codec (es ++ e ∷ []) s) ≡ (s.purged, some e.log_id)
  unfolding log_state append
  log_state-append s es e i u a = rw (last-foldl s.entries es e i u a) refl

  -- In an ordered log that has an entry at the index of a log id, a truncation after that id leaves
  -- the id of this entry as the last one.
  pub log_state-truncate_after :
      (s : Persisted Vote LogId Members) (id : LogId) (e : Entry LogId Members)
      → IsLog s.entries
      → get s.entries (codec.index id) ≡ some e
      → log_state codec (truncate_after codec (some id) s) ≡ (s.purged, some e.log_id)
  unfolding log_state truncate_after
  log_state-truncate_after s id e i h =
      rw (last_value-cut s.entries (codec.index id) e i.ascending h) refl
