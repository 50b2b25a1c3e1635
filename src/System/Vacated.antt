-- ===== src/System/Vacated.antt =====
-- The release of shards that moved away, in src/system.rs.
use horsie_actor.Base.{
  ◌≡◌, refl, ap, ◌∙◌, Bool, true, false, ◌&&◌, not, none, some, List, [], ◌∷◌, foldl, any, ◌==◌,
  nat_eq, list_eq, list_beq_iff, if◌then◌else◌, arith, Bool-cases, Option-cases, inl, inr,
}
use horsie_actor.Map.{Map, get, keys}
use horsie_actor.ActorPath.{ActorPath, starts_with}
use horsie_actor.Shard.{PlacedShard, shard_root, shard_root_of}
use horsie_actor.Shard.Grammar.{shard_root_of_iff}
use horsie_actor.Node.{ClusterNode}
use horsie_actor.Registry.{Registry, RegistryEntry, path_eq, path_beq_iff}
use horsie_actor.Registry.Stopping.{stop_at-get, keys-get}
use horsie_actor.System.{
  System, placed_ltb, placed_beq, placed_insert, running, is_placed_here, release_one,
  release_vacated_shards,
}

any_none {ℓ} :
    {A : Type ℓ} (f : A → Bool) (xs : List A) → ((x : A) → f x ≡ false) → any f xs ≡ false
any_none f [] h = refl
any_none f (x ∷ xs) h = ground (arith, h x, any_none f xs h)

placed_beq-eq : (p q : PlacedShard) → placed_beq p q ≡ true → p ≡ q
placed_beq-eq p q h =
    ground (arith, list_beq_iff p.type_name q.type_name, list_beq_iff p.shard_id q.shard_id, h)

any-placed_insert :
    (f : PlacedShard → Bool) (p : PlacedShard) (ps : List PlacedShard)
    → any f (placed_insert p ps) ≡ (if f p then true else any f ps)
unfolding placed_insert
any-placed_insert f p [] = refl
any-placed_insert f p (q ∷ ps) = elim (Bool-cases (placed_ltb p q)) [
  | inl below ↦ rw (below, placed_insert) refl
  | inr other ↦ elim (Bool-cases (placed_beq p q)) [
    | inl same ↦ rw (other, same, placed_insert) (ground (arith, ap f (placed_beq-eq p q same)))
    | inr apart ↦ rw (other, apart, placed_insert) (ground (arith, any-placed_insert f p ps))
  ]
]

abbrev on_shard : (PlacedShard → Bool) → ActorPath → Bool
on_shard f path = elim (shard_root_of path) [ none ↦ false | some p ↦ f p ]

any-running :
    (f : PlacedShard → Bool) (paths : List ActorPath)
    → any f (running paths) ≡ any (on_shard f) paths
unfolding running
any-running f [] = refl
any-running f (path ∷ paths) = elim (Option-cases (shard_root_of path)) [
  | inl e ↦
      let off : on_shard f path ≡ false = rw (on_shard, e) refl in
      rw (off, e, running) (any-running f paths)
  | inr (p, e) ↦
      let on : on_shard f path ≡ f p = rw (on_shard, e) refl in
      rw (on, e, running, any-placed_insert f p (running paths), any-running f paths) refl
]

any-at :
    (f : ActorPath → Bool) (path : ActorPath) (paths : List ActorPath)
    → f path ≡ true
    → any (λ q. q == path) paths ≡ true
    → any f paths ≡ true
any-at f path [] h k = ground (arith, k)
any-at f path (q ∷ paths) h k = elim (Bool-cases (q == path)) [
  | inl same ↦ rw (ap f ((path_beq_iff q path).0 same), h) refl
  | inr apart ↦ ground (arith, any-at f path paths h, k, apart)
]

module _ {Deliver : Type 0} (node : ClusterNode Deliver) where
  abbrev released : ActorPath → PlacedShard → Bool
  released path p = not (is_placed_here node p) && starts_with path (shard_root p)

  release_one-get :
      (r : Registry) (p : PlacedShard) (path : ActorPath)
      → get (release_one node r p).live path ≡ (if released path p then none else get r.live path)
  unfolding release_one
  release_one-get r p path = elim (Bool-cases (is_placed_here node p)) [
    | inl kept ↦ ground (arith, kept)
    | inr moved ↦ ground (arith, moved, (stop_at-get r (shard_root p)).0 path)
  ]

  foldl-release_one :
      (r : Registry) (ps : List PlacedShard) (path : ActorPath)
      → get (foldl (release_one node) r ps).live path
        ≡ (if any (released path) ps then none else get r.live path)
  foldl-release_one r [] path = refl
  foldl-release_one r (p ∷ ps) path =
      ground (arith, foldl-release_one (release_one node r p) ps path, release_one-get r p path)

  on_shard-none : (q x : ActorPath) → shard_root_of q ≡ none → on_shard (released q) x ≡ false
  on_shard-none q x h = elim (Option-cases (shard_root_of x)) [
    | inl e ↦ rw (on_shard, e) refl
    | inr (p, e) ↦ rw (on_shard, e) (ground (arith, shard_root_of_iff q p, h))
  ]

  on_shard-placed :
      (q x : ActorPath) (p : PlacedShard)
      → shard_root_of q ≡ some p
      → is_placed_here node p ≡ true
      → on_shard (released q) x ≡ false
  on_shard-placed q x p h k = elim (Option-cases (shard_root_of x)) [
    | inl e ↦ rw (on_shard, e) refl
    | inr (p', e) ↦ rw (on_shard, e) (ground (arith, shard_root_of_iff q p', h, k))
  ]

  vacated_paths :
      (live : Map ActorPath RegistryEntry) (q : ActorPath)
      → (if any (on_shard (released q)) (keys live) then none else get live q)
        ≡ elim (shard_root_of q) [
          | none ↦ get live q
          | some p ↦ if is_placed_here node p then get live q else none
        ]
  vacated_paths live q = elim (Option-cases (shard_root_of q)) [
    | inl e ↦ rw (e, any_none (on_shard (released q)) (keys live) (λ x. on_shard-none q x e)) refl
    | inr (p, e) ↦ elim (Bool-cases (is_placed_here node p)) [
      | inl kept ↦
          rw
            (
              e,
              kept,
              any_none (on_shard (released q)) (keys live) (λ x. on_shard-placed q x p e kept),
            )
            refl
      | inr moved ↦ elim (Option-cases (get live q)) [
        | inl gone ↦ rw (e, moved, gone) (ground arith)
        | inr (x, there) ↦
            let under : on_shard (released q) q ≡ true =
              rw (on_shard, e) (ground (arith, moved, shard_root_of_iff q p, e)) in
            rw
              (
                e,
                moved,
                any-at (on_shard (released q)) q (keys live) under
                    (keys-get live q (ground (arith, there))),
              )
              refl
      ]
    ]
  ]

-- On a node of a cluster, what is live at a path after the vacated shards were released is what was
-- live there, if the path is under no shard's root or placement has its shard on this node, and
-- nothing otherwise.
pub vacated :
    {Command EntityId ShardId Deliver : Type 0} (s : System Command EntityId ShardId Deliver)
    (node : ClusterNode Deliver)
    → s.cluster ≡ some node
    → (q : ActorPath)
    → get (release_vacated_shards s).registry.live q ≡ elim (shard_root_of q) [
      | none ↦ get s.registry.live q
      | some p ↦ if is_placed_here node p then get s.registry.live q else none
    ]
unfolding release_vacated_shards
vacated s node h q = rw h (
    foldl-release_one node s.registry (running (keys s.registry.live)) q
    ∙ rw (any-running (released node q) (keys s.registry.live))
        (vacated_paths node s.registry.live q))
