-- ===== src/System/Hosting.antt =====
-- Where the actors of a shard live once nodes followed the agreed live set, in src/system.rs.
use horsie_actor.Base.{
  ℕ, ◌≡◌, refl, sym, ap, ◌∙◌, true, none, some, List, nat_eq, ==_iff, arith, Bool-cases,
  Option-cases, inl, inr,
}
use horsie_actor.Map.{get}
use horsie_actor.ActorPath.{ActorPath}
use horsie_actor.Shard.{PlacedShard, shard_root_of}
use horsie_actor.Placement.{PlacementTable, set_members, owner_of}
use horsie_actor.Node.{ClusterNode, Metrics, usable, round}
use horsie_actor.Node.Owning.{round-serving}
use horsie_actor.Registry.{RegistryEntry, path_eq}
use horsie_actor.System.{System, is_placed_here, release_vacated_shards}
use horsie_actor.System.Vacated.{vacated}

set_members-same :
    (t u : PlacementTable) (nodes : List ℕ) → set_members t nodes ≡ set_members u nodes
unfolding set_members
set_members-same t u nodes = refl

module _ {Deliver : Type 0} where
  placed_here-owner :
      (node : ClusterNode Deliver) (p : PlacedShard)
      → is_placed_here node p ≡ true
      → owner_of node.table p.type_name p.shard_id ≡ some node.local
  unfolding is_placed_here
  placed_here-owner node p h = elim (Option-cases (owner_of node.table p.type_name p.shard_id)) [
    | inl e ↦ ground (arith, e, h)
    | inr (owner, e) ↦ ground (arith, e, h, ==_iff owner node.local)
  ]

module _ {Command EntityId ShardId Deliver : Type 0} where
  -- What is left of a shard after a release is on the node that owns the shard.
  live-owner :
      (s : System Command EntityId ShardId Deliver) (node : ClusterNode Deliver) (q : ActorPath)
      (p : PlacedShard) (x : RegistryEntry)
      → s.cluster ≡ some node
      → shard_root_of q ≡ some p
      → get (release_vacated_shards s).registry.live q ≡ some x
      → owner_of node.table p.type_name p.shard_id ≡ some node.local
  live-owner s node q p x h root live = elim (Bool-cases (is_placed_here node p)) [
    | inl here ↦ placed_here-owner node p here
    | inr away ↦
        let gone : get (release_vacated_shards s).registry.live q ≡ none =
          vacated s node h q ∙ rw (root, away) refl in
        let clash : none ≡ some x = sym gone ∙ live in cc
  ]

  -- Of two nodes that followed the same agreed live set and voters and then released the shards that moved
  -- away, whatever they ran and were before, at most one has an actor at a path under a shard's root: if
  -- both have, they are one node.
  pub single_host :
      (s t : System Command EntityId ShardId Deliver) (v w : ClusterNode Deliver)
      (window other_window : ℕ) (m n : Metrics) (live voters : List ℕ) (q : ActorPath)
      (p : PlacedShard) (x y : RegistryEntry)
      → s.cluster ≡ some (round v window m live voters).1
      → t.cluster ≡ some (round w other_window n live voters).1
      → shard_root_of q ≡ some p
      → get (release_vacated_shards s).registry.live q ≡ some x
      → get (release_vacated_shards t).registry.live q ≡ some y
      → v.local ≡ w.local
  single_host s t v w window other_window m n live voters q p x y hs ht root here there =
      let (_, local_v, (a, table_v)) = round-serving v window m live voters in
      let (_, local_w, (b, table_w)) = round-serving w other_window n live voters in
      let tables : (round v window m live voters).1.table
          ≡ (round w other_window n live voters).1.table =
        table_v ∙ (set_members-same a b (usable live voters) ∙ sym table_w) in
      let one = live-owner s (round v window m live voters).1 q p x hs root here in
      let other = live-owner t (round w other_window n live voters).1 q p y ht root there in
      let owners : some (round v window m live voters).1.local
          ≡ some (round w other_window n live voters).1.local =
        sym one ∙ (ap (λ u. owner_of u p.type_name p.shard_id) tables ∙ other) in
      let same : (round v window m live voters).1.local
          ≡ (round w other_window n live voters).1.local =
        cc in
      sym local_v ∙ (same ∙ local_w)
