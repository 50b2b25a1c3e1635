-- ===== src/Shard/Grammar.antt =====
-- The writer and the reader of shard addresses in src/shard.rs agree.
use horsie_actor.Base.{
  nat_eq, ◌≡◌, ◌↔◌, refl, ap, true, some, List, [], ◌∷◌, ◌++◌, Text, list_beq_iff, arith,
}
use horsie_actor.ActorPath.{ActorPath, starts_with}
use horsie_actor.ActorPath.Prefix.{starts_with_iff}
use horsie_actor.Shard.{
  Shard, PlacedShard, system_segment, shard_segment, address_of, context_of, shard_root,
  shard_root_of, placed_of,
}

placed_of-segments :
    (ss : List Text) (p : PlacedShard)
    → placed_of ss ≡ some p
    → (rest : List Text) × (ss ≡ system_segment ∷ shard_segment ∷ p.type_name ∷ p.shard_id ∷ rest)
unfolding placed_of
placed_of-segments (x ∷ y ∷ ty ∷ id ∷ rest) p h =
    (rest, ground (arith, list_beq_iff x system_segment, list_beq_iff y shard_segment))
placed_of-segments [] p h = ground arith
placed_of-segments (x ∷ []) p h = ground arith
placed_of-segments (x ∷ y ∷ []) p h = ground arith
placed_of-segments (x ∷ y ∷ z ∷ []) p h = ground arith

-- Exactly the paths at and below a shard's root belong to that shard.
pub shard_root_of_iff :
    (path : ActorPath) (p : PlacedShard)
    → (shard_root_of path ≡ some p) ↔ (starts_with path (shard_root p) ≡ true)
unfolding shard_root_of shard_root
shard_root_of_iff path p = (
  λ h. (starts_with_iff path (shard_root p)).1 (placed_of-segments path.segments p h),
  λ h. let (rest, e) = (starts_with_iff path (shard_root p)).0 h in ap placed_of e,
)

module _ {Command EntityId ShardId : Type 0} (s : Shard Command EntityId ShardId) where
  -- The shard that is read off an actor's address, and off that of any actor below it, is the pair
  -- that its command was placed by.
  pub shard_root_of-address_of :
      (cmd : Command) (below : List Text)
      → shard_root_of (record { segments = (address_of s (context_of s cmd)).segments ++ below })
        ≡ some (record { type_name = s.type_name; shard_id = s.shard_to_string (s.shard_id cmd) })
  unfolding shard_root_of address_of context_of
  shard_root_of-address_of cmd below = refl
