-- ===== src/Shard.antt =====
-- src/shard.rs: the addresses of shard actors, and the shard that an address belongs to. A shard
-- type is the parameter of a section: its name, its extractors and how its ids are displayed.
pub mod Grammar
use horsie_actor.Base.{
  Bool, ◌&&◌, Option, none, some, List, [], ◌∷◌, Text, codes, ◌==◌, list_eq, nat_eq, list_beq,
  if◌then◌else◌,
}
use horsie_actor.ActorPath.{ActorPath, root, child}

abbrev pub system_segment : Text
system_segment = codes "system"

abbrev pub shard_segment : Text
shard_segment = codes "shard"

-- The trait `Shard`, its types as parameters.
pub record Shard (Command EntityId ShardId : Type 0) : Type 0 where
  pub type_name : Text
  pub entity_id : Command → EntityId
  pub shard_id : Command → ShardId
  pub entity_to_string : EntityId → Text
  pub shard_to_string : ShardId → Text

pub record EntityContext (EntityId ShardId : Type 0) : Type 0 where
  pub type_name : Text
  pub shard_id : ShardId
  pub entity_id : EntityId

unfoldable pub region_of : Text → ActorPath
unfolding root child
region_of type_name = child (child (child root system_segment) shard_segment) type_name

module _ {Command EntityId ShardId : Type 0} (s : Shard Command EntityId ShardId) where
  unfoldable pub address_of : EntityContext EntityId ShardId → ActorPath
  unfolding region_of child
  address_of entity =
      child (child (region_of entity.type_name) (s.shard_to_string entity.shard_id))
        (s.entity_to_string entity.entity_id)

  unfoldable pub context_of : Command → EntityContext EntityId ShardId
  context_of cmd = record {
    type_name = s.type_name;
    shard_id = s.shard_id cmd;
    entity_id = s.entity_id cmd;
  }

pub record PlacedShard : Type 0 where
  pub type_name : Text
  pub shard_id : Text

-- `PlacedShard::root`.
unfoldable pub shard_root : PlacedShard → ActorPath
unfolding region_of child
shard_root p = child (region_of p.type_name) p.shard_id

placed_of : List Text → Option PlacedShard
placed_of (system ∷ shard ∷ type_name ∷ shard_id ∷ rest) =
    if system == system_segment && shard == shard_segment
    then some (record { type_name = type_name; shard_id = shard_id })
    else none
placed_of _ = none

unfoldable pub shard_root_of : ActorPath → Option PlacedShard
unfolding placed_of
shard_root_of path = placed_of path.segments
