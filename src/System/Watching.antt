-- ===== src/System/Watching.antt =====
-- The tasks that watch a node for its system, in src/system.rs: the relay of stand-down that `build`
-- starts, and `watch_placement`. A watch channel is its value with the number of values sent since the
-- system was built; a receiver is the number that it has seen.
pub mod Follows
use horsie_actor.Base.{
  ℕ, ◌+◌, Bool, true, false, not, Option, none, some, List, [], ◌∷◌, ◌==◌, nat_eq, list_eq,
  if◌then◌else◌,
}
use horsie_actor.Node.{ClusterNode, Metrics, round}
use horsie_actor.System.{System, build_system, release_vacated_shards}

abbrev pub bool_beq : Bool → Bool → Bool
bool_beq true b = b
bool_beq false b = not b

abbrev pub with_some : {A R : Type 0} → Option A → R → (A → R) → R
with_some none r f = r
with_some (some a) r f = f a

-- The system with what the node announces: `stand_down` is what actors watch.
pub record Watched (Command EntityId ShardId Deliver : Type 0) : Type 0 where
  pub system : System Command EntityId ShardId Deliver
  pub serving_version : ℕ
  pub serving_seen : ℕ
  pub stand_down : Bool
  pub stand_down_version : ℕ
  pub live_version : ℕ
  pub live_seen : ℕ

module _ {Command EntityId ShardId Deliver : Type 0} where
  -- `ActorSystem::build`.
  unfoldable pub build : Option (ClusterNode Deliver) → Watched Command EntityId ShardId Deliver
  unfolding build_system
  build cluster = record {
    system = build_system cluster;
    serving_version = 0;
    serving_seen = 0;
    stand_down = false;
    stand_down_version = 0;
    live_version = 0;
    live_seen = 0;
  }

  unfoldable pub clustered : ClusterNode Deliver → Watched Command EntityId ShardId Deliver
  unfolding build
  clustered node = build (some node)

  -- A system with no cluster.
  unfoldable pub new : Watched Command EntityId ShardId Deliver
  unfolding build
  new = build none

  -- What a round changed. `send_if_modified` announces what is not as it was.
  abbrev pub announced :
      Watched Command EntityId ShardId Deliver
      → ClusterNode Deliver
      → ClusterNode Deliver
      → Watched Command EntityId ShardId Deliver
  announced r node next = record r {
    system = record r.system { cluster = some next };
    serving_version =
        if bool_beq node.serving_sent next.serving_sent
        then r.serving_version
        else (r.serving_version + 1);
    live_version =
        if node.live_sent == next.live_sent then r.live_version else (r.live_version + 1);
  }

  -- A round of the node.
  unfoldable pub ticked :
      Watched Command EntityId ShardId Deliver
      → ℕ
      → Metrics
      → List ℕ
      → List ℕ
      → Watched Command EntityId ShardId Deliver
  ticked r window m live voters =
      with_some r.system.cluster r (λ node. announced r node (round node window m live voters).1)

  -- The relay wakes if there is a value that it has not seen, and reads the one that is there.
  abbrev pub woken :
      Watched Command EntityId ShardId Deliver
      → ClusterNode Deliver
      → Watched Command EntityId ShardId Deliver
  woken r node = if r.serving_seen == r.serving_version then r else record r {
    serving_seen = r.serving_version;
    stand_down = not node.serving_sent;
    stand_down_version = r.stand_down_version + 1;
  }

  unfoldable pub relayed :
      Watched Command EntityId ShardId Deliver → Watched Command EntityId ShardId Deliver
  relayed r = with_some r.system.cluster r (woken r)

  -- `watch_placement`, likewise.
  unfoldable pub swept :
      Watched Command EntityId ShardId Deliver → Watched Command EntityId ShardId Deliver
  unfolding release_vacated_shards
  swept r =
      if r.live_seen == r.live_version
      then r
      else record r { live_seen = r.live_version; system = release_vacated_shards r.system }
