-- ===== src/Tests/Watches.antt =====
-- The theorems on the tasks that watch a node, on shards that moved, and on `ask`.
use horsie_actor.Base.{
  ℕ, ◌≡◌, ◌<◌, refl, true, false, not, Option, none, some, List, [], ◌∷◌, codes, ok, Result, arith,
  nat_eq, list_eq,
}
use horsie_actor.Map.{get, insert}
use horsie_actor.ActorPath.{ActorPath, child, is_valid_name}
use horsie_actor.Shard.{PlacedShard, shard_root_of}
use horsie_actor.Delivery.{with_capacity}
use horsie_actor.Placement.{new}
use horsie_actor.Node.{ClusterNode, Metrics, follower, round}
use horsie_actor.Registry.{RegistryEntry, path_eq, empty_registry, get_or_create}
use horsie_actor.System.{System, dedup_window, release_vacated_shards}
use horsie_actor.System.Hosting.{single_host}
use horsie_actor.System.Watching.{Watched, clustered, ticked, relayed}
use horsie_actor.System.Watching.Follows.{Reach, starts, ticks, relayed-follows}
use horsie_actor.ActorRef.{TellError}
use horsie_actor.Replies.{ReplyTo, Context, serialize}
use horsie_actor.Asking.{while_waiting, ask_within}
use horsie_actor.Asking.Waits.{IsAbsent, asks, encodes, ask-IsAbsent}

abbrev second : ClusterNode ℕ
second = record {
  local = 2;
  table = new;
  serving = false;
  serving_sent = false;
  live_sent = [];
  counter = 0;
  waiting = [];
  correlations = 0;
}

abbrev follows : Metrics
follows = record {
  state = follower;
  last_quorum_acked = none;
  current_leader = some 1;
  heartbeat = none;
}

abbrev only : List ℕ
only = 2 ∷ []

abbrev region : ActorPath
region = record { segments = codes "system" ∷ codes "shard" ∷ codes "counter" ∷ [] }

abbrev shard_actor : ActorPath
shard_actor = child region (codes "0")

abbrev placed : PlacedShard
placed = record { type_name = codes "counter"; shard_id = codes "0" }

-- Node 2 with one actor of a shard, after a round in which it is the one live member.
abbrev hosting : System ℕ ℕ ℕ ℕ
hosting = record {
  registry = (get_or_create empty_registry true region (codes "0") 7).1;
  shards = [];
  wires = [];
  cluster = some (round second 3 follows only only).1;
  seen = with_capacity dedup_window;
  delivered = [];
}

abbrev entry : RegistryEntry
entry = record { mailbox = 0; command_type = 7 }

placed_root : shard_root_of shard_actor ≡ some placed
unfolding shard_root_of child
placed_root = refl

still_hosted : get (release_vacated_shards hosting).registry.live shard_actor ≡ some entry
unfolding release_vacated_shards round get_or_create get is_valid_name insert shard_root_of
still_hosted = refl

single_host_example : second.local ≡ second.local
single_host_example =
    single_host hosting hosting second second 3 3 follows follows only only shard_actor placed entry
      entry refl refl placed_root still_hosted still_hosted

abbrev watched : Watched ℕ ℕ ℕ ℕ
watched = ticked (clustered second) 3 follows only only

watched-Reach : Reach watched
watched-Reach = ticks (starts second refl) 3 follows only only

watched_node : watched.system.cluster ≡ some (round second 3 follows only only).1
unfolding ticked clustered
watched_node = refl

announced_once : 0 < watched.serving_version
unfolding ticked clustered round
announced_once = omega arith

relayed-follows_example :
    (relayed watched).stand_down ≡ not (round second 3 follows only only).1.serving
relayed-follows_example =
    relayed-follows watched (round second 3 follows only only).1 watched-Reach watched_node
      announced_once

abbrev asking : Context ℕ
asking = record { node = second; acts = [] }

-- The command crosses to another node.
abbrev tell : ReplyTo → Context ℕ → Result TellError (Unit {0}) × ReplyTo × Context ℕ
tell handle c = (ok tt, (serialize true true handle c).1, (serialize true true handle c).2)

abbrev receive : Context ℕ → Option ℕ × Context ℕ
receive c = (none, c)

ask-IsAbsent_example : IsAbsent 4 (ask_within tell receive while_waiting 4 asking).1
ask-IsAbsent_example =
    ask-IsAbsent 4 tell receive asking (encodes (asks asking tt) true true) (λ h d w. w)
      while_waiting
