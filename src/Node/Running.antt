-- ===== src/Node/Running.antt =====
-- The start of a node in src/cluster/node.rs and its rounds in sequence. Whether the consensus library was
-- initialized before is an argument. Times are in milliseconds.
use horsie_actor.Base.{ℕ, Bool, false, Option, none, some, List, [], ◌∷◌, if◌then◌else◌}
use horsie_actor.Placement.{new, collect}
use horsie_actor.Node.{ClusterNode, Metrics, round}

pub record ClusterConfig : Type 0 where
  pub local : ℕ
  pub bootstrap : List ℕ
  pub liveness_window : ℕ

-- `ClusterConfig::new`.
unfoldable pub new_config : ℕ → List ℕ → ClusterConfig
new_config local members = record { local = local; bootstrap = members; liveness_window = 3000 }

-- One turn of the loop of `watch_cluster`: what it reads, of the metrics and of the store.
pub record Turn : Type 0 where
  pub metrics : Metrics
  pub live : List ℕ
  pub voters : List ℕ

module _ {Deliver : Type 0} where
  abbrev pub new_node : ℕ → ClusterNode Deliver
  new_node local = record {
    local = local;
    table = new;
    serving = false;
    serving_sent = false;
    live_sent = [];
    counter = 0;
    waiting = [];
    correlations = 0;
  }

  -- `ClusterNode::start`: the members to form a cluster from, on a fresh store, and the node.
  unfoldable pub start : ClusterConfig → Bool → Option (List ℕ) × ClusterNode Deliver
  unfolding collect
  start config initialized =
      (if initialized then none else some (collect config.bootstrap), new_node config.local)

  -- `watch_cluster`: what it proposes, in order, and the node after it.
  unfoldable pub watch_cluster :
      ClusterNode Deliver → ℕ → List Turn → List (Option (List ℕ)) × ClusterNode Deliver
  unfolding round
  watch_cluster node window [] = ([], node)
  watch_cluster node window (turn ∷ turns) =
      let (proposal, next) = round node window turn.metrics turn.live turn.voters in
      let (proposals, last) = watch_cluster next window turns in (proposal ∷ proposals, last)

  -- `ClusterNode::live_members`.
  abbrev pub live_members : ClusterNode Deliver → List ℕ
  live_members node = node.table.members
