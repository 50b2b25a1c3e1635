-- ===== src/Tests/Nodes.antt =====
-- The theorems on src/cluster/node.rs for a node that leads three.
use horsie_actor.Base.{ℕ, ◌≡◌, refl, true, false, none, some, List, [], ◌∷◌, Text, codes, nat_eq}
use horsie_actor.Placement.{new}
use horsie_actor.Node.{ClusterNode, Metrics, leader, follower, owns, round}

abbrev third : ClusterNode Text
third = record {
  local = 3;
  table = new;
  serving = false;
  serving_sent = false;
  live_sent = [];
  counter = 0;
  waiting = [];
  correlations = 0;
}

abbrev leads : Metrics
leads = record {
  state = leader;
  last_quorum_acked = some 1;
  current_leader = some 3;
  heartbeat = some ((2, some 1) ∷ (4, none) ∷ []);
}

abbrev follows : Metrics
follows = record {
  state = follower;
  last_quorum_acked = none;
  current_leader = some 1;
  heartbeat = none;
}

abbrev members : List ℕ
members = 1 ∷ 2 ∷ 3 ∷ []

leading_hosts : owns (round third 3 leads members members).1 (codes "counter") (codes "c0") ≡ true
unfolding owns round
leading_hosts = refl

following_hosts :
    owns (round third 3 follows members members).1 (codes "counter") (codes "c0") ≡ true
unfolding owns round
following_hosts = refl
