-- ===== src/System/Watching/Follows.antt =====
-- What stand-down and the live set come to in a run of src/system.rs.
use horsie_actor.Base.{
  ℕ, ◌≤◌, ◌<◌, ◌≡◌, refl, sym, ap, ◌∙◌, Bool, true, false, not, some, List, ◌==◌, nat_eq, list_eq,
  ==_iff, if◌then◌else◌, if_both, arith, Bool-cases, Option-cases, inl, inr,
}
use horsie_actor.Node.{ClusterNode, Metrics, round, set_serving, set_live, is_serving}
use horsie_actor.System.{System, release_vacated_shards}
use horsie_actor.System.Watching.{
  Watched, bool_beq, build, clustered, ticked, relayed, swept, with_some, announced, woken,
}
use mathlib.Core.Path.{subst}

module _ {Deliver : Type 0} where
  -- What other work on a node leaves alone.
  pub record SameState (v w : ClusterNode Deliver) : Type 0 where
    pub same_serving : w.serving ≡ v.serving
    pub same_sent : w.serving_sent ≡ v.serving_sent
    pub same_live : w.live_sent ≡ v.live_sent

  round-sent :
      (node : ClusterNode Deliver) (window : ℕ) (m : Metrics) (live voters : List ℕ)
      → ((round node window m live voters).1.serving ≡ is_serving m window)
        × ((round node window m live voters).1.serving_sent ≡ is_serving m window)
  unfolding round set_serving set_live
  round-sent node window m live voters = ground arith

bool_beq-eq : (a b : Bool) → bool_beq a b ≡ true → a ≡ b
bool_beq-eq true true h = refl
bool_beq-eq false false h = refl
bool_beq-eq true false h = cc
bool_beq-eq false true h = cc

module _ {Command EntityId ShardId Deliver : Type 0} where
  -- A system's run: rounds of its node, its two watching tasks when they get to run, and any other work,
  -- which leaves the node's serving and live set alone.
  pub data Reach : Watched Command EntityId ShardId Deliver → Type 0 where
    starts :
        (node : ClusterNode Deliver) → node.serving ≡ node.serving_sent → Reach (clustered node)
    ticks :
        {r : Watched Command EntityId ShardId Deliver}
        → Reach r
        → (window : ℕ) (m : Metrics) (live voters : List ℕ) → Reach (ticked r window m live voters)
    relays : {r : Watched Command EntityId ShardId Deliver} → Reach r → Reach (relayed r)
    sweeps : {r : Watched Command EntityId ShardId Deliver} → Reach r → Reach (swept r)
    works :
        {r : Watched Command EntityId ShardId Deliver}
        → Reach r
        → (v w : ClusterNode Deliver) (s : System Command EntityId ShardId Deliver)
        → r.system.cluster ≡ some v
        → s.cluster ≡ some w
        → SameState v w
        → Reach (record r { system = s })

  pub record IsFollowed (r : Watched Command EntityId ShardId Deliver) : Type 0 where
    pub node : ClusterNode Deliver
    pub is_node : r.system.cluster ≡ some node
    pub agrees : node.serving ≡ node.serving_sent
    pub behind : r.serving_seen ≤ r.serving_version
    pub follows :
        r.serving_seen ≡ r.serving_version
        → 0 < r.serving_version
        → r.stand_down ≡ not node.serving_sent
    pub live_behind : r.live_seen ≤ r.live_version

  -- A round announces what it changed, so that nobody who is caught up has the old value.
  announced-IsFollowed :
      (r : Watched Command EntityId ShardId Deliver) (v w : ClusterNode Deliver)
      → v.serving ≡ v.serving_sent
      → w.serving ≡ w.serving_sent
      → r.serving_seen ≤ r.serving_version
      → (r.serving_seen ≡ r.serving_version
          → 0 < r.serving_version
          → r.stand_down ≡ not v.serving_sent)
      → r.live_seen ≤ r.live_version
      → IsFollowed (announced r v w)
  announced-IsFollowed r v w agrees then_agrees behind follows live_behind = record {
    node = w;
    is_node = refl;
    agrees = then_agrees;
    behind = ground (arith, behind);
    follows = elim (Bool-cases (bool_beq v.serving_sent w.serving_sent)) [
      | inl same ↦
          rw same (λ a b. follows a b ∙ ap not (bool_beq-eq v.serving_sent w.serving_sent same))
      | inr other ↦ rw other (λ a b. absurd (omega (arith, behind, a)))
    ];
    live_behind = ground (arith, live_behind);
  }

  cluster-release :
      (s : System Command EntityId ShardId Deliver) → (release_vacated_shards s).cluster ≡ s.cluster
  unfolding release_vacated_shards
  cluster-release s = elim (Option-cases s.cluster) [
    | inl e ↦ rw e refl
    | inr (node, e) ↦ rw e refl
  ]

  Reach-IsFollowed : (r : Watched Command EntityId ShardId Deliver) → Reach r → IsFollowed r
  unfolding clustered build ticked relayed swept release_vacated_shards
  Reach-IsFollowed _ (starts node agrees) = record {
    node = node;
    is_node = refl;
    agrees = agrees;
    behind = omega arith;
    follows = λ a b. absurd (omega (arith, b));
    live_behind = omega arith;
  }
  Reach-IsFollowed _ (ticks {r} h window m live voters) =
      let f = Reach-IsFollowed r h in
      let change =
        λ (node : ClusterNode Deliver). announced r node (round node window m live voters).1 in
      let (s, t) = round-sent f.node window m live voters in
      subst IsFollowed (ap (λ c. with_some c r change) (sym f.is_node)) (
        announced-IsFollowed r f.node (round f.node window m live voters).1 f.agrees (s ∙ sym t)
          f.behind f.follows f.live_behind)
  Reach-IsFollowed _ (relays {r} h) =
      let f = Reach-IsFollowed r h in
      subst IsFollowed (ap (λ c. with_some c r (woken r)) (sym f.is_node)) (
        if_both IsFollowed (r.serving_seen == r.serving_version) (λ _. f)
          (λ _. record {
            node = f.node;
            is_node = f.is_node;
            agrees = f.agrees;
            behind = omega arith;
            follows = λ a b. refl;
            live_behind = f.live_behind;
          }))
  Reach-IsFollowed _ (sweeps {r} h) =
      let f = Reach-IsFollowed r h in
      if_both IsFollowed (r.live_seen == r.live_version) (λ _. f)
        (λ _. record {
          node = f.node;
          is_node = cluster-release r.system ∙ f.is_node;
          agrees = f.agrees;
          behind = f.behind;
          follows = f.follows;
          live_behind = omega arith;
        })
  Reach-IsFollowed _ (works {r} h v w s hv hw same) =
      let f = Reach-IsFollowed r h in
      let one : some v ≡ some f.node = sym hv ∙ f.is_node in
      let was : v ≡ f.node = cc in
      record {
        node = w;
        is_node = hw;
        agrees =
            same.same_serving
            ∙ (ap (λ n. n.serving) was
                ∙ (f.agrees ∙ (sym (ap (λ n. n.serving_sent) was) ∙ sym same.same_sent)));
        behind = f.behind;
        follows =
            λ a b. f.follows a b ∙ sym (ap not (same.same_sent ∙ ap (λ n. n.serving_sent) was));
        live_behind = f.live_behind;
      }

  relayed_unseen :
      (r : Watched Command EntityId ShardId Deliver) (node : ClusterNode Deliver)
      → r.system.cluster ≡ some node
      → (relayed r).stand_down
        ≡ (if r.serving_seen == r.serving_version then r.stand_down else not node.serving_sent)
  unfolding relayed
  relayed_unseen r node h = ap (λ c. (with_some c r (woken r)).stand_down) h ∙ ground arith

  -- In any run of a system of a cluster, once the node has announced a change of whether it serves, what
  -- actors watch for stand-down says, whenever the relay has run, that the node does not serve exactly if it
  -- does not, whatever changes the relay slept through.
  pub relayed-follows :
      (r : Watched Command EntityId ShardId Deliver) (node : ClusterNode Deliver)
      → Reach r
      → r.system.cluster ≡ some node
      → 0 < r.serving_version
      → (relayed r).stand_down ≡ not node.serving
  relayed-follows r node h is_node announced_once =
      let f = Reach-IsFollowed r h in
      let one : some f.node ≡ some node = sym f.is_node ∙ is_node in
      let same : f.node ≡ node = cc in
      let agrees : node.serving_sent ≡ node.serving =
        sym (ap (λ n. n.serving_sent) same) ∙ (sym f.agrees ∙ ap (λ n. n.serving) same) in
      relayed_unseen r node is_node
      ∙ if_both (λ b. b ≡ not node.serving) (r.serving_seen == r.serving_version)
          (λ seen.
            f.follows ((==_iff r.serving_seen r.serving_version).0 seen) announced_once
            ∙ ap not (ap (λ n. n.serving_sent) same ∙ agrees))
          (λ _. ap not agrees)
