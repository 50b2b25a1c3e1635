-- ===== src/Node/Owning.antt =====
-- Who hosts a shard after a round of `watch_cluster` in src/cluster/node.rs.
use horsie_actor.Base.{
  ℕ, ◌≡◌, ◌↔◌, refl, sym, ap, ◌∙◌, inl, inr, Bool, true, false, ◌&&◌, Option, some, List, [], ◌∷◌,
  Text, ◌==◌, nat_eq, nat_beq_iff, any, if◌then◌else◌, arith, Bool-cases, Option-cases,
}
use horsie_actor.Placement.{PlacementTable, set_members, score, owner_of, set_insert}
use horsie_actor.Placement.Ordered.{holds, holds-set_insert}
use horsie_actor.Placement.Owner.{IsBest, IsBest-unique, owner_of_iff}
use horsie_actor.Node.{
  ClusterNode, Metrics, is_serving, usable, owns, set_serving, set_live, round, heard, within,
  observed_live,
}

module _ {Deliver : Type 0} where
  owns_iff :
      (node : ClusterNode Deliver) (type_name shard_id : Text)
      → (owns node type_name shard_id ≡ true)
        ↔ ((node.serving ≡ true) × (owner_of node.table type_name shard_id ≡ some node.local))
  unfolding owns
  owns_iff node type_name shard_id = elim (Option-cases (owner_of node.table type_name shard_id)) [
    | inl e ↦ ground (arith, e)
    | inr (owner, e) ↦ ground (arith, e, nat_beq_iff owner node.local)
  ]

  set_serving-kept :
      (node : ClusterNode Deliver) (serving : Bool)
      → ((set_serving node serving).serving ≡ serving)
        × ((set_serving node serving).local ≡ node.local)
  unfolding set_serving
  set_serving-kept node serving = ground arith

  pub round-serving :
      (node : ClusterNode Deliver) (window : ℕ) (m : Metrics) (live voters : List ℕ)
      → ((round node window m live voters).1.serving ≡ is_serving m window)
        × ((round node window m live voters).1.local ≡ node.local)
        × ((t : PlacementTable) × ((round node window m live voters).1.table
              ≡ set_members t (usable live voters)))
  unfolding round set_live
  round-serving node window m live voters =
      let (a, b) = set_serving-kept node (is_serving m window) in
      (a, b, ((set_serving node (is_serving m window)).table, refl))

  -- After a round, whatever the node was before it, the node owns a shard exactly if it serves by
  -- the metrics of the round, and it is the best for the shard among the agreed live voters.
  pub round-owns :
      (node : ClusterNode Deliver) (window : ℕ) (m : Metrics) (live voters : List ℕ)
      (type_name shard_id : Text)
      → (owns (round node window m live voters).1 type_name shard_id ≡ true) ↔ (
          (is_serving m window ≡ true)
          × IsBest (score type_name shard_id) (holds (usable live voters)) node.local)
  round-owns node window m live voters type_name shard_id =
      let (s, l, (t, e)) = round-serving node window m live voters in
      let best = (owner_of_iff t (usable live voters) type_name shard_id).0 node.local in
      let owning = owns_iff (round node window m live voters).1 type_name shard_id in
      (
        λ h. (
          sym s ∙ (owning.0 h).0,
          best.0 (ap (λ x. owner_of x type_name shard_id) (sym e) ∙ ((owning.0 h).1 ∙ ap some l)),
        ),
        λ h.
            owning.1
              (s ∙ h.0, ap (λ x. owner_of x type_name shard_id) e ∙ (best.1 h.1 ∙ ap some (sym l))),
      )

  -- Of two nodes that followed the same agreed live set and voters, whatever each observed, at
  -- most one owns a shard: if both do, they are one node.
  pub single_owner :
      (v w : ClusterNode Deliver) (window : ℕ) (m n : Metrics) (live voters : List ℕ)
      (type_name shard_id : Text)
      → owns (round v window m live voters).1 type_name shard_id ≡ true
      → owns (round w window n live voters).1 type_name shard_id ≡ true
      → v.local ≡ w.local
  single_owner v w window m n live voters type_name shard_id p q =
      IsBest-unique (score type_name shard_id) (holds (usable live voters)) v.local w.local
        ((round-owns v window m live voters type_name shard_id).0 p).1
        ((round-owns w window n live voters type_name shard_id).0 q).1

-- The node was acknowledged within the window.
abbrev pub acknowledged : ℕ → ℕ → List (ℕ × Option ℕ) → Bool
acknowledged window n = any (λ h. (h.0 == n) && within h.1 window)

heard_taken :
    (voters : List ℕ) (window : ℕ) (live : List ℕ) (node : ℕ) (last_ack : Option ℕ)
    (rest : List (ℕ × Option ℕ)) (n : ℕ)
    → (any (λ v. v == node) voters && within last_ack window) ≡ true
    → (if holds (set_insert live node) n
        then true
        else (holds voters n && acknowledged window n rest))
      ≡ (if holds live n
          then true
          else (holds voters n && acknowledged window n ((node, last_ack) ∷ rest)))
unfolding holds
heard_taken voters window live node last_ack rest n t =
    ground (arith, nat_beq_iff node n, holds-set_insert live node n)

heard_skipped :
    (voters : List ℕ) (window : ℕ) (live : List ℕ) (node : ℕ) (last_ack : Option ℕ)
    (rest : List (ℕ × Option ℕ)) (n : ℕ)
    → (any (λ v. v == node) voters && within last_ack window) ≡ false
    → (if holds live n then true else (holds voters n && acknowledged window n rest)) ≡ (
        if holds live n
        then true
        else (holds voters n && acknowledged window n ((node, last_ack) ∷ rest)))
unfolding holds
heard_skipped voters window live node last_ack rest n f = ground (arith, nat_beq_iff node n)

holds-heard :
    (voters : List ℕ) (window : ℕ) (live : List ℕ) (heartbeat : List (ℕ × Option ℕ)) (n : ℕ)
    → holds (heard voters window live heartbeat) n
      ≡ (if holds live n then true else (holds voters n && acknowledged window n heartbeat))
unfolding heard holds
holds-heard voters window live [] n = ground arith
holds-heard voters window live ((node, last_ack) ∷ rest) n =
    elim (Bool-cases (any (λ v. v == node) voters && within last_ack window)) [
      | inl t ↦ rw t (
          holds-heard voters window (set_insert live node) rest n
          ∙ heard_taken voters window live node last_ack rest n t)
      | inr f ↦ rw f (
          holds-heard voters window live rest n
          ∙ heard_skipped voters window live node last_ack rest n f)
    ]

-- With the acknowledgements at hand, a leader observes exactly itself and the voters that were
-- acknowledged within the window.
pub observed_live_iff :
    (m : Metrics) (local window : ℕ) (voters : List ℕ) (heartbeat : List (ℕ × Option ℕ)) (n : ℕ)
    → m.heartbeat ≡ some heartbeat
    → holds (observed_live m local window voters) n
      ≡ (if local == n then true else (holds voters n && acknowledged window n heartbeat))
unfolding observed_live
observed_live_iff m local window voters heartbeat n h = rw h (
    holds-heard voters window (set_insert [] local) heartbeat n
    ∙ rw (holds-set_insert [] local n) (unfold holds in ground arith))
