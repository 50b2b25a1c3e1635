-- ===== src/Node.antt =====
-- src/cluster/node.rs: a node's ids, the callers that wait for an answer, the live set that it
-- applies, and one round of `watch_cluster`. The consensus library's metrics are arguments, with
-- the time since an acknowledgement in place of its instant. `Deliver` is what hands an answer over.
pub mod Waiting
pub mod Owning
pub mod Answers
pub mod Sending
pub mod Running
use horsie_actor.Base.{
  ℕ, ◌+◌, ◌*◌, ◌%◌, Bool, true, false, ◌&&◌, not, Option, none, some, List, [], ◌∷◌, Text, Bytes,
  leb, ltb, ◌==◌, nat_eq, any, retain, length, if◌then◌else◌, list_eq, u64_mod,
}
use horsie_actor.Map.{Map, get, remove, btree_insert}
use horsie_actor.Delivery.{Reply, Message}
use horsie_actor.Placement.{PlacementTable, set_members, set_insert, collect, owner_of}

abbrev pub waiting_capacity : ℕ
waiting_capacity = 8192

pub record ClusterNode (Deliver : Type 0) : Type 0 where
  pub local : ℕ
  pub table : PlacementTable
  pub serving : Bool
  pub serving_sent : Bool
  pub live_sent : List ℕ
  pub counter : ℕ
  pub waiting : Map ℕ Deliver
  pub correlations : ℕ

-- `(u128::from(local) << 64) | u128::from(n)`: the shift leaves the digits of `n` free, so it is a
-- sum.
unfoldable pub mint : ℕ → ℕ → ℕ
mint local n = local * u64_mod + n

pub data ServerState : Type 0 where
  leader learner follower candidate shutdown : ServerState

-- What a round reads of the library's metrics: times are since the acknowledgement.
pub record Metrics : Type 0 where
  pub state : ServerState
  pub last_quorum_acked : Option ℕ
  pub current_leader : Option ℕ
  pub heartbeat : Option (List (ℕ × Option ℕ))

abbrev pub is_some {ℓ} : {A : Type ℓ} → Option A → Bool
is_some none = false
is_some (some a) = true

abbrev pub within : Option ℕ → ℕ → Bool
within none window = false
within (some elapsed) window = leb elapsed window

unfoldable pub is_serving : Metrics → ℕ → Bool
is_serving m window = elim m.state [
  | leader ↦ within m.last_quorum_acked window
  | _ ↦ is_some m.current_leader
]

-- The loop over the peers that were heard from.
unfoldable pub heard : List ℕ → ℕ → List ℕ → List (ℕ × Option ℕ) → List ℕ
unfolding set_insert
heard voters window live [] = live
heard voters window live ((node, last_ack) ∷ rest) =
    let keep = heard voters window live rest in
    let taken = heard voters window (set_insert live node) rest in
    if any (λ v. v == node) voters && within last_ack window then taken else keep

unfoldable pub observed_live : Metrics → ℕ → ℕ → List ℕ → List ℕ
unfolding heard set_insert
observed_live m local window voters = elim m.heartbeat [
  | none ↦ set_insert [] local
  | some heartbeat ↦ heard voters window (set_insert [] local) heartbeat
]

-- The live nodes that are voters.
unfoldable pub usable : List ℕ → List ℕ → List ℕ
usable live voters = retain (λ n. any (λ v. v == n) voters) live

-- Where an answer went: to a caller on this node, if one waits, or to another node.
pub data Routed (Deliver : Type 0) : Type 0 where
  handed : Option (Deliver × Bytes) → Routed Deliver
  sent : ℕ → Message → Routed Deliver

module _ {Deliver : Type 0} where
  unfoldable pub next_message_id : ClusterNode Deliver → ℕ × ClusterNode Deliver
  unfolding mint
  next_message_id node =
      (mint node.local node.counter, record node { counter = (node.counter + 1) % u64_mod })

  -- The loop that drops the oldest callers while there are too many.
  unfoldable pub pop_over : Map ℕ Deliver → Map ℕ Deliver
  pop_over [] = []
  pop_over (oldest ∷ rest) =
      let popped = pop_over rest in
      if ltb waiting_capacity (length (oldest ∷ rest)) then popped else oldest ∷ rest

  unfoldable pub register : ClusterNode Deliver → Deliver → ℕ × ClusterNode Deliver
  unfolding mint btree_insert pop_over
  register node deliver =
      let correlation = mint node.local node.correlations in
      (
        correlation,
        record node {
          correlations = (node.correlations + 1) % u64_mod;
          waiting = pop_over (btree_insert node.waiting correlation deliver);
        },
      )

  unfoldable pub forget : ClusterNode Deliver → ℕ → ClusterNode Deliver
  forget node correlation = record node { waiting = remove node.waiting correlation }

  -- With it, what is handed over, and to whom.
  unfoldable pub deliver_reply :
      ClusterNode Deliver → Reply → Option (Deliver × Bytes) × ClusterNode Deliver
  unfolding forget
  deliver_reply node reply = elim (get node.waiting reply.correlation) [
    | none ↦ (none, node)
    | some deliver ↦ (
      elim reply.payload [ none ↦ none | some payload ↦ some (deliver, payload) ],
      forget node reply.correlation,
    )
  ]

  unfoldable pub abandon_waiting : ClusterNode Deliver → ClusterNode Deliver
  abandon_waiting node = record node { waiting = [] }

  -- With it, whether the new set is announced.
  unfoldable pub set_live : ClusterNode Deliver → List ℕ → Bool × ClusterNode Deliver
  unfolding set_members
  set_live node live = (
    not (node.live_sent == live),
    record node { table = set_members node.table live; live_sent = live },
  )

  unfoldable pub owns : ClusterNode Deliver → Text → Text → Bool
  unfolding owner_of
  owns node type_name shard_id = node.serving && elim (owner_of node.table type_name shard_id) [
    | none ↦ false
    | some owner ↦ owner == node.local
  ]

  -- The part of a round that stores and announces whether the node serves.
  unfoldable pub set_serving : ClusterNode Deliver → Bool → ClusterNode Deliver
  unfolding abandon_waiting
  set_serving node serving =
      let sent : ClusterNode Deliver = record node { serving = serving; serving_sent = serving } in
      if node.serving_sent && not serving then abandon_waiting sent else sent

  -- One round: what the store says is agreed, what is observed, and, from a leader that observes
  -- other nodes than agreed, what it proposes.
  unfoldable pub round :
      ClusterNode Deliver → ℕ → Metrics → List ℕ → List ℕ → Option (List ℕ) × ClusterNode Deliver
  unfolding is_serving set_serving usable set_live observed_live collect
  round node window m live voters =
      let agreed = usable live voters in
      let followed = (set_live (set_serving node (is_serving m window)) agreed).1 in
      let observed = observed_live m node.local window voters in
      (
        elim m.state [
          | leader ↦ if observed == collect agreed then none else some observed
          | _ ↦ none
        ],
        followed,
      )

  unfoldable pub route_reply :
      ClusterNode Deliver → ℕ → Reply → Routed Deliver × ClusterNode Deliver
  unfolding deliver_reply
  route_reply node origin reply =
      if origin == node.local
      then (handed (deliver_reply node reply).0, (deliver_reply node reply).1)
      else (sent origin (Message.reply reply), node)

  unfoldable pub answer : ClusterNode Deliver → ℕ → ℕ → Bytes → Routed Deliver × ClusterNode Deliver
  unfolding route_reply
  answer node origin correlation payload =
      route_reply node origin (record { correlation = correlation; payload = some payload })

  unfoldable pub abandon : ClusterNode Deliver → ℕ → ℕ → Routed Deliver × ClusterNode Deliver
  unfolding route_reply
  abandon node origin correlation =
      route_reply node origin (record { correlation = correlation; payload = none })
