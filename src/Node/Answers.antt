-- ===== src/Node/Answers.antt =====
-- The way of an answer back to its caller, in src/cluster/node.rs.
use horsie_actor.Base.{ℕ, ◌≡◌, ◌≢◌, ap, some, Bytes, nat_eq, nat_beq_iff, arith}
use horsie_actor.Delivery.{Reply, Message}
use horsie_actor.Node.{ClusterNode, handed, sent, register, deliver_reply, route_reply, answer}
use horsie_actor.Node.Waiting.{IsWaiting, answered_once}

module _ {Deliver : Type 0} where
  answer-local :
      (node : ClusterNode Deliver) (id : ℕ) (payload : Bytes)
      → (answer node node.local id payload).0
        ≡ handed (deliver_reply node (record { correlation = id; payload = some payload })).0
  unfolding answer route_reply
  answer-local node id payload = ground (arith, nat_beq_iff node.local node.local)

  answer-remote :
      (node : ClusterNode Deliver) (origin id : ℕ) (payload : Bytes)
      → origin ≢ node.local
      → (answer node origin id payload).0
        ≡ sent origin (Message.reply (record { correlation = id; payload = some payload }))
  unfolding answer route_reply
  answer-remote node origin id payload d = ground (arith, nat_beq_iff origin node.local)

  -- Wherever the actor runs that answers a caller that has just registered, the caller gets that
  -- answer: on the caller's own node it is handed over at once, and another node sends the
  -- caller's node a message that is handed over when it is delivered there.
  pub answer-register :
      (node other : ClusterNode Deliver) (deliver : Deliver) (payload : Bytes)
      → IsWaiting node
      → node.local ≢ other.local
      → let id : ℕ = (register node deliver).0 in
        let waits : ClusterNode Deliver = (register node deliver).1 in
        ((answer waits waits.local id payload).0 ≡ handed (some (deliver, payload)))
        × ((r : Reply) × ((answer other node.local id payload).0
              ≡ sent node.local (Message.reply r))
            × ((deliver_reply waits r).0 ≡ some (deliver, payload)))
  answer-register node other deliver payload w d =
      let id = (register node deliver).0 in
      let waits = (register node deliver).1 in
      let found = (answered_once node deliver payload payload w).0 in
      (
        rw (answer-local waits id payload) (ap handed found),
        (
          record { correlation = id; payload = some payload },
          answer-remote other node.local id payload d,
          found,
        ),
      )
