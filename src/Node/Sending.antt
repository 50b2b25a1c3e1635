-- ===== src/Node/Sending.antt =====
-- `ClusterNode::send` in src/cluster/node.rs. What the attempts meet, the node's table at each of
-- them and the transport, is a parameter: `W` is the rest of the cluster with the time that passes.
pub mod Attempts
use horsie_actor.Base.{
  ℕ, zero, suc, Option, none, some, Text, Bytes, Result, ok, err, codes, ◌++◌, ◌∷◌,
}
use horsie_actor.Delivery.{Envelope, Message}

pub data TransportError : Type 0 where
  unreachable : ℕ → TransportError
  io : Text → TransportError

abbrev pub send_attempts : ℕ
send_attempts = 3

-- What a send finds outside it: the owner of a shard by the table as it is, and the transport.
pub record Outside (W : Type 0) : Type 0 where
  pub owner_of : W → Text → Text → Option ℕ
  pub transport_send : W → ℕ → Message → Result TransportError (Unit {0}) × W

abbrev pub unwrap_or {ℓ} : {A : Type ℓ} → Option A → A → A
unwrap_or none a = a
unwrap_or (some b) a = b

module _ {W : Type 0} (out : Outside W) (type_name shard_id : Text) (payload : Bytes)
    (message_id : ℕ) where
  abbrev pub envelope : Envelope
  envelope = record { type_name = type_name; message_id = message_id; payload = payload }

  -- The attempts that are left, with the last failure.
  unfoldable pub attempt : ℕ → Option TransportError → W → Result TransportError (Unit {0}) × W
  attempt zero last w = (
    err (unwrap_or last (io (codes "gave up delivering to " ++ (type_name ++ b'/' ∷ shard_id)))),
    w,
  )
  attempt (suc left) last w = elim (out.owner_of w type_name shard_id) [
    | none ↦ (err (io (codes "no live member can host " ++ (type_name ++ b'/' ∷ shard_id))), w)
    | some owner ↦
        let (result, later) = out.transport_send w owner (Message.command envelope) in
        elim result [ ok _ ↦ (ok tt, later) | err e ↦ attempt left (some e) later ]
  ]

  unfoldable pub send : W → Result TransportError (Unit {0}) × W
  unfolding attempt
  send w = attempt send_attempts none w
