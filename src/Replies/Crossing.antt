-- ===== src/Replies/Crossing.antt =====
-- A question that crosses from one node to another, in src/reply.rs over src/cluster/node.rs.
use horsie_actor.Base.{ℕ, ◌≡◌, ◌≢◌, refl, ap, Bool, true, Option, some, [], ◌∷◌, ◌++◌, Bytes, ok}
use horsie_actor.Delivery.{Reply, Message}
use horsie_actor.Node.{sent, register, deliver_reply}
use horsie_actor.Node.Waiting.{IsWaiting}
use horsie_actor.Node.Answers.{answer-register}
use horsie_actor.Replies.{
  ReplyTo, remote, routed, Context, Wire, from_sender, send, serialize, deserialize,
}

module _ {Value : Type 0} (is_open : ℕ → Bool) (encode : Value → Option Bytes) where
  -- A caller's handle that is encoded on its node, whose table of callers is well formed, decoded on a
  -- node with another number and answered there with a value that can be encoded: that node sends the
  -- caller's node one message, which is the payload for the caller's channel when it is delivered
  -- there.
  pub send-serialize :
      (asking : Context Value) (answering : Context Value) (channel : ℕ) (value : Value)
      (payload : Bytes)
      → IsWaiting asking.node
      → asking.node.local ≢ answering.node.local
      → encode value ≡ some payload
      → let (result, handle, waits) = serialize true true (from_sender channel) asking in
        (wire : Wire) × (there : ReplyTo) × (reply : Reply) × (result ≡ ok wire)
        × (deserialize true wire ≡ ok there)
        × ((send is_open encode there value answering).1.acts
            ≡ answering.acts ++ routed (sent asking.node.local (Message.reply reply)) ∷ [])
        × ((deliver_reply waits.node reply).0 ≡ some (channel, payload))
  unfolding serialize deserialize send
  send-serialize asking answering channel value payload w d e =
      let (id, node) = register asking.node channel in
      let (reply, gone, found) =
        (answer-register asking.node answering.node channel payload w d).1 in
      let wire : Wire = record { origin = asking.node.local; correlation = id } in
      (
        wire,
        remote asking.node.local id true,
        reply,
        refl,
        refl,
        rw (send, e) (ap (λ r. answering.acts ++ routed r ∷ []) gone),
        found,
      )
