-- ===== src/Node/Sending/Attempts.antt =====
-- What the attempts of a send in src/cluster/node.rs amount to.
use horsie_actor.Base.{
  ℕ, zero, suc, ◌≡◌, ◌↔◌, Option, none, some, Text, Bytes, Result, ok, err, arith, Option-cases,
  Result-cases, inl, inr,
}
use horsie_actor.Delivery.{Message}
use horsie_actor.Node.Sending.{TransportError, Outside, send_attempts, envelope, attempt, send}

module _ {W : Type 0} (out : Outside W) (type_name shard_id : Text) (payload : Bytes)
    (message_id : ℕ) where
  abbrev pub posted : W → ℕ → Result TransportError (Unit {0}) × W
  posted w owner =
      out.transport_send w owner
        (Message.command (envelope out type_name shard_id payload message_id))

  -- Up to `n` attempts: each goes to the node that owns the shard then, and the last one is taken.
  pub data Delivers : ℕ → W → W → Type 0 where
    taken :
        (n owner : ℕ) (w x : W)
        → out.owner_of w type_name shard_id ≡ some owner
        → (posted w owner).0 ≡ ok tt
        → (posted w owner).1 ≡ x
        → Delivers (suc n) w x
    retried :
        (n owner : ℕ) (w y : W) (e : TransportError)
        → out.owner_of w type_name shard_id ≡ some owner
        → (posted w owner).0 ≡ err e
        → Delivers n (posted w owner).1 y
        → Delivers (suc n) w y

  attempt-Delivers :
      (n : ℕ) (last : Option TransportError) (w x : W)
      → attempt out type_name shard_id payload message_id n last w ≡ (ok tt, x)
      → Delivers n w x
  unfolding attempt
  attempt-Delivers zero last w x h = ground (arith, h)
  attempt-Delivers (suc n) last w x h = elim (Option-cases (out.owner_of w type_name shard_id)) [
    | inl e ↦ ground (arith, h, e)
    | inr (owner, e) ↦ elim (Result-cases (posted w owner).0) [
      | inl (_, good) ↦ taken n owner w x e good (ground (arith, h, e, good))
      | inr (f, bad) ↦
          retried n owner w x f e bad
            (attempt-Delivers n (some f) (posted w owner).1 x (ground (arith, h, e, bad)))
    ]
  ]

  Delivers-attempt :
      (n : ℕ) (last : Option TransportError) (w x : W)
      → Delivers n w x
      → attempt out type_name shard_id payload message_id n last w ≡ (ok tt, x)
  unfolding attempt
  Delivers-attempt n last w x (taken m owner v y owned good same) =
      ground (arith, owned, good, same)
  Delivers-attempt n last w x (retried m owner v y e owned bad d) =
      ground (arith, owned, bad, Delivers-attempt m (some e) (posted v owner).1 y d)

  -- A send succeeds exactly if one of at most three attempts is taken by the transport, every
  -- attempt before it having failed, each at the node that owned the shard at that moment.
  pub send-Delivers :
      (w x : W)
      → (send out type_name shard_id payload message_id w ≡ (ok tt, x)) ↔ Delivers send_attempts w x
  unfolding send
  send-Delivers w x =
      (attempt-Delivers send_attempts none w x, Delivers-attempt send_attempts none w x)
