-- ===== src/System/Dispatching.antt =====
-- What arrives at a node, in src/system.rs: the window before the delivery, and the delivery.
use horsie_actor.Base.{
  ◌≡◌, ◌⊎◌, refl, ap, true, false, none, some, ok, err, nat_eq, list_eq, arith, Option-cases, inl,
  inr,
}
use horsie_actor.Map.{get}
use horsie_actor.Delivery.{Dedup, Envelope, Message, accept, accept_id}
use horsie_actor.System.{
  System, Registered, DispatchError, unknown_shard_type, is_serving, require_serving, receive,
  dispatch_command, dispatch,
}
use horsie_actor.System.Receiving.{Kept, Delivery, receive-Received}

-- A refusal leaves the window as it is.
pub accept-refused :
    (d : Dedup) (env : Envelope) → (accept d env).0 ≡ false → accept d env ≡ (false, d)
unfolding accept accept_id
accept-refused d env h = ground (arith, h)

module _ {Command EntityId ShardId Deliver : Type 0} where
  abbrev pub accepted :
      System Command EntityId ShardId Deliver → Envelope → System Command EntityId ShardId Deliver
  accepted s env = record s { seen = (accept s.seen env).1 }

  pub dispatch-unknown :
      (s : System Command EntityId ShardId Deliver) (env : Envelope)
      → is_serving s ≡ true
      → (accept s.seen env).0 ≡ true
      → get s.shards env.type_name ≡ none
      → dispatch s (Message.command env) ≡ (err (unknown_shard_type env.type_name), accepted s env)
  unfolding dispatch dispatch_command require_serving
  dispatch-unknown s env serving new e =
      rw (dispatch, dispatch_command, require_serving, serving, new, e) refl

  dispatch-known :
      (s : System Command EntityId ShardId Deliver) (env : Envelope)
      (registered : Registered Command EntityId ShardId)
      → is_serving s ≡ true
      → (accept s.seen env).0 ≡ true
      → get s.shards env.type_name ≡ some registered
      → dispatch s (Message.command env)
        ≡ receive (accepted s env) registered env.message_id env.payload
  unfolding dispatch dispatch_command require_serving
  dispatch-known s env registered serving new e =
      rw (dispatch, dispatch_command, require_serving, serving, new, e) refl

  pub dispatch-repeat :
      (s : System Command EntityId ShardId Deliver) (env : Envelope)
      → is_serving s ≡ true
      → (accept s.seen env).0 ≡ false
      → dispatch s (Message.command env) ≡ (ok tt, s)
  unfolding dispatch dispatch_command require_serving
  dispatch-repeat s env serving old =
      let same : (accept s.seen env).1 ≡ s.seen = ap (λ r. r.1) (accept-refused s.seen env old) in
      rw (dispatch, dispatch_command, require_serving, serving, old, same) refl

  -- While the node serves, a command envelope whose id the window takes either fails and delivers
  -- nothing, or its shard type is registered and its payload, decoded, is the one command that is
  -- delivered, to the mailbox that is resolved at its address. The window has its id in either case.
  pub dispatch-Received :
      (s : System Command EntityId ShardId Deliver) (env : Envelope)
      → is_serving s ≡ true
      → (accept s.seen env).0 ≡ true
      → Kept (accepted s env) (dispatch s (Message.command env)).1
        × (((e : DispatchError) × ((dispatch s (Message.command env)).0 ≡ err e)
              × ((dispatch s (Message.command env)).1.delivered ≡ s.delivered))
            ⊎ ((dispatch s (Message.command env)).0 ≡ ok tt)
              × ((registered : Registered Command EntityId ShardId) × (get s.shards env.type_name
                    ≡ some registered)
                  × Delivery
                      (accepted s env)
                      registered
                      env.payload
                      (dispatch s (Message.command env)).1))
  dispatch-Received s env serving new = elim (Option-cases (get s.shards env.type_name)) [
    | inl e ↦
        rw (dispatch-unknown s env serving new e)
          ((refl, refl), inl (unknown_shard_type env.type_name, refl, refl))
    | inr (registered, e) ↦
        let (kept, got) = receive-Received (accepted s env) registered env.message_id env.payload in
        rw (dispatch-known s env registered serving new e) (elim got [
          | inl failed ↦ (kept, inl failed)
          | inr (done, d) ↦ (kept, inr (done, (registered, e, d)))
        ])
  ]
