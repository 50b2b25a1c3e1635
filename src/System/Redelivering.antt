-- ===== src/System/Redelivering.antt =====
-- The redelivery of a command in src/system.rs, among other messages.
use horsie_actor.Base.{
  ℕ, ◌<◌, ◌≤◌, ◌≡◌, refl, sym, ap, ◌∙◌, true, none, List, [], ◌∷◌, length, ok, err, nat_eq, list_eq,
  arith, Bool-cases, Option-cases, inl, inr,
}
use horsie_actor.Map.{get}
use horsie_actor.Delivery.{Dedup, Envelope, Message, Reply, accept}
use horsie_actor.Delivery.Window.{IsWindow}
use horsie_actor.Delivery.Redelivery.{deliveries, redelivery}
use horsie_actor.Node.{deliver_reply, forget}
use horsie_actor.System.{
  System, Registered, Wire, unknown_shard_type, is_serving, dispatch, register_shard,
}
use horsie_actor.System.Receiving.{Kept}
use horsie_actor.System.Dispatching.{
  accept-refused, accepted, dispatch-unknown, dispatch-repeat, dispatch-Received,
}

-- The ids of the commands among the messages.
abbrev pub command_ids : List Message → List ℕ
command_ids [] = []
command_ids (Message.command env ∷ ms) = env.message_id ∷ command_ids ms
command_ids (Message.reply reply ∷ ms) = command_ids ms

pub length-command_ids : (ms : List Message) → length (command_ids ms) ≤ length ms
length-command_ids [] = omega arith
length-command_ids (Message.command env ∷ ms) = omega (arith, length-command_ids ms)
length-command_ids (Message.reply reply ∷ ms) = omega (arith, length-command_ids ms)

deliveries_first :
    (d : Dedup) (m : Message) (ms : List Message)
    → deliveries (deliveries d (command_ids (m ∷ []))) (command_ids ms)
      ≡ deliveries d (command_ids (m ∷ ms))
deliveries_first d (Message.command env) ms = refl
deliveries_first d (Message.reply reply) ms = refl

module _ {Command EntityId ShardId Deliver : Type 0} where
  abbrev pub dispatches :
      System Command EntityId ShardId Deliver
      → List Message
      → System Command EntityId ShardId Deliver
  dispatches s [] = s
  dispatches s (m ∷ ms) = dispatches (dispatch s m).1 ms

  Kept-is_serving :
      (s t : System Command EntityId ShardId Deliver)
      → Kept s t
      → is_serving s ≡ true
      → is_serving t ≡ true
  unfolding is_serving
  Kept-is_serving s t kept serving = rw (is_serving, kept.1) serving

  dispatch-reply :
      (s : System Command EntityId ShardId Deliver) (reply : Reply)
      → is_serving s ≡ true
      → ((dispatch s (Message.reply reply)).1.seen ≡ s.seen)
        × (is_serving (dispatch s (Message.reply reply)).1 ≡ true)
  unfolding dispatch is_serving deliver_reply forget
  dispatch-reply s reply serving = elim (Option-cases s.cluster) [
    | inl e ↦ (ground (arith, e), ground (arith, e, serving))
    | inr (node, e) ↦ (ground (arith, e), ground (arith, e, serving))
  ]

  pub dispatch-window :
      (s : System Command EntityId ShardId Deliver) (m : Message)
      → is_serving s ≡ true
      → ((dispatch s m).1.seen ≡ deliveries s.seen (command_ids (m ∷ [])))
        × (is_serving (dispatch s m).1 ≡ true)
  unfolding accept is_serving
  dispatch-window s (Message.command env) serving = elim (Bool-cases (accept s.seen env).0) [
    | inl new ↦
        let (kept, got) = dispatch-Received s env serving new in
        (kept.0, Kept-is_serving (accepted s env) (dispatch s (Message.command env)).1 kept serving)
    | inr old ↦
        rw (dispatch-repeat s env serving old)
          (sym (ap (λ r. r.1) (accept-refused s.seen env old)), serving)
  ]
  dispatch-window s (Message.reply reply) serving = dispatch-reply s reply serving

  dispatches-window :
      (s : System Command EntityId ShardId Deliver) (ms : List Message)
      → is_serving s ≡ true
      → ((dispatches s ms).seen ≡ deliveries s.seen (command_ids ms))
        × (is_serving (dispatches s ms) ≡ true)
  dispatches-window s [] serving = (refl, serving)
  dispatches-window s (m ∷ ms) serving =
      let (window, on) = dispatch-window s m serving in
      let (later, still) = dispatches-window (dispatch s m).1 ms on in
      (later ∙ rw window (deliveries_first s.seen m ms), still)

  -- While the node serves, with a window that is well formed, a command envelope that the window
  -- took is a repeat after any further messages that are fewer than the window's capacity, whether
  -- its own delivery succeeded or failed: it is reported as delivered, and nothing changes.
  pub dispatch-redelivery :
      (s : System Command EntityId ShardId Deliver) (env : Envelope) (ms : List Message)
      → is_serving s ≡ true
      → IsWindow s.seen
      → (accept s.seen env).0 ≡ true
      → length ms < s.seen.capacity
      → let t = dispatches (dispatch s (Message.command env)).1 ms in
        dispatch t (Message.command env) ≡ (ok tt, t)
  unfolding accept
  dispatch-redelivery s env ms serving w new few =
      let first = (dispatch s (Message.command env)).1 in
      let (window, on) = dispatch-window s (Message.command env) serving in
      let (later, still) = dispatches-window first ms on in
      let few_ids : length (command_ids ms) < s.seen.capacity =
        omega (arith, few, length-command_ids ms) in
      let again = redelivery s.seen env.message_id (command_ids ms) w new few_ids in
      dispatch-repeat (dispatches first ms) env still (rw (later, window) again)

  register_shard-Kept :
      (s : System Command EntityId ShardId Deliver)
      (registered : Registered Command EntityId ShardId) (wire : Wire Command Deliver)
      → Kept s (register_shard s registered wire).1
        × ((register_shard s registered wire).1.delivered ≡ s.delivered)
  unfolding register_shard
  register_shard-Kept s registered wire =
      elim (Option-cases (get s.shards registered.shard.type_name)) [
        | inl e ↦ rw (register_shard, e) ((refl, refl), refl)
        | inr (x, e) ↦ rw (register_shard, e) ((refl, refl), refl)
      ]

  -- While the node serves, with a window that is well formed, a command that the window takes and
  -- whose shard type is not registered fails with that error. When a shard type is registered next
  -- and the command arrives again, that is reported as delivered, and nothing was delivered.
  pub dispatch-lost :
      (s : System Command EntityId ShardId Deliver) (env : Envelope)
      (registered : Registered Command EntityId ShardId) (wire : Wire Command Deliver)
      → is_serving s ≡ true
      → IsWindow s.seen
      → (accept s.seen env).0 ≡ true
      → 0 < s.seen.capacity
      → get s.shards env.type_name ≡ none
      → let t = (register_shard (dispatch s (Message.command env)).1 registered wire).1 in
        ((dispatch s (Message.command env)).0 ≡ err (unknown_shard_type env.type_name))
        × (dispatch t (Message.command env) ≡ (ok tt, t))
        × (t.delivered ≡ s.delivered)
  unfolding accept is_serving
  dispatch-lost s env registered wire serving w new room e =
      let failed = dispatch-unknown s env serving new e in
      let ((window, on), quiet) = register_shard-Kept (accepted s env) registered wire in
      let t = (register_shard (accepted s env) registered wire).1 in
      let again = redelivery s.seen env.message_id [] w new room in
      rw failed (
        refl,
        dispatch-repeat t env (Kept-is_serving (accepted s env) t (window, on) serving)
            (rw window again),
        quiet,
      )
