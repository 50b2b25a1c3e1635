-- ===== src/System/Once.antt =====
-- A stream of messages with redeliveries, in src/system.rs, beside the stream in which each command
-- comes once.
use horsie_actor.Base.{
  ℕ, ◌≤◌, ◌≡◌, refl, true, false, List, [], ◌∷◌, length, arith, Bool-cases, nat_eq, ==_iff, inl,
  inr,
}
use horsie_actor.Delivery.{Envelope, Message, Reply, contains, accept}
use horsie_actor.Delivery.Window.{IsWindow, Distinct, contains-cons}
use horsie_actor.Delivery.Remembering.{Follows, Follows-old, Follows-new}
use horsie_actor.System.{System, is_serving, dispatch}
use horsie_actor.System.Dispatching.{dispatch-repeat}
use horsie_actor.System.Redelivering.{command_ids, length-command_ids, dispatches, dispatch-window}

-- The messages without the commands whose id is among the given ones or came before.
unfoldable pub without_repeats : List ℕ → List Message → List Message
unfolding contains
without_repeats given [] = []
without_repeats given (Message.reply reply ∷ ms) = Message.reply reply ∷ without_repeats given ms
without_repeats given (Message.command env ∷ ms) = elim (contains given env.message_id) [
  | true ↦ without_repeats given ms
  | false ↦ Message.command env ∷ without_repeats (env.message_id ∷ given) ms
]

without_repeats-reply :
    (given : List ℕ) (reply : Reply) (ms : List Message)
    → without_repeats given (Message.reply reply ∷ ms)
      ≡ Message.reply reply ∷ without_repeats given ms
unfolding without_repeats
without_repeats-reply given reply ms = refl

module _ (given : List ℕ) (env : Envelope) (ms : List Message) where
  without_repeats-old :
      contains given env.message_id ≡ true
      → without_repeats given (Message.command env ∷ ms) ≡ without_repeats given ms
  unfolding without_repeats
  without_repeats-old h = rw (without_repeats, h) refl

  without_repeats-new :
      contains given env.message_id ≡ false
      → without_repeats given (Message.command env ∷ ms)
        ≡ Message.command env ∷ without_repeats (env.message_id ∷ given) ms
  unfolding without_repeats
  without_repeats-new h = rw (without_repeats, h) refl

-- None of the given ids is left, and none is left twice.
without_repeats-Distinct :
    (given : List ℕ) (ms : List Message)
    → ((id : ℕ)
        → contains given id ≡ true
        → contains (command_ids (without_repeats given ms)) id ≡ false)
      × Distinct (command_ids (without_repeats given ms))
unfolding contains without_repeats
without_repeats-Distinct given [] = (λ id h. refl, tt)
without_repeats-Distinct given (Message.reply reply ∷ ms) = without_repeats-Distinct given ms
without_repeats-Distinct given (Message.command env ∷ ms) =
    let id = env.message_id in
    elim (Bool-cases (contains given id)) [
      | inl old ↦ rw (without_repeats, old) (without_repeats-Distinct given ms)
      | inr new ↦
          let (apart, distinct) = without_repeats-Distinct (id ∷ given) ms in
          rw (without_repeats, new)
            (
              λ x h. ground (arith, apart x, contains-cons id x given, h, new, ==_iff id x),
              (apart id (ground (arith, contains-cons id id given)), distinct),
            )
    ]

module _ {Command EntityId ShardId Deliver : Type 0} where
  dispatches-Follows :
      (s : System Command EntityId ShardId Deliver) (given : List ℕ) (ms : List Message)
      → is_serving s ≡ true
      → Follows s.seen given (command_ids ms)
      → dispatches s ms ≡ dispatches s (without_repeats given ms)
  unfolding accept
  dispatches-Follows s given [] serving f = unfold without_repeats in refl
  dispatches-Follows s given (Message.reply reply ∷ ms) serving f =
      let (window, on) = dispatch-window s (Message.reply reply) serving in
      rw (without_repeats-reply given reply ms)
        (dispatches-Follows (dispatch s (Message.reply reply)).1 given ms on (rw window f))
  dispatches-Follows s given (Message.command env ∷ ms) serving f =
      elim (Bool-cases (contains given env.message_id)) [
        | inl old ↦
            let (refused, still) = Follows-old s.seen given (command_ids ms) env.message_id f old in
            rw (without_repeats-old given env ms old, dispatch-repeat s env serving refused)
              (dispatches-Follows s given ms serving still)
        | inr new ↦
            let (taken, follows) = Follows-new s.seen given (command_ids ms) env.message_id f new in
            let (window, on) = dispatch-window s (Message.command env) serving in
            rw (without_repeats-new given env ms new) (
              dispatches-Follows (dispatch s (Message.command env)).1 (env.message_id ∷ given) ms on
                (rw window follows))
      ]

  -- While the node serves, with a window that is well formed and holds the id of no command among
  -- the messages, which are no more than its capacity: however often each command is delivered
  -- again, and in whatever order, the node ends in the very state in which it ends when every
  -- command comes where it came first only; no id is left in that stream twice.
  pub dispatches-once :
      (s : System Command EntityId ShardId Deliver) (ms : List Message)
      → is_serving s ≡ true
      → IsWindow s.seen
      → ((id : ℕ) → contains (command_ids ms) id ≡ true → contains s.seen.order id ≡ false)
      → length ms ≤ s.seen.capacity
      → (dispatches s ms ≡ dispatches s (without_repeats [] ms))
        × Distinct (command_ids (without_repeats [] ms))
  dispatches-once s ms serving window fresh few =
      let follows : Follows s.seen [] (command_ids ms) = record {
        window = window;
        few = omega (arith, few, length-command_ids ms);
        held = λ id h. unfold contains in ground (arith, h);
        fresh = λ id none_given there. fresh id there;
      } in
      (dispatches-Follows s [] ms serving follows, (without_repeats-Distinct [] ms).1)
