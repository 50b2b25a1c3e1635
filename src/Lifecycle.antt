-- ===== src/Lifecycle.antt =====
-- The life of one actor in src/runtime.rs: its start, the serving loop and its end. The actor's own code
-- is a parameter. Which branch of each `select!` comes first is an input, turn by turn.
pub mod Ending
use horsie_actor.Base.{ℕ, Bool, true, false, not, ◌||◌, List, [], ◌∷◌, if◌then◌else◌}
use horsie_actor.ActorPath.{ActorPath}
use horsie_actor.Effect.{Flow}
use horsie_actor.Registry.{Registry, finish}

-- What a watch channel shows next: a value, or that its sender is gone.
pub data Seen : Type 0 where
  changed : Bool → Seen
  sender_gone : Seen

-- Whether the wait is over after what the channel has shown so far.
unfoldable pub stood_down : List Seen → Bool
stood_down [] = false
stood_down (sender_gone ∷ rest) = true
stood_down (changed stop ∷ rest) = let later = stood_down rest in if stop then true else later

unfoldable pub asked_to_stop : List Seen → Bool
asked_to_stop [] = false
asked_to_stop (sender_gone ∷ rest) = false
asked_to_stop (changed stop ∷ rest) = let later = asked_to_stop rest in if stop then true else later

-- What ends the wait for a command.
pub data Wait (Command : Type 0) : Type 0 where
  received : Command → Wait Command
  closed : Wait Command
  signalled : Wait Command

-- What ends the wait for the handler.
pub data Race : Type 0 where
  completed interrupted : Race

-- `actor` is as the last handler that completed left it. What a handler that was cut short did to it
-- is not kept: the actor is dropped next.
pub record Served (Actor Command : Type 0) : Type 0 where
  pub returned : Bool
  pub handled : List Command
  pub actor : Actor

module _ {Actor Command : Type 0} (handle : Actor → Command → Flow × Actor) where
  unfoldable pub serve : Actor → List (Wait Command × Race) → Served Actor Command
  serve actor [] = record { returned = false; handled = []; actor = actor }
  serve actor ((closed, race) ∷ rest) = record { returned = true; handled = []; actor = actor }
  serve actor ((signalled, race) ∷ rest) = record { returned = true; handled = []; actor = actor }
  serve actor ((received cmd, interrupted) ∷ rest) = record {
    returned = true;
    handled = [];
    actor = actor;
  }
  serve actor ((received cmd, completed) ∷ rest) =
      let (flow, next) = handle actor cmd in
      let later = serve next rest in
      elim flow [
        | Flow.stop ↦ record { returned = true; handled = cmd ∷ []; actor = next }
        | Flow.continue ↦ record later { handled = cmd ∷ later.handled }
      ]

  -- `run_actor` of the actor in a mailbox: the registry after it, if the loop has returned by then.
  unfoldable pub run_actor :
      (Actor → Bool × Actor)
      → ActorPath
      → ℕ
      → Actor
      → List (Wait Command × Race)
      → Registry
      → Bool × Registry
  unfolding serve finish
  run_actor on_start path mailbox actor turns s =
      let (started, ready) = on_start actor in
      let over = not started || (serve ready turns).returned in
      (over, if over then finish s path mailbox else s)
