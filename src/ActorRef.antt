-- ===== src/ActorRef.antt =====
-- References to actors in src/runtime.rs: a path with a cached link. One `tell` runs alone here, on the node
-- as it is once there is room in the mailbox that it sends to, or that mailbox has closed; what a
-- link to another node does with a command is a parameter, over what is outside the node.
pub mod Cached
use horsie_actor.Base.{
  ℕ, Bool, true, false, Option, none, some, List, [], ◌∷◌, ◌++◌, Result, ok, err, map_err, ◌==◌,
  nat_eq, if◌then◌else◌,
}
use horsie_actor.ActorPath.{ActorPath}
use horsie_actor.Registry.{Registry, is_alive, resolve, stop_at}

-- `TellError`, in src/error.rs.
pub data TellError : Type 0 where
  mailbox_closed undeliverable no_answer : TellError

-- A mailbox of this process, or a closure that ships commands to another node.
pub data Link : Type 0 where
  local : ℕ → Link
  remote : ℕ → Link

-- The node, with the commands that its mailboxes took, and the rest.
pub record World (Command W : Type 0) : Type 0 where
  pub registry : Registry
  pub delivered : List (ℕ × Command)
  pub outside : W

-- `Link::is_alive`.
unfoldable pub link_is_alive : Registry → Link → Bool
unfolding is_alive
link_is_alive s (local mailbox) = is_alive s mailbox
link_is_alive s (remote ship) = true

unfoldable pub is_same : Link → Link → Bool
is_same (local a) (local b) = a == b
is_same (remote a) (remote b) = a == b
is_same _ _ = false

unfoldable pub forget : Option Link → Link → Option Link
unfolding is_same
forget none stale = none
forget (some link) stale = if is_same link stale then none else some link

module _ {Command W : Type 0} (ship : ℕ → Command → W → Result TellError (Unit {0}) × W) where
  -- `Link::send`, which gives the command back when it can be tried elsewhere.
  unfoldable pub send :
      Link
      → Command
      → World Command W
      → Result (TellError × Option Command) (Unit {0}) × World Command W
  unfolding is_alive
  send (local mailbox) cmd w =
      if is_alive w.registry mailbox
      then (ok tt, record w { delivered = w.delivered ++ (mailbox, cmd) ∷ [] })
      else (err (mailbox_closed, some cmd), w)
  send (remote link) cmd w =
      let (result, later) = ship link cmd w.outside in
      (map_err (λ e. (e, none)) result, record w { outside = later })

  -- Look the path up, keep what is found, and send there; `up` is whether the system is still there.
  unfoldable pub send_resolved :
      Bool
      → ℕ
      → ActorPath
      → Option Link
      → Command
      → World Command W
      → Result TellError (Unit {0}) × Option Link × World Command W
  unfolding resolve send
  send_resolved up command_type path slot cmd w =
      let found : Option ℕ = if up then resolve w.registry command_type path else none in
      elim found [
        | none ↦ (err mailbox_closed, slot, w)
        | some mailbox ↦
            let (result, after) = send (local mailbox) cmd w in
            (map_err (λ e. e.0) result, some (local mailbox), after)
      ]

  unfoldable pub tell :
      Bool
      → ℕ
      → ActorPath
      → Option Link
      → Command
      → World Command W
      → Result TellError (Unit {0}) × Option Link × World Command W
  unfolding send send_resolved forget
  tell up command_type path slot cmd w = elim slot [
    | none ↦ send_resolved up command_type path none cmd w
    | some link ↦
        let (result, after) = send link cmd w in
        elim result [
          | ok _ ↦ (ok tt, some link, after)
          | err (e, back) ↦ elim back [
            | none ↦ (err e, some link, after)
            | some cmd ↦ send_resolved up command_type path (forget (some link) link) cmd after
          ]
        ]
  ]

-- `ActorRef::stop`.
unfoldable pub stop : Bool → ActorPath → Registry → Bool × Registry
unfolding stop_at
stop up path s = if up then stop_at s path else (false, s)
