-- ===== src/Replies.antt =====
-- The life of a reply handle in src/reply.rs. A caller is the channel that it waits on, a number, also
-- in the table of its node. The user's encoding of answers is a parameter, and so are whether a channel
-- still has its receiver and whether a serialiser takes what it is given.
pub mod Lives
pub mod Crossing
use horsie_actor.Base.{
  ℕ, Bool, true, false, not, ◌&&◌, Option, none, some, List, [], ◌∷◌, ◌++◌, Bytes, Result, ok, err,
  if◌then◌else◌,
}
use horsie_actor.Node.{ClusterNode, Routed, register, forget, answer, abandon}

pub data HandleError : Type 0 where
  reply_dropped no_router already_encoded not_serialised : HandleError

-- The caller is in this process, with the sender that is still there and the row of the node's table
-- to forget; or on another node, with whether the handle can still answer.
pub data ReplyTo : Type 0 where
  local : Option ℕ → Option ℕ → ReplyTo
  remote : ℕ → ℕ → Bool → ReplyTo

-- A value that was put in a channel, the end of a channel's sender, and an answer of the node.
pub data Act (Value : Type 0) : Type 0 where
  told : ℕ → Value → Act Value
  hung_up : ℕ → Act Value
  routed : Routed ℕ → Act Value

pub record Wire : Type 0 where
  pub origin : ℕ
  pub correlation : ℕ

pub record Context (Value : Type 0) : Type 0 where
  pub node : ClusterNode ℕ
  pub acts : List (Act Value)

abbrev pub from_sender : ℕ → ReplyTo
from_sender channel = local (some channel) none

-- A handle on the wire, on the node that decodes it: whether it is in a transport's context first.
unfoldable pub deserialize : Bool → Wire → Result HandleError ReplyTo
deserialize in_context wire =
    if in_context then ok (remote wire.origin wire.correlation true) else err no_router

module _ {Value : Type 0} where
  abbrev pub route : Context Value → Routed ℕ × ClusterNode ℕ → Context Value
  route c (result, node) = record c { node = node; acts = c.acts ++ routed result ∷ [] }

  abbrev pub act : Context Value → Act Value → Context Value
  act c a = record c { acts = c.acts ++ a ∷ [] }

  -- `Drop`, and that of the sender in the handle.
  unfoldable pub drop : ReplyTo → Context Value → Context Value
  unfolding abandon
  drop (local (some channel) row) c = act c (hung_up channel)
  drop (local none row) c = c
  drop (remote origin correlation true) c = route c (abandon c.node origin correlation)
  drop (remote origin correlation false) c = c

  -- The handle is used up; its drop finds nothing to do.
  unfoldable pub send :
      (ℕ → Bool)
      → (Value → Option Bytes)
      → ReplyTo
      → Value
      → Context Value
      → Result HandleError (Unit {0}) × Context Value
  unfolding answer abandon
  send is_open encode (local none row) value c = (err reply_dropped, c)
  send is_open encode (local (some channel) row) value c =
      if is_open channel then (ok tt, act c (told channel value)) else (err reply_dropped, c)
  send is_open encode (remote origin correlation false) value c = (err reply_dropped, c)
  send is_open encode (remote origin correlation true) value c = elim (encode value) [
    | some payload ↦ (ok tt, route c (answer c.node origin correlation payload))
    | none ↦ (ok tt, route c (abandon c.node origin correlation))
  ]

  -- `Serialize`, in a transport's context or not, to a serialiser that takes the wire form or not.
  unfoldable pub serialize :
      Bool → Bool → ReplyTo → Context Value → Result HandleError Wire × ReplyTo × Context Value
  unfolding register
  serialize false takes handle c = (err no_router, handle, c)
  serialize true takes (local none row) c = (err already_encoded, local none row, c)
  serialize true takes (local (some channel) row) c =
      let (correlation, node) = register c.node channel in
      let wire : Wire = record { origin = node.local; correlation = correlation } in
      (
        if takes then ok wire else err not_serialised,
        local none (some correlation),
        record c { node = node },
      )
  serialize true takes (remote origin correlation armed) c =
      let wire : Wire = record { origin = origin; correlation = correlation } in
      if takes
      then (ok wire, remote origin correlation false, c)
      else (err not_serialised, remote origin correlation armed, c)

  -- `Cancelled`: the caller stops waiting.
  unfoldable pub cancelled : ReplyTo → Context Value → Context Value
  unfolding forget
  cancelled (local slot none) c = c
  cancelled (local slot (some correlation)) c = record c { node = forget c.node correlation }
  cancelled (remote origin correlation armed) c = c
