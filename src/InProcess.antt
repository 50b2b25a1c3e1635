-- ===== src/InProcess.antt =====
-- The network of src/transport.rs that joins the nodes of one process. A node's two inboxes are one
-- number, given out in the order of creation; a wait for room in an inbox is not modelled.
pub mod Partition
use horsie_actor.Base.{
  ℕ, ◌+◌, Bool, true, false, Option, none, some, List, [], ◌∷◌, ◌++◌, Result, ok, err, ok_or,
  nat_eq, if◌then◌else◌, Text, Bytes, codes, ◌≡◌, refl,
}
use horsie_actor.Map.{Map, get, insert, remove}
use horsie_actor.Delivery.{Message}
use horsie_actor.Node.Sending.{TransportError, unreachable, io}

-- `nodes` and `detached` are those of the source; `taken` is what the inboxes took, in order.
pub record InProcessNetwork : Type 0 where
  pub nodes : Map ℕ ℕ
  pub detached : Map ℕ ℕ
  pub next : ℕ
  pub taken : List (ℕ × Message)

abbrev pub empty_network : InProcessNetwork
empty_network = record { nodes = []; detached = []; next = 0; taken = [] }

-- `InProcessNetwork::node`.
unfoldable pub attach : InProcessNetwork → ℕ → ℕ × InProcessNetwork
unfolding insert
attach net id = (net.next, record net { nodes = insert net.nodes id net.next; next = net.next + 1 })

-- `InProcessNetwork::remove`.
unfoldable pub detach : InProcessNetwork → ℕ → InProcessNetwork
unfolding get insert remove
detach net id = elim (get net.nodes id) [
  | none ↦ net
  | some inbox ↦ record net { nodes = remove net.nodes id; detached = insert net.detached id inbox }
]

unfoldable pub restore : InProcessNetwork → ℕ → InProcessNetwork
unfolding get insert remove
restore net id = elim (get net.detached id) [
  | none ↦ net
  | some inbox ↦ record net { nodes = insert net.nodes id inbox; detached = remove net.detached id }
]

abbrev pub is_some {ℓ} : {A : Type ℓ} → Option A → Bool
is_some none = false
is_some (some a) = true

unfoldable pub contains : InProcessNetwork → ℕ → Bool
unfolding get
contains net id = is_some (get net.nodes id)

-- The inboxes that a node of the network sends to.
unfoldable pub mailboxes : InProcessNetwork → ℕ → ℕ → Result TransportError ℕ
unfolding get
mailboxes net local to =
    if is_some (get net.nodes local)
    then ok_or (get net.nodes to) (unreachable to)
    else err (unreachable to)

-- `send`, where the receiver of an inbox may be gone.
unfoldable pub send :
    (ℕ → Bool)
    → InProcessNetwork
    → ℕ
    → ℕ
    → Message
    → Result TransportError (Unit {0}) × InProcessNetwork
unfolding mailboxes
send is_open net local to message = elim (mailboxes net local to) [
  | err e ↦ (err e, net)
  | ok inbox ↦
      if is_open inbox
      then (ok tt, record net { taken = net.taken ++ (inbox, message) ∷ [] })
      else (err (unreachable to), net)
]

-- What a caller is told that gets no answer; `decimal` is how a number is printed.
abbrev pub did_not_answer : (ℕ → Text) → ℕ → TransportError
did_not_answer decimal to = io (codes "node-" ++ (decimal to ++ codes " did not answer"))

-- `rpc`. `respond` is what the reader of an inbox makes of a request: its answer, or none where it
-- drops the responder, and what it leaves of the nodes' states.
unfoldable pub rpc {ℓ} :
    {S : Type ℓ}
    → (ℕ → Text)
    → (ℕ → Bool)
    → (ℕ → S → Bytes → Option Bytes × S)
    → InProcessNetwork
    → ℕ
    → S
    → ℕ
    → Bytes
    → Result TransportError Bytes × S
rpc decimal is_open respond net local s to payload = elim (mailboxes net local to) [
  | err e ↦ (err e, s)
  | ok inbox ↦
      if is_open inbox
      then (let (answer, after) = respond inbox s payload in
          (ok_or answer (did_not_answer decimal to), after))
      else (err (unreachable to), s)
]

-- The inboxes that a transport keeps for its node until they are taken, here and in
-- src/transport_tcp.rs.
pub record Inboxes (Messages Requests : Type 0) : Type 0 where
  pub inbox : Option Messages
  pub rpc_inbox : Option Requests

module _ {Messages Requests : Type 0} where
  unfoldable pub incoming : Inboxes Messages Requests → Option Messages × Inboxes Messages Requests
  incoming i = (i.inbox, record i { inbox = none })

  unfoldable pub incoming_rpc :
      Inboxes Messages Requests → Option Requests × Inboxes Messages Requests
  incoming_rpc i = (i.rpc_inbox, record i { rpc_inbox = none })

  -- Each inbox is taken once, whatever became of the other.
  incoming-once :
      (i : Inboxes Messages Requests)
      → ((incoming (incoming_rpc (incoming i).1).1).0 ≡ none)
        × ((incoming_rpc (incoming i).1).0 ≡ i.rpc_inbox)
  unfolding incoming incoming_rpc
  incoming-once i = (refl, refl)
