-- ===== src/TransportTcp/Peer.antt =====
-- One dialled connection of src/transport_tcp.rs: `Peer`, the halves of `rpc` before and after the wait,
-- `read_replies`, and the frames that the accepting side of a connection reads.
pub mod Accounts
pub mod Orphans
pub mod Exchange
pub mod Kept
pub mod Ownership
use horsie_actor.Base.{
  ℕ, ◌+◌, ◌%◌, Bool, true, false, Option, none, some, List, [], ◌∷◌, ◌++◌, map, Bytes, Result, ok,
  err, nat_eq, if◌then◌else◌, u64_mod,
}
use horsie_actor.Map.{Map, get, insert, remove}
use horsie_actor.Delivery.{Message}

pub data Frame : Type 0 where
  message : Message → Frame
  request : ℕ → Bytes → Frame
  response : ℕ → Option Bytes → Frame

-- `pending` has a caller's channel for each id. `reading` tells whether `read_replies` runs, and `ended`
-- what became of the channels, last first: the bytes that were sent, or none where it was dropped.
pub record Peer : Type 0 where
  pub pending : Map ℕ ℕ
  pub next_request : ℕ
  pub reading : Bool
  pub ended : List (ℕ × Option Bytes)

abbrev pub new_peer : Peer
new_peer = record { pending = []; next_request = 0; reading = true; ended = [] }

-- A channel that leaves the table without an answer is dropped.
abbrev pub dropped : Option ℕ → List (ℕ × Option Bytes) → List (ℕ × Option Bytes)
dropped none ended = ended
dropped (some caller) ended = (caller, none) ∷ ended

-- The part of `rpc` before the request is written: an id, and the caller's channel under it.
unfoldable pub begin_rpc : Peer → ℕ → ℕ × Peer
unfolding get insert
begin_rpc p caller = (
  p.next_request,
  record p {
    pending = insert p.pending p.next_request caller;
    next_request = (p.next_request + 1) % u64_mod;
    ended = dropped (get p.pending p.next_request) p.ended;
  },
)

-- Its part after the write failed.
unfoldable pub fail_rpc : Peer → ℕ → Peer
unfolding get remove
fail_rpc p id = record p {
  pending = remove p.pending id;
  ended = dropped (get p.pending id) p.ended;
}

-- `read_replies` leaves its loop.
unfoldable pub stop_reading : Peer → Peer
stop_reading p = record p {
  pending = [];
  reading = false;
  ended = map (λ waiting. (waiting.1, none)) p.pending ++ p.ended;
}

abbrev pub answered : Option ℕ → Option Bytes → List (ℕ × Option Bytes) → List (ℕ × Option Bytes)
answered none payload ended = ended
answered (some caller) payload ended = (caller, payload) ∷ ended

-- A frame that `read_replies` decoded, or none where it could not.
unfoldable pub reply_frame : Peer → Option Frame → Peer
unfolding get remove stop_reading
reply_frame p (some (Frame.response id payload)) = record p {
  pending = remove p.pending id;
  ended = answered (get p.pending id) payload p.ended;
}
reply_frame p (some (Frame.message _)) = p
reply_frame p (some (Frame.request _ _)) = p
reply_frame p none = stop_reading p

-- What reaches `read_replies`, which ends once.
abbrev pub while_reading : (Peer → Peer) → Peer → Peer
while_reading f p = if p.reading then f p else p

-- `read_replies` over the frames that arrive until the connection closes. `decode` is serde_json's.
unfoldable pub read_replies : (Bytes → Option Frame) → Peer → List Bytes → Peer
unfolding reply_frame stop_reading
read_replies decode p [] = while_reading stop_reading p
read_replies decode p (frame ∷ frames) =
    read_replies decode (while_reading (λ q. reply_frame q (decode frame)) p) frames

-- What the accepting side handed to its node, and the requests whose answer it waits for.
pub record Accepted : Type 0 where
  pub messages : List Message
  pub requests : List (ℕ × Bytes)

-- One frame in the loop of `serve`, or none where the node has shut down; `inbox` and `rpc_inbox` tell
-- whether the node still reads them.
unfoldable pub serve_frame : Bool → Bool → Accepted → Frame → Option Accepted
serve_frame inbox rpc_inbox s (Frame.message m) =
    if inbox then some (record s { messages = s.messages ++ m ∷ [] }) else none
serve_frame inbox rpc_inbox s (Frame.request id payload) =
    if rpc_inbox then some (record s { requests = s.requests ++ (id, payload) ∷ [] }) else none
serve_frame inbox rpc_inbox s (Frame.response _ _) = some s

-- The frame that the task of a request writes once the responder was used or dropped.
abbrev pub response_frame : ℕ × Bytes → Option Bytes → Frame
response_frame (id, payload) answer = Frame.response id answer
