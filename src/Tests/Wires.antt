-- ===== src/Tests/Wires.antt =====
-- The theorems on frames, the handshake, sending, reply handles and the network in one process.
use horsie_actor.Base.{
  ℕ, zero, suc, ◌≡◌, ◌≢◌, ◌↔◌, ◌<◌, ◌≤◌, refl, Bool, true, false, Option, none, some, List, map,
  u32_to_be_bytes, [], ◌∷◌, ◌++◌, any, Bytes, ok, err, arith, nat_eq, list_eq, if◌then◌else◌,
  length, leb, ltb, All, u32_mod, u64_mod,
}
use horsie_actor.Map.{get, insert}
use horsie_actor.Delivery.{Message, Reply}
use horsie_actor.Node.{ClusterNode, sent, deliver_reply}
use horsie_actor.Node.Waiting.{IsWaiting}
use horsie_actor.Placement.{new}
use horsie_actor.TransportTcp.{
  invalid_data, unexpected_eof, max_frame, write_frame, read_frame_from, hello, check_hello,
}
use horsie_actor.TransportTcp.Frames.{write_frames, read_frame_from-write_frame}
use horsie_actor.TransportTcp.Peer.{Frame}
use horsie_actor.TransportTcp.Listening.{
  Conn, Listener, Event, listening, closed, failed, accepts, turns, listen,
}
use horsie_actor.TransportTcp.Listening.Interleaved.{frames_of, frames_from}
use horsie_actor.TransportTcp.Listening.Alone.{listen-serve}
use horsie_actor.TransportTcp.Serving.{nothing, serve}
use horsie_actor.TransportTcp.Serving.Sent.{always, handed, serve-sent}
use horsie_actor.TransportTcp.Handshake.{check_hello-hello}
use horsie_actor.Replies
use horsie_actor.Replies.{ReplyTo, Context, Wire, from_sender, routed, serialize, deserialize}
use horsie_actor.Replies.Lives.{
  Attempts, answers, attempted, ended, is_passed_on, routed_to, remote-ended,
}
use horsie_actor.Replies.Crossing.{send-serialize}
use horsie_actor.InProcess.{InProcessNetwork, empty_network, attach}

abbrev short : Bytes
short = 1 ∷ 2 ∷ 3 ∷ []

read_frame_from-write_frame_example :
    (length short < u32_mod
      → (out : Bytes) × (write_frame short ≡ ok out)
        × ((rest : Bytes)
            → read_frame_from (out ++ rest)
              ≡ (if ltb max_frame (length short) then err invalid_data else ok (short, rest))))
    × (u32_mod ≤ length short → write_frame short ≡ err invalid_data)
read_frame_from-write_frame_example = read_frame_from-write_frame short

-- A hash of 32 bytes.
abbrev repeated : ℕ → ℕ → Bytes
repeated zero b = []
repeated (suc n) b = b ∷ repeated n b

abbrev short_hash : Bytes → Bytes
short_hash text = repeated 32 (length text)

abbrev greeting : Bytes
greeting = hello short_hash short 3 5

all_small : (xs : Bytes) → any (λ x. leb 256 x) xs ≡ false → All (λ x. x < 256) xs
all_small [] h = tt
all_small (x ∷ xs) h = (ground (arith, h), all_small xs (ground (arith, h)))

greeting_small : All (λ x. x < 256) greeting
unfolding hello
greeting_small = all_small greeting refl

check_hello-hello_example : (check_hello short_hash short greeting ≡ ok tt) ↔ (
    (node : ℕ) × (nonce : ℕ) × (node < u64_mod)
    × (nonce < u64_mod)
    × (greeting ≡ hello short_hash short node nonce))
check_hello-hello_example =
    check_hello-hello short_hash short greeting (λ text. refl) greeting_small

abbrev asker : ClusterNode ℕ
asker = record {
  local = 3;
  table = new;
  serving = true;
  serving_sent = true;
  live_sent = [];
  counter = 0;
  waiting = [];
  correlations = 0;
}

abbrev host : ClusterNode ℕ
host = record asker { local = 1 }

asker-IsWaiting : IsWaiting asker
asker-IsWaiting = record { below = tt; bounded = omega arith; in_range = omega arith }

host_elsewhere : asker.local ≢ host.local
host_elsewhere h = omega (arith, h)

abbrev is_open : ℕ → Bool
is_open channel = true

abbrev one_byte : ℕ → Option Bytes
one_byte n = if ltb n 256 then some (n ∷ []) else none

abbrev asking : Context ℕ
asking = record { node = asker; acts = [] }

abbrev hosting : Context ℕ
hosting = record { node = host; acts = [] }

abbrev tries : Attempts
tries = (false, true) ∷ (true, false) ∷ []

remote-ended_example :
    (ended is_open one_byte
      (answers 7)
      (attempted is_open one_byte tries (Replies.remote 3 9 true) hosting)).acts
    ≡ (if is_passed_on tries
        then hosting.acts
        else hosting.acts ++ routed (routed_to is_open one_byte host 3 9 (answers 7)) ∷ [])
remote-ended_example = remote-ended is_open one_byte tries (answers 7) 3 9 hosting

send-serialize_example :
    let (result, handle, waits) = serialize true true (from_sender 4) asking in
    (wire : Wire) × (there : ReplyTo) × (reply : Reply) × (result ≡ ok wire)
    × (deserialize true wire ≡ ok there)
    × ((Replies.send is_open one_byte there 7 hosting).1.acts
        ≡ hosting.acts ++ routed (sent asking.node.local (Message.reply reply)) ∷ [])
    × ((deliver_reply waits.node reply).0 ≡ some (4, 7 ∷ []))
send-serialize_example =
    send-serialize is_open one_byte asking hosting 4 7 (7 ∷ []) asker-IsWaiting host_elsewhere refl

abbrev pair : InProcessNetwork
pair = (attach (attach empty_network 1).1 2).1

-- Two frames on a connection that node 3 dials, by an encoding of requests alone.
abbrev coded : Frame → Bytes
coded (Frame.message m) = []
coded (Frame.request id payload) = id ∷ payload
coded (Frame.response id payload) = []

abbrev decoded : Bytes → Option Frame
decoded [] = none
decoded (id ∷ payload) = some (Frame.request id payload)

abbrev asks : List Frame
asks = Frame.request 0 (8 ∷ []) ∷ Frame.request 1 [] ∷ []

abbrev asks_stream : Bytes
asks_stream = (0 ∷ 0 ∷ 0 ∷ 49 ∷ greeting) ++ (0 ∷ 0 ∷ 0 ∷ 2 ∷ 0 ∷ 8 ∷ 0 ∷ 0 ∷ 0 ∷ 1 ∷ 1 ∷ [])

asks_fit : All (λ f. length (coded f) ≤ max_frame) asks
asks_fit = (omega arith, (omega arith, tt))

asks_wrote : write_frames (hello short_hash short 3 5 ∷ map coded asks) ≡ ok asks_stream
unfolding hello write_frame u32_to_be_bytes
asks_wrote = refl

serve-sent_example : serve decoded always short_hash short asks_stream ≡ record {
  outcome = err unexpected_eof;
  written = 0 ∷ 0 ∷ 0 ∷ 1 ∷ 1 ∷ [];
  accepted = record { messages = []; requests = (0, 8 ∷ []) ∷ (1, []) ∷ [] };
}
serve-sent_example =
    serve-sent short_hash coded decoded (λ text. refl) short 3 5 (omega arith) (omega arith) asks
      asks_stream (refl, (refl, tt)) asks_fit asks_wrote

-- The same connection beside one that is no peer's, with an accept that fails in between.
abbrev events : List Event
events =
    accepts asks_stream
    ∷ failed
    ∷ accepts (1 ∷ [])
    ∷ turns 0
    ∷ turns 1
    ∷ turns 0
    ∷ turns 0
    ∷ turns 1
    ∷ turns 0
    ∷ []

abbrev done : Conn
done = record { stream = asks_stream; unread = []; phase = closed }

abbrev heard : Listener
heard = listen short_hash short decoded listening events

heard_done : get heard.conns 0 ≡ some done
unfolding listen hello write_frame u32_to_be_bytes get insert
heard_done = refl

listen-serve_example :
    (heard.accepted ≡ handed nothing (frames_of heard.log))
    × ((rest : List Frame) × ((serve decoded always short_hash short asks_stream).accepted
          ≡ handed nothing (frames_from 0 heard.log ++ rest))
        × (closed ≡ closed → rest ≡ []))
listen-serve_example = listen-serve short_hash short decoded events 0 done heard_done
