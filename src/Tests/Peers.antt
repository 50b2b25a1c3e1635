-- ===== src/Tests/Peers.antt =====
-- The theorems on the connections of src/transport_tcp.rs for a few calls.
use horsie_actor.Base.{
  ℕ, ◌+◌, ◌≡◌, refl, true, false, Option, some, List, [], ◌∷◌, Bytes, arith, nat_eq,
}
use horsie_actor.Map.{get}
use horsie_actor.TransportTcp.Peer.{
  Frame, Peer, Accepted, new_peer, begin_rpc, reply_frame, serve_frame,
}
use horsie_actor.TransportTcp.Peer.Accounts.{
  Event, calls, arrives, closes, step, run, made, waits, ends, calls-accounted,
}
use horsie_actor.TransportTcp.Peer.Orphans.{late-call-waits}
use horsie_actor.TransportTcp.Peer.Exchange.{
  Connection, fresh_connection, send_request, finish_job, Reach, opens, asks, serves, finishes,
  reads,
}
use horsie_actor.TransportTcp.Peer.Ownership.{answered-own}

abbrev answer : Frame
answer = Frame.response 0 (some (9 ∷ []))

-- Two calls of one caller, the first of which is answered.
abbrev events : List Event
events = calls 4 ∷ arrives (some answer) ∷ calls 4 ∷ []

calls-accounted_example :
    (waits 4 (run new_peer events).pending + ends 4 (run new_peer events).ended ≡ made 4 events)
    × ((run new_peer events).reading ≡ true
        → ((step (run new_peer events) closes).pending ≡ [])
          × (ends 4 (step (run new_peer events) closes).ended ≡ made 4 events))
calls-accounted_example = calls-accounted 4 events

abbrev closed : Peer
closed = record { pending = []; next_request = 0; reading = false; ended = [] }

late-call-waits_example :
    get
      (run (begin_rpc closed 4).1 (arrives (some answer) ∷ closes ∷ [])).pending
      (begin_rpc closed 4).0
    ≡ some 4
late-call-waits_example =
    late-call-waits 4 closed (arrives (some answer) ∷ closes ∷ []) refl (omega arith) tt

-- A node that answers with what it was asked.
abbrev Echo : Bytes → Option Bytes → Type 0
Echo payload answer = answer ≡ some payload

abbrev word : Bytes
word = 1 ∷ []

abbrev echoed : Connection
echoed = record {
  peer = record { pending = []; next_request = 1; reading = true; ended = (4, some word) ∷ [] };
  sent = [];
  far = record { messages = []; requests = [] };
  back = [];
  asked = (0, (4, word)) ∷ [];
}

echoed-Reach : Reach Echo echoed
unfolding begin_rpc serve_frame reply_frame
echoed-Reach =
    let one : Connection = send_request fresh_connection 4 word in
    let asked : Reach Echo one = asks opens 4 word (omega arith) in
    let far : Accepted = record { messages = []; requests = (0, word) ∷ [] } in
    let two : Connection = record one { sent = []; far = far } in
    let served : Reach Echo two = serves asked true true (Frame.request 0 word) [] far refl refl in
    let three : Connection = finish_job two [] (0, word) (some word) in
    let answered : Reach Echo three = finishes served [] [] (0, word) (some word) refl refl in
    reads answered (Frame.response 0 (some word)) [] refl

answered-own_example :
    (id : ℕ) × (payload : Bytes) × (get echoed.asked id ≡ some (4, payload))
    × Echo payload (some word)
answered-own_example = answered-own Echo echoed 4 word [] [] echoed-Reach refl
