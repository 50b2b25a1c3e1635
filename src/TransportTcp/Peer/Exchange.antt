-- ===== src/TransportTcp/Peer/Exchange.antt =====
-- Both ends of one connection of src/transport_tcp.rs: calls on the dialling side, the loop of `serve` and
-- the tasks that answer on the other, and `read_replies`, in any interleaving. Frames travel in order
-- each way. That a frame's bytes are read as the frame that was written is left to the encoding.
use horsie_actor.Base.{
  ℕ, ◌+◌, ◌≤◌, ◌<◌, ◌≡◌, Bool, Option, none, some, List, [], ◌∷◌, ◌++◌, Bytes, nat_eq, u64_mod, All,
}
use horsie_actor.Map.{Map, get, insert}
use horsie_actor.Delivery.{Message}
use horsie_actor.TransportTcp.Peer.{
  Frame, Peer, new_peer, begin_rpc, fail_rpc, stop_reading, reply_frame, while_reading, Accepted,
  serve_frame, response_frame,
}

-- `sent` and `back` are the frames on their way, `asked` the caller and payload of every id.
pub record Connection : Type 0 where
  pub peer : Peer
  pub sent : List Frame
  pub far : Accepted
  pub back : List Frame
  pub asked : Map ℕ (ℕ × Bytes)

abbrev pub fresh_connection : Connection
fresh_connection = record {
  peer = new_peer;
  sent = [];
  far = record { messages = []; requests = [] };
  back = [];
  asked = [];
}

abbrev pub send_request : Connection → ℕ → Bytes → Connection
send_request x caller payload = record x {
  peer = (begin_rpc x.peer caller).1;
  sent = x.sent ++ Frame.request (begin_rpc x.peer caller).0 payload ∷ [];
  asked = insert x.asked (begin_rpc x.peer caller).0 (caller, payload);
}

abbrev pub finish_job : Connection → List (ℕ × Bytes) → ℕ × Bytes → Option Bytes → Connection
finish_job x others job answer = record x {
  far = record { messages = x.far.messages; requests = others };
  back = x.back ++ response_frame job answer ∷ [];
}

-- The connections that are reached where `Answer payload answer` is what the node's handler may make of a
-- request: the answer, or none where it drops the responder. No id is given out twice.
pub data Reach (Answer : Bytes → Option Bytes → Type 0) : Connection → Type 0 where
  opens : Reach Answer fresh_connection
  asks :
      {x : Connection}
      → Reach Answer x
      → (caller : ℕ) (payload : Bytes) → x.peer.next_request + 1 < u64_mod
      → Reach Answer (send_request x caller payload)
  tells :
      {x : Connection}
      → Reach Answer x
      → (m : Message) → Reach Answer (record x { sent = x.sent ++ Frame.message m ∷ [] })
  fails :
      {x : Connection}
      → Reach Answer x
      → (id : ℕ) → Reach Answer (record x { peer = fail_rpc x.peer id })
  serves :
      {x : Connection}
      → Reach Answer x
      → (inbox rpc_inbox : Bool) (frame : Frame) (rest : List Frame) (far : Accepted)
      → x.sent ≡ frame ∷ rest
      → serve_frame inbox rpc_inbox x.far frame ≡ some far
      → Reach Answer (record x { sent = rest; far = far })
  finishes :
      {x : Connection}
      → Reach Answer x
      → (before after : List (ℕ × Bytes)) (job : ℕ × Bytes) (answer : Option Bytes)
      → x.far.requests ≡ before ++ job ∷ after
      → Answer job.1 answer
      → Reach Answer (finish_job x (before ++ after) job answer)
  reads :
      {x : Connection}
      → Reach Answer x
      → (frame : Frame) (rest : List Frame) → x.back ≡ frame ∷ rest
      → Reach Answer
          (record x { peer = while_reading (λ p. reply_frame p (some frame)) x.peer; back = rest })
  closes :
      {x : Connection}
      → Reach Answer x
      → Reach Answer (record x { peer = while_reading stop_reading x.peer })

module _ (Answer : Bytes → Option Bytes → Type 0) where
  abbrev pub Asked : Map ℕ (ℕ × Bytes) → ℕ → Bytes → Type 0
  Asked asked id payload = (caller : ℕ) × (get asked id ≡ some (caller, payload))

  abbrev pub Sent : Map ℕ (ℕ × Bytes) → Frame → Type 0
  Sent asked (Frame.message _) = Unit {0}
  Sent asked (Frame.request id payload) = Asked asked id payload
  Sent asked (Frame.response _ _) = Unit {0}

  abbrev pub Back : Map ℕ (ℕ × Bytes) → Frame → Type 0
  Back asked (Frame.message _) = Unit {0}
  Back asked (Frame.request _ _) = Unit {0}
  Back asked (Frame.response id answer) =
      (payload : Bytes) × Asked asked id payload × Answer payload answer

  -- What a caller got is an answer to what it asked.
  abbrev pub Owned : Map ℕ (ℕ × Bytes) → ℕ × Option Bytes → Type 0
  Owned asked (caller, none) = Unit {0}
  Owned asked (caller, some bytes) =
      (id : ℕ) × (payload : Bytes) × (get asked id ≡ some (caller, payload))
      × Answer payload (some bytes)

  abbrev pub Waiting : Map ℕ (ℕ × Bytes) → ℕ × ℕ → Type 0
  Waiting asked e = (payload : Bytes) × (get asked e.0 ≡ some (e.1, payload))

  -- The dialling side, by what was asked over it.
  pub record IsOwn (asked : Map ℕ (ℕ × Bytes)) (p : Peer) : Type 0 where
    pub unasked : (id : ℕ) → p.next_request ≤ id → get asked id ≡ none
    pub waiting : All (Waiting asked) p.pending
    pub given : All (Owned asked) p.ended

  pub record IsFaithful (x : Connection) : Type 0 where
    pub near : IsOwn x.asked x.peer
    pub on_the_way : All (Sent x.asked) x.sent
    pub served : All (λ job. Asked x.asked job.0 job.1) x.far.requests
    pub on_the_way_back : All (Back x.asked) x.back
