-- ===== src/TransportTcp/Peer/Ownership.antt =====
-- Who gets which answer on a connection of src/transport_tcp.rs.
use horsie_actor.Base.{
  ℕ, ◌+◌, ◌<◌, ◌≡◌, refl, sym, ap, ◌∙◌, Bool, true, false, Option, none, some, List, [], ◌∷◌, ◌++◌,
  Bytes, nat_eq, u64_mod, arith, All, All-append, All-map, All-split, ==_iff, if_both,
}
use horsie_actor.Map.{Map, get, insert, get-insert, get-insert_self, All-remove, All-get}
use horsie_actor.TransportTcp.Peer.{
  Frame, Peer, answered, begin_rpc, fail_rpc, stop_reading, reply_frame, Accepted, serve_frame,
  response_frame,
}
use horsie_actor.TransportTcp.Peer.Exchange.{
  Connection, Reach, Asked, Sent, Back, Owned, Waiting, IsOwn, IsFaithful, opens, asks, tells,
  fails, serves, finishes, reads, closes,
}
use horsie_actor.TransportTcp.Peer.Kept.{
  Asked-kept, Sent-kept, Back-kept, Waiting-kept, Owned-kept, Owned-dropped, Owned-cleared,
}

module _ (Answer : Bytes → Option Bytes → Type 0) where
  stop_reading-IsOwn :
      (asked : Map ℕ (ℕ × Bytes)) (p : Peer)
      → IsOwn Answer asked p
      → IsOwn Answer asked (stop_reading p)
  unfolding stop_reading
  stop_reading-IsOwn asked p own = record {
    unasked = own.unasked;
    waiting = tt;
    given = Owned-cleared Answer asked p.pending p.ended own.given;
  }

  fail_rpc-IsOwn :
      (asked : Map ℕ (ℕ × Bytes)) (p : Peer) (id : ℕ)
      → IsOwn Answer asked p
      → IsOwn Answer asked (fail_rpc p id)
  unfolding fail_rpc
  fail_rpc-IsOwn asked p id own = record {
    unasked = own.unasked;
    waiting = All-remove (Waiting Answer asked) p.pending id own.waiting;
    given = Owned-dropped Answer asked (get p.pending id) p.ended own.given;
  }

  -- The caller in the table under an answer's id is the one that asked, with the payload that was answered.
  Owned-answered :
      (asked : Map ℕ (ℕ × Bytes)) (id : ℕ) (answer : Option Bytes) (waiting : Option ℕ)
      (ended : List (ℕ × Option Bytes))
      → Back Answer asked (Frame.response id answer)
      → ((w : ℕ) → waiting ≡ some w → Waiting Answer asked (id, w))
      → All (Owned Answer asked) ended
      → All (Owned Answer asked) (answered waiting answer ended)
  Owned-answered asked id answer none ended back waits h = h
  Owned-answered asked id none (some w) ended back waits h = (tt, h)
  Owned-answered asked id (some bytes) (some w) ended (p, (caller, on_record), right) waits h =
      let (q, mine) = waits w refl in
      let theirs : Option (ℕ × Bytes) = some (w, q) in
      let same : some (caller, p) ≡ theirs = sym on_record ∙ mine in
      let who : caller ≡ w = cc in ((id, p, on_record ∙ ap (λ c. some (c, p)) who, right), h)

  reply_frame-IsOwn :
      (asked : Map ℕ (ℕ × Bytes)) (p : Peer) (f : Frame)
      → Back Answer asked f
      → IsOwn Answer asked p
      → IsOwn Answer asked (reply_frame p (some f))
  unfolding reply_frame
  reply_frame-IsOwn asked p (Frame.message _) back own = own
  reply_frame-IsOwn asked p (Frame.request _ _) back own = own
  reply_frame-IsOwn asked p (Frame.response id answer) back own = record {
    unasked = own.unasked;
    waiting = All-remove (Waiting Answer asked) p.pending id own.waiting;
    given =
        Owned-answered asked id answer (get p.pending id) p.ended back
          (λ w h. All-get (Waiting Answer asked) p.pending id w own.waiting h) own.given;
  }

  begin_rpc-IsOwn :
      (asked : Map ℕ (ℕ × Bytes)) (p : Peer) (caller : ℕ) (payload : Bytes)
      → p.next_request + 1 < u64_mod
      → IsOwn Answer asked p
      → IsOwn Answer (insert asked p.next_request (caller, payload)) (begin_rpc p caller).1
  unfolding begin_rpc
  begin_rpc-IsOwn asked p caller payload room own =
      let id = p.next_request in
      let e : ℕ × Bytes = (caller, payload) in
      let fresh : get asked id ≡ none = own.unasked id (omega arith) in
      record {
        unasked = λ j later.
            rw (get-insert asked id j e) (ground (arith, later, room, own.unasked j, ==_iff id j));
        waiting = (
          (payload, get-insert_self asked id e),
          All-remove (Waiting Answer (insert asked id e)) p.pending id
              (All-map p.pending (Waiting-kept Answer asked id e fresh) own.waiting),
        );
        given =
            Owned-dropped Answer (insert asked id e) (get p.pending id) p.ended
              (All-map p.ended (Owned-kept Answer asked id e fresh) own.given);
      }

  requests_of : Option Accepted → List (ℕ × Bytes)
  requests_of none = []
  requests_of (some s) = s.requests

  serve_frame-Asked :
      (asked : Map ℕ (ℕ × Bytes)) (inbox rpc_inbox : Bool) (s far : Accepted) (f : Frame)
      → serve_frame inbox rpc_inbox s f ≡ some far
      → Sent Answer asked f
      → All (λ job. Asked Answer asked job.0 job.1) s.requests
      → All (λ job. Asked Answer asked job.0 job.1) far.requests
  unfolding serve_frame requests_of
  serve_frame-Asked asked true rpc_inbox s far (Frame.message m) e sent h =
      rw (sym (ap requests_of e)) h
  serve_frame-Asked asked false rpc_inbox s far (Frame.message m) e sent h = cc
  serve_frame-Asked asked inbox true s far (Frame.request id p) e sent h =
      rw (sym (ap requests_of e))
        (All-append (λ job. Asked Answer asked job.0 job.1) s.requests ((id, p) ∷ []) h (sent, tt))
  serve_frame-Asked asked inbox false s far (Frame.request id p) e sent h = cc
  serve_frame-Asked asked inbox rpc_inbox s far (Frame.response _ _) e sent h =
      rw (sym (ap requests_of e)) h

  Reach-IsFaithful : (x : Connection) → Reach Answer x → IsFaithful Answer x
  unfolding get begin_rpc
  Reach-IsFaithful _ opens = record {
    near = record { unasked = λ id h. refl; waiting = tt; given = tt };
    on_the_way = tt;
    served = tt;
    on_the_way_back = tt;
  }
  Reach-IsFaithful _ (asks {x} r caller payload room) =
      let ok_x = Reach-IsFaithful x r in
      let id = (begin_rpc x.peer caller).0 in
      let e : ℕ × Bytes = (caller, payload) in
      let fresh : get x.asked id ≡ none = ok_x.near.unasked id (omega arith) in
      record {
        near = begin_rpc-IsOwn x.asked x.peer caller payload room ok_x.near;
        on_the_way =
            All-append (Sent Answer (insert x.asked id e)) x.sent (Frame.request id payload ∷ [])
              (All-map x.sent (Sent-kept Answer x.asked id e fresh) ok_x.on_the_way)
              ((caller, get-insert_self x.asked id e), tt);
        served =
            All-map x.far.requests (λ job. Asked-kept Answer x.asked id e fresh job.0 job.1)
              ok_x.served;
        on_the_way_back = All-map x.back (Back-kept Answer x.asked id e fresh) ok_x.on_the_way_back;
      }
  Reach-IsFaithful _ (tells {x} r m) =
      let ok_x = Reach-IsFaithful x r in
      record {
        on_the_way =
            All-append (Sent Answer x.asked) x.sent (Frame.message m ∷ []) ok_x.on_the_way (tt, tt);
        near = ok_x.near;
        served = ok_x.served;
        on_the_way_back = ok_x.on_the_way_back;
      }
  Reach-IsFaithful _ (fails {x} r id) =
      let ok_x = Reach-IsFaithful x r in
      record {
        near = fail_rpc-IsOwn x.asked x.peer id ok_x.near;
        on_the_way = ok_x.on_the_way;
        served = ok_x.served;
        on_the_way_back = ok_x.on_the_way_back;
      }
  Reach-IsFaithful _ (serves {x} r inbox rpc_inbox frame rest far e served) =
      let ok_x = Reach-IsFaithful x r in
      let sent : All (Sent Answer x.asked) (frame ∷ rest) = rw e at ok_x.on_the_way in
      record {
        on_the_way = sent.1;
        served =
            serve_frame-Asked x.asked inbox rpc_inbox x.far far frame served sent.0 ok_x.served;
        near = ok_x.near;
        on_the_way_back = ok_x.on_the_way_back;
      }
  Reach-IsFaithful _ (finishes {x} r before after job answer e right) =
      let ok_x = Reach-IsFaithful x r in
      let (here, others) =
        All-split (λ j. Asked Answer x.asked j.0 j.1) before after job (rw e at ok_x.served) in
      record {
        served = others;
        on_the_way_back =
            All-append (Back Answer x.asked) x.back (response_frame job answer ∷ [])
              ok_x.on_the_way_back ((job.1, here, right), tt);
        near = ok_x.near;
        on_the_way = ok_x.on_the_way;
      }
  Reach-IsFaithful _ (reads {x} r frame rest e) =
      let ok_x = Reach-IsFaithful x r in
      let back : All (Back Answer x.asked) (frame ∷ rest) = rw e at ok_x.on_the_way_back in
      record {
        near =
            if_both (IsOwn Answer x.asked) x.peer.reading
              (λ _. reply_frame-IsOwn x.asked x.peer frame back.0 ok_x.near) (λ _. ok_x.near);
        on_the_way_back = back.1;
        on_the_way = ok_x.on_the_way;
        served = ok_x.served;
      }
  Reach-IsFaithful _ (closes {x} r) =
      let ok_x = Reach-IsFaithful x r in
      record {
        near =
            if_both (IsOwn Answer x.asked) x.peer.reading
              (λ _. stop_reading-IsOwn x.asked x.peer ok_x.near) (λ _. ok_x.near);
        on_the_way = ok_x.on_the_way;
        served = ok_x.served;
        on_the_way_back = ok_x.on_the_way_back;
      }

  -- On a connection where no id is given out twice, bytes that a caller got are an answer of the node at the
  -- other end to a request that this very caller made, in whatever order the requests were answered.
  pub answered-own :
      (x : Connection) (caller : ℕ) (bytes : Bytes) (after before : List (ℕ × Option Bytes))
      → Reach Answer x
      → x.peer.ended ≡ after ++ (caller, some bytes) ∷ before
      → (id : ℕ) × (payload : Bytes) × (get x.asked id ≡ some (caller, payload))
        × Answer payload (some bytes)
  answered-own x caller bytes after before r e =
      let given = (Reach-IsFaithful x r).near.given in
      (All-split (Owned Answer x.asked) after before (caller, some bytes) (rw e at given)).0
