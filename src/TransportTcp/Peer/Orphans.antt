-- ===== src/TransportTcp/Peer/Orphans.antt =====
-- A call on a connection of src/transport_tcp.rs whose replies are read no more.
use horsie_actor.Base.{
  ℕ, ◌+◌, ◌<◌, ◌≡◌, ◌≢◌, refl, true, false, some, List, [], ◌∷◌, nat_eq, u64_mod, arith, length,
  ==_iff, ==_refl, if_both, sym, ap, ◌∙◌,
}
use horsie_actor.Map.{get, get-remove, get-insert}
use horsie_actor.TransportTcp.Peer.{
  Peer, begin_rpc, fail_rpc, stop_reading, reply_frame, while_reading,
}
use horsie_actor.TransportTcp.Peer.Accounts.{Event, calls, fails, arrives, closes, step, run}

-- The writing of the request `id` does not fail.
abbrev pub Written : ℕ → List Event → Type 0
Written id [] = Unit {0}
Written id (calls _ ∷ es) = Written id es
Written id (fails j ∷ es) = (j ≢ id) × Written id es
Written id (arrives _ ∷ es) = Written id es
Written id (closes ∷ es) = Written id es

-- The caller is in the table, and nobody reads.
record IsOrphaned (id w : ℕ) (p : Peer) : Type 0 where
  found : get p.pending id ≡ some w
  ended_reading : p.reading ≡ false
  older : id < p.next_request

unread : (p : Peer) (f : Peer → Peer) → p.reading ≡ false → while_reading f p ≡ p
unread p f stopped =
    if_both (λ q. q ≡ p) p.reading (λ reads. let x : true ≡ false = sym reads ∙ stopped in cc)
      (λ _. refl)

orphan-waits :
    (id w : ℕ) (p : Peer) (es : List Event)
    → IsOrphaned id w p
    → p.next_request + length es < u64_mod
    → Written id es
    → get (run p es).pending id ≡ some w
unfolding run step begin_rpc fail_rpc
orphan-waits id w p [] o room unfailed = o.found
orphan-waits id w p (calls v ∷ es) o room unfailed =
    orphan-waits id w (step p (calls v)) es
      (record {
        found =
            rw (get-insert p.pending p.next_request id v)
              (ground (arith, o.found, o.older, ==_iff p.next_request id));
        ended_reading = o.ended_reading;
        older = omega (arith, o.older, room);
      })
      (omega (arith, room)) unfailed
orphan-waits id w p (fails j ∷ es) o room unfailed =
    orphan-waits id w (step p (fails j)) es
      (record {
        found = rw (get-remove p.pending j id) (ground (arith, o.found, unfailed.0, ==_iff j id));
        ended_reading = o.ended_reading;
        older = o.older;
      })
      (omega (arith, room)) unfailed.1
orphan-waits id w p (arrives f ∷ es) o room unfailed =
    let same =
      ap (λ q. get (run q es).pending id) (unread p (λ q. reply_frame q f) o.ended_reading) in
    same ∙ orphan-waits id w p es o (omega (arith, room)) unfailed
orphan-waits id w p (closes ∷ es) o room unfailed =
    let same = ap (λ q. get (run q es).pending id) (unread p stop_reading o.ended_reading) in
    same ∙ orphan-waits id w p es o (omega (arith, room)) unfailed

-- A caller whose request is written without failure after the reading of replies ended is never answered
-- and never failed: it stays in the table, whatever arrives and however the connection closes, for as
-- long as fewer ids are given out than there are.
pub late-call-waits :
    (w : ℕ) (p : Peer) (es : List Event)
    → p.reading ≡ false
    → p.next_request + 1 + length es < u64_mod
    → Written (begin_rpc p w).0 es
    → get (run (begin_rpc p w).1 es).pending (begin_rpc p w).0 ≡ some w
unfolding begin_rpc
late-call-waits w p es stopped room unfailed =
    orphan-waits p.next_request w (begin_rpc p w).1 es
      (record {
        found =
            rw (get-insert p.pending p.next_request p.next_request w, ==_refl p.next_request) refl;
        ended_reading = stopped;
        older = omega (arith, room);
      })
      (omega (arith, room)) unfailed
