-- ===== src/TransportTcp/Peer/Kept.antt =====
-- What stays true of a connection of src/transport_tcp.rs as more is asked on it.
use horsie_actor.Base.{
  ℕ, ◌≡◌, Option, none, some, List, [], ◌∷◌, ◌++◌, Bytes, nat_eq, arith, All, ==_iff, map,
}
use horsie_actor.Map.{Map, get, insert, get-insert}
use horsie_actor.TransportTcp.Peer.{Frame, dropped}
use horsie_actor.TransportTcp.Peer.Exchange.{Asked, Sent, Back, Owned, Waiting}

module _ (Answer : Bytes → Option Bytes → Type 0) where
  -- What was asked stays on record.
  module _ (asked : Map ℕ (ℕ × Bytes)) (id : ℕ) (e : ℕ × Bytes) (fresh : get asked id ≡ none) where
    pub kept : (j : ℕ) (v : ℕ × Bytes) → get asked j ≡ some v → get (insert asked id e) j ≡ some v
    kept j v h = rw (get-insert asked id j e) (ground (arith, fresh, h, ==_iff id j))

    pub Asked-kept :
        (j : ℕ) (p : Bytes) → Asked Answer asked j p → Asked Answer (insert asked id e) j p
    Asked-kept j p (caller, h) = (caller, kept j (caller, p) h)

    pub Sent-kept : (f : Frame) → Sent Answer asked f → Sent Answer (insert asked id e) f
    Sent-kept (Frame.message _) h = h
    Sent-kept (Frame.request j p) h = Asked-kept j p h
    Sent-kept (Frame.response _ _) h = h

    pub Back-kept : (f : Frame) → Back Answer asked f → Back Answer (insert asked id e) f
    Back-kept (Frame.message _) h = h
    Back-kept (Frame.request _ _) h = h
    Back-kept (Frame.response j answer) (p, given, right) = (p, Asked-kept j p given, right)

    pub Waiting-kept : (w : ℕ × ℕ) → Waiting Answer asked w → Waiting Answer (insert asked id e) w
    Waiting-kept w (p, h) = (p, kept w.0 (w.1, p) h)

    pub Owned-kept :
        (o : ℕ × Option Bytes) → Owned Answer asked o → Owned Answer (insert asked id e) o
    Owned-kept (caller, none) h = h
    Owned-kept (caller, some bytes) (j, p, h, right) = (j, p, kept j (caller, p) h, right)

  pub Owned-dropped :
      (asked : Map ℕ (ℕ × Bytes)) (waiting : Option ℕ) (ended : List (ℕ × Option Bytes))
      → All (Owned Answer asked) ended
      → All (Owned Answer asked) (dropped waiting ended)
  Owned-dropped asked none ended h = h
  Owned-dropped asked (some w) ended h = (tt, h)

  pub Owned-cleared :
      (asked : Map ℕ (ℕ × Bytes)) (pending : Map ℕ ℕ) (ended : List (ℕ × Option Bytes))
      → All (Owned Answer asked) ended
      → All (Owned Answer asked) (map (λ w. (w.1, none)) pending ++ ended)
  Owned-cleared asked [] ended h = h
  Owned-cleared asked (w ∷ pending) ended h = (tt, Owned-cleared asked pending ended h)
