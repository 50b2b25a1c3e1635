-- ===== src/TransportTcp/Connections/Cache.antt =====
-- Which connections the transport of src/transport_tcp.rs keeps.
use horsie_actor.Base.{
  ℕ, Text, ◌≡◌, refl, false, none, some, Bytes, Result, ok, err, nat_eq, ◌==◌, ==_refl,
  Option-cases, Result-cases, Bool-cases, inl, inr, sym, ◌∙◌,
}
use horsie_actor.Map.{get, get-insert, get-remove, get-insert_self}
use horsie_actor.Delivery.{Message}
use horsie_actor.Node.Sending.{TransportError}
use horsie_actor.TransportTcp.Peer.{Frame, begin_rpc, fail_rpc}
use horsie_actor.TransportTcp.Connections.{
  Sockets, TcpTransport, dialled, drop_peer, connection, set_connection, dial, peer, send_on, send,
  rpc_on, start_rpc, settle,
}

-- The connections kept to other members are those that were.
abbrev pub SameOthers : TcpTransport → TcpTransport → ℕ → Type 0
SameOthers t t' to =
    (other : ℕ) → (to == other) ≡ false → get t'.outbound other ≡ get t.outbound other

abbrev pub IsDropped : TcpTransport → ℕ → TcpTransport → Type 0
IsDropped t to t' = SameOthers t t' to × (get t'.outbound to ≡ none)

-- A connection to a member is kept, the one that was kept before if there was any.
abbrev pub IsKept : TcpTransport → ℕ → ℕ → TcpTransport → Type 0
IsKept t to c t' =
    SameOthers t t' to
    × (get t'.outbound to ≡ some c)
    × ((old : ℕ) → get t.outbound to ≡ some old → old ≡ c)

-- After a use of the connection to a member: none is kept after an error, else one is.
abbrev pub Used {ℓ} :
    {A : Type ℓ} → TcpTransport → ℕ → Result TransportError A → TcpTransport → Type 0
Used t to (err e) t' = IsDropped t to t'
Used t to (ok a) t' = (c : ℕ) × IsKept t to c t'

abbrev pub Found : TcpTransport → ℕ → Result TransportError ℕ → TcpTransport → Type 0
Found t to (err e) t' = IsDropped t to t'
Found t to (ok c) t' = IsKept t to c t'

drop_peer-IsDropped :
    (t t' : TcpTransport) (to : ℕ) → SameOthers t t' to → IsDropped t to (drop_peer t' to)
unfolding drop_peer
drop_peer-IsDropped t t' to same = (
  λ other h. rw (get-remove t'.outbound to other, h) (same other h),
  rw (get-remove t'.outbound to to, ==_refl to) refl,
)

dialled-IsKept :
    (t : TcpTransport) (to : ℕ) → get t.outbound to ≡ none → IsKept t to t.next (dialled t to)
dialled-IsKept t to missing = (
  λ other h. rw (get-insert t.outbound to other t.next, h) refl,
  get-insert_self t.outbound to t.next,
  λ old h. let x : none ≡ some old = sym missing ∙ h in cc,
)

module _ {W : Type 0} (sockets : Sockets W) (t : TcpTransport) (to addr : ℕ) (w : W) where
  dial-Found :
      get t.outbound to ≡ none
      → Found t to (dial sockets t to addr w).0 (dial sockets t to addr w).1
  unfolding dial
  dial-Found missing = elim (Bool-cases (sockets.connect w addr).0) [
    | inr refused ↦ rw refused (λ other h. refl, missing)
    | inl connected ↦ elim (Result-cases (sockets.handshake_out (sockets.connect w addr).1).0) [
      | inr (e, unproved) ↦ rw (connected, unproved) (λ other h. refl, missing)
      | inl (_, proved) ↦ rw (connected, proved) (dialled-IsKept t to missing)
    ]
  ]

  peer-Found :
      get t.peers to ≡ some addr → Found t to (peer sockets t to w).0 (peer sockets t to w).1
  unfolding peer
  peer-Found known = elim (Option-cases (get t.outbound to)) [
    | inl missing ↦ rw (known, peer, missing) (dial-Found missing)
    | inr (c, cached) ↦
        let one = λ (old : ℕ) (h : get t.outbound to ≡ some old).
          let x : some old ≡ some c = sym h ∙ cached in let y : old ≡ c = cc in y in
        rw (known, peer, cached) (λ other h. refl, cached, one)
  ]

  settle-Used {ℓ} :
      {A : Type ℓ} (a : A) (kept failed : TcpTransport) (c : ℕ)
      → IsKept t to c kept
      → SameOthers t failed to
      → (written : Result Text (Unit {0}) × W)
      → Used t to (settle kept to a failed written).0 (settle kept to a failed written).1
  unfolding settle
  settle-Used a kept failed c k others (ok _, w') = (c, k)
  settle-Used a kept failed c k others (err e, w') = drop_peer-IsDropped t failed to others

  send_on-Used :
      (message : Message) (r : Result TransportError ℕ × TcpTransport × W)
      → Found t to r.0 r.1
      → Used t to (send_on sockets to message r).0 (send_on sockets to message r).1
  unfolding send_on
  send_on-Used message (err e, t', w') found = found
  send_on-Used message (ok c, t', w') found =
      settle-Used tt t' t' c found found.0 (sockets.write w' c (Frame.message message))

  rpc_on-Used :
      (caller : ℕ) (payload : Bytes) (r : Result TransportError ℕ × TcpTransport × W)
      → Found t to r.0 r.1
      → Used t to (rpc_on sockets to caller payload r).0 (rpc_on sockets to caller payload r).1
  unfolding rpc_on
  rpc_on-Used caller payload (err e, t', w') found = found
  rpc_on-Used caller payload (ok c, t', w') found =
      let (id, waiting) = begin_rpc (connection t' c) caller in
      settle-Used (c, id) (set_connection t' c waiting) (set_connection t' c (fail_rpc waiting id))
        c found found.0 (sockets.write w' c (Frame.request id payload))

  -- A message or a request to a member whose address is known leaves no connection to it behind if it
  -- fails, for whatever reason, so that the next one dials; if it is written, the connection is kept, and it
  -- is the one that was kept before if there was one. The connections to other members stay.
  pub connection-kept :
      (message : Message) (caller : ℕ) (payload : Bytes)
      → get t.peers to ≡ some addr
      → Used t to (send sockets t to message w).0 (send sockets t to message w).1
        × Used t to
            (start_rpc sockets t to caller payload w).0
            (start_rpc sockets t to caller payload w).1
  unfolding send start_rpc
  connection-kept message caller payload known = (
    send_on-Used message (peer sockets t to w) (peer-Found known),
    rpc_on-Used caller payload (peer sockets t to w) (peer-Found known),
  )
