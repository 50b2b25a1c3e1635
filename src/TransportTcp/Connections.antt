-- ===== src/TransportTcp/Connections.antt =====
-- `TcpTransport` of src/transport_tcp.rs: the connections to other members, dialled when one is needed and
-- kept. A connection is known by a number, in the order of dialling; sockets and the handshake are a
-- parameter, whose answers may be anything.
pub mod Cache
use horsie_actor.Base.{
  ℕ, ◌+◌, Bool, true, false, Option, none, some, List, [], ◌∷◌, Text, Bytes, Result, ok, err, ok_or,
  nat_eq, if◌then◌else◌,
}
use horsie_actor.Map.{Map, get, insert, remove}
use horsie_actor.Delivery.{Message}
use horsie_actor.Node.Sending.{TransportError, unreachable, io}
use horsie_actor.InProcess.{did_not_answer}
use horsie_actor.TransportTcp.Peer.{Frame, Peer, new_peer, begin_rpc, fail_rpc}

-- What a socket does: connect to an address, the handshake on the connection, and write a frame, encoded.
pub record Sockets (W : Type 0) : Type 0 where
  pub connect : W → ℕ → Bool × W
  pub handshake_out : W → Result Text (Unit {0}) × W
  pub write : W → ℕ → Frame → Result Text (Unit {0}) × W

pub record TcpTransport : Type 0 where
  pub local : ℕ
  pub peers : Map ℕ ℕ
  pub outbound : Map ℕ ℕ
  pub connections : Map ℕ Peer
  pub next : ℕ

-- The transport that `bind` returns, once the address is bound.
abbrev pub bound : ℕ → Map ℕ ℕ → TcpTransport
bound local peers = record {
  local = local;
  peers = peers;
  outbound = [];
  connections = [];
  next = 0;
}

abbrev pub dialled : TcpTransport → ℕ → TcpTransport
dialled t to = record t {
  outbound = insert t.outbound to t.next;
  connections = insert t.connections t.next new_peer;
  next = t.next + 1;
}

unfoldable pub drop_peer : TcpTransport → ℕ → TcpTransport
unfolding remove
drop_peer t to = record t { outbound = remove t.outbound to }

abbrev pub connection : TcpTransport → ℕ → Peer
connection t c = elim (get t.connections c) [ none ↦ new_peer | some p ↦ p ]

abbrev pub set_connection : TcpTransport → ℕ → Peer → TcpTransport
set_connection t c p = record t { connections = insert t.connections c p }

-- What a write comes to: the value, or the error and no connection to the member.
unfoldable pub settle {ℓ} :
    {A : Type ℓ} {W : Type 0}
    → TcpTransport
    → ℕ
    → A
    → TcpTransport
    → Result Text (Unit {0}) × W
    → Result TransportError A × TcpTransport × W
settle kept to a failed (ok _, w) = (ok a, kept, w)
settle kept to a failed (err e, w) = (err (io e), drop_peer failed to, w)

module _ {W : Type 0} (sockets : Sockets W) where
  -- `peer` where no connection is kept.
  unfoldable pub dial : TcpTransport → ℕ → ℕ → W → Result TransportError ℕ × TcpTransport × W
  unfolding insert
  dial t to addr w =
      let (connected, w1) = sockets.connect w addr in
      let (shaken, w2) = sockets.handshake_out w1 in
      if connected
      then elim shaken [ err e ↦ (err (io e), t, w2) | ok _ ↦ (ok t.next, dialled t to, w2) ]
      else (err (unreachable to), t, w1)

  unfoldable pub peer : TcpTransport → ℕ → W → Result TransportError ℕ × TcpTransport × W
  unfolding get
  peer t to w = elim (get t.peers to) [
    | none ↦ (err (unreachable to), t, w)
    | some addr ↦ elim (get t.outbound to) [ some c ↦ (ok c, t, w) | none ↦ dial t to addr w ]
  ]

  -- `send`, over what `peer` gives.
  unfoldable pub send_on :
      ℕ
      → Message
      → Result TransportError ℕ × TcpTransport × W
      → Result TransportError (Unit {0}) × TcpTransport × W
  send_on to message (err e, t, w) = (err e, t, w)
  send_on to message (ok c, t, w) = settle t to tt t (sockets.write w c (Frame.message message))

  unfoldable pub send :
      TcpTransport → ℕ → Message → W → Result TransportError (Unit {0}) × TcpTransport × W
  send t to message w = send_on to message (peer t to w)

  -- `rpc` up to its wait: the connection and the id under which the caller waits, or the error.
  unfoldable pub rpc_on :
      ℕ
      → ℕ
      → Bytes
      → Result TransportError ℕ × TcpTransport × W
      → Result TransportError (ℕ × ℕ) × TcpTransport × W
  rpc_on to caller payload (err e, t, w) = (err e, t, w)
  rpc_on to caller payload (ok c, t, w) =
      let (id, waiting) = begin_rpc (connection t c) caller in
      settle (set_connection t c waiting) to (c, id) (set_connection t c (fail_rpc waiting id))
        (sockets.write w c (Frame.request id payload))

  unfoldable pub start_rpc :
      TcpTransport → ℕ → ℕ → Bytes → W → Result TransportError (ℕ × ℕ) × TcpTransport × W
  start_rpc t to caller payload w = rpc_on to caller payload (peer t to w)

-- What `rpc` returns when its channel ends.
abbrev pub rpc_result : (ℕ → Text) → ℕ → Option Bytes → Result TransportError Bytes
rpc_result decimal to answer = ok_or answer (did_not_answer decimal to)
