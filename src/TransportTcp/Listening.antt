-- ===== src/TransportTcp/Listening.antt =====
-- The loop of `TcpTransport::bind` in src/transport_tcp.rs with the tasks that it starts: connections are
-- accepted, or an accept fails, and the task of each one reads on, in any order. A connection is known
-- by a number, in the order in which they are accepted; `stream` is all that it will carry until it
-- ends. The node takes what it is handed, and `log` has every frame that was handed on with its
-- connection.
pub mod Interleaved
pub mod Kept
pub mod Alone
use horsie_actor.Base.{
  ℕ, ◌+◌, true, Option, none, some, List, [], ◌∷◌, ◌++◌, Bytes, ok, err, nat_eq,
}
use horsie_actor.Map.{Map, get, insert}
use horsie_actor.TransportTcp.{read_frame_from, check_hello}
use horsie_actor.TransportTcp.Peer.{Frame, Accepted, serve_frame}
use horsie_actor.TransportTcp.Serving.{nothing}

pub data Phase : Type 0 where
  greeting reading closed : Phase

pub record Conn : Type 0 where
  pub stream : Bytes
  pub unread : Bytes
  pub phase : Phase

pub record Listener : Type 0 where
  pub conns : Map ℕ Conn
  pub next : ℕ
  pub accepted : Accepted
  pub log : List (ℕ × Frame)

abbrev pub listening : Listener
listening = record { conns = []; next = 0; accepted = nothing; log = [] }

abbrev pub opened : Bytes → Conn
opened stream = record { stream = stream; unread = stream; phase = greeting }

abbrev pub shut : Conn → Conn
shut c = record c { phase = closed }

pub data Event : Type 0 where
  failed : Event
  accepts : Bytes → Event
  turns : ℕ → Event

-- Where the frame of a connection goes.
unfoldable pub hand : Listener → ℕ → Conn → Option Frame → Listener
unfolding serve_frame insert
hand l k c none = record l { conns = insert l.conns k c }
hand l k c (some frame) = record l {
  conns = insert l.conns k c;
  accepted = elim (serve_frame true true l.accepted frame) [
    | none ↦ l.accepted
    | some after ↦ after
  ];
  log = l.log ++ (k, frame) ∷ [];
}

module _ (sha256 : Bytes → Bytes) (secret : Bytes) (decode : Bytes → Option Frame) where
  -- One read of `serve`: the opening frame and its check, or a frame to hand on.
  unfoldable pub turn_in : Phase → Conn → Conn × Option Frame
  unfolding read_frame_from check_hello
  turn_in closed c = (c, none)
  turn_in greeting c = elim (read_frame_from c.unread) [
    | err e ↦ (shut c, none)
    | ok first ↦ elim (check_hello sha256 secret first.0) [
      | err e ↦ (shut c, none)
      | ok _ ↦ (record c { unread = first.1; phase = reading }, none)
    ]
  ]
  turn_in reading c = elim (read_frame_from c.unread) [
    | err e ↦ (shut c, none)
    | ok got ↦ elim (decode got.0) [
      | none ↦ (shut c, none)
      | some frame ↦ (record c { unread = got.1 }, some frame)
    ]
  ]

  unfoldable pub turn : Conn → Conn × Option Frame
  unfolding turn_in
  turn c = turn_in c.phase c

  unfoldable pub happen : Listener → Event → Listener
  unfolding turn hand get insert
  happen l failed = l
  happen l (accepts stream) = record l {
    conns = insert l.conns l.next (opened stream);
    next = l.next + 1;
  }
  happen l (turns k) = elim (get l.conns k) [
    | none ↦ l
    | some c ↦ let (after, frame) = turn c in hand l k after frame
  ]

  -- What happened since the node began to listen, first to last.
  unfoldable pub listen : Listener → List Event → Listener
  unfolding happen
  listen l [] = l
  listen l (event ∷ events) = listen (happen l event) events
