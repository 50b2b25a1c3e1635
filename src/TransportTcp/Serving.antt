-- ===== src/TransportTcp/Serving.antt =====
-- The accepting side of a connection, `serve` of src/transport_tcp.rs: the handshake, then frames until
-- one of them ends it. `decode` is the decoder of serde_json for frames; `reads` tells whether the
-- node still takes messages, and whether it still takes requests, once it was handed so much.
pub mod Sent
pub mod Enough
use horsie_actor.Base.{
  ℕ, zero, suc, ◌∷◌, Bool, Option, none, some, List, [], length, Bytes, Result, ok, err,
}
use horsie_actor.TransportTcp.{
  ErrorKind, invalid_data, unexpected_eof, version, write_frame, read_frame_from, check_hello,
}
use horsie_actor.TransportTcp.Peer.{Frame, Accepted, serve_frame}

abbrev pub nothing : Accepted
nothing = record { messages = []; requests = [] }

-- How the task ended, what it wrote itself, and what it handed to the node.
pub record Served : Type 0 where
  pub outcome : Result ErrorKind (Unit {0})
  pub written : Bytes
  pub accepted : Accepted

module _ (decode : Bytes → Option Frame) (reads : Accepted → Bool × Bool) where
  -- The loop. Every frame takes four bytes at least, so the bytes of the stream are fuel enough.
  unfoldable pub serve_loop : ℕ → Accepted → Bytes → Result ErrorKind (Unit {0}) × Accepted
  unfolding read_frame_from serve_frame
  serve_loop zero s stream = (err unexpected_eof, s)
  serve_loop (suc fuel) s stream = elim (read_frame_from stream) [
    | err e ↦ (err e, s)
    | ok got ↦ elim (decode got.0) [
      | none ↦ (err invalid_data, s)
      | some frame ↦ elim (serve_frame (reads s).0 (reads s).1 s frame) [
        | none ↦ (ok tt, s)
        | some t ↦ serve_loop fuel t got.1
      ]
    ]
  ]

  unfoldable pub serve : (Bytes → Bytes) → Bytes → Bytes → Served
  unfolding read_frame_from check_hello write_frame serve_loop
  serve sha256 secret stream =
      let refused : ErrorKind → Served =
        λ e. record { outcome = err e; written = []; accepted = nothing } in
      elim (read_frame_from stream) [
        | err e ↦ refused e
        | ok first ↦ elim (check_hello sha256 secret first.0) [
          | err e ↦ refused e
          | ok _ ↦ elim (write_frame (version ∷ [])) [
            | err e ↦ refused e
            | ok reply ↦
                let (outcome, accepted) = serve_loop (suc (length first.1)) nothing first.1 in
                record { outcome = outcome; written = reply; accepted = accepted }
          ]
        ]
      ]
