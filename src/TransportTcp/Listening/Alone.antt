-- ===== src/TransportTcp/Listening/Alone.antt =====
-- What a node gets from connections that are served at a time, and what it gets from each when that is
-- served alone, in src/transport_tcp.rs.
use mathlib.Core.Path.{subst}
use horsie_actor.Base.{
  ℕ, zero, suc, ◌<◌, ◌≡◌, refl, sym, ap, ◌∙◌, Option, none, some, List, [], ◌∷◌, ◌++◌, length,
  Bytes, nat_eq, arith, Result-cases, Option-cases, inl, inr,
}
use horsie_actor.Map.{get}
use horsie_actor.TransportTcp.{read_frame_from, check_hello, write_frame}
use horsie_actor.TransportTcp.Peer.{Frame, Accepted}
use horsie_actor.TransportTcp.Serving.{nothing, serve_loop, serve}
use horsie_actor.TransportTcp.Serving.Enough.{read_frame_from-length}
use horsie_actor.TransportTcp.Serving.Sent.{handed, always, serve_frame-always}
use horsie_actor.TransportTcp.Listening.{
  reading, closed, Conn, listening, opened, shut, Event, turn_in, turn, listen,
}
use horsie_actor.TransportTcp.Listening.Interleaved.{
  as_list, frames_of, frames_from, Gives, over, more, Gives-closed,
}
use horsie_actor.TransportTcp.Listening.Kept.{listen-IsListener, listening-IsListener}

module _ (sha256 : Bytes → Bytes) (secret : Bytes) (decode : Bytes → Option Frame) where
  -- A turn, and what the connection gives after it.
  Gives-step :
      (c d : Conn) (frame : Option Frame) (frames : List Frame)
      → turn sha256 secret decode c ≡ (d, frame)
      → Gives sha256 secret decode d frames
      → Gives sha256 secret decode c (as_list frame ++ frames)
  Gives-step c d frame frames e g =
      subst (λ t. Gives sha256 secret decode c (as_list t.1 ++ frames)) e
        (more c frames (subst (λ t. Gives sha256 secret decode t.0 frames) (sym e) g))

  abbrev open_at : Bytes → Bytes → Conn
  open_at stream unread = record { stream = stream; unread = unread; phase = reading }

  serve_loop-Gives :
      (fuel : ℕ) (stream unread : Bytes)
      → length unread < fuel
      → (frames : List Frame) × Gives sha256 secret decode (open_at stream unread) frames
        × ((s : Accepted) → (serve_loop decode always fuel s unread).1 ≡ handed s frames)
  unfolding serve_loop turn turn_in
  serve_loop-Gives zero stream unread h = absurd (omega (arith, h))
  serve_loop-Gives (suc fuel) stream unread h =
      let c = open_at stream unread in
      elim (Result-cases (read_frame_from unread)) [
        | inr (e, q) ↦ (
          [],
          Gives-step c (shut c) none [] (rw (turn, turn_in, q) refl) (over (shut c) refl),
          λ s. rw (serve_loop, q) refl,
        )
        | inl ((bytes, rest), q) ↦ elim (Option-cases (decode bytes)) [
          | inl p ↦ (
            [],
            Gives-step c (shut c) none [] (rw (turn, turn_in, q, p) refl) (over (shut c) refl),
            λ s. rw (serve_loop, q, p) refl,
          )
          | inr (f, p) ↦
              let shorter = read_frame_from-length unread bytes rest q in
              let (frames, gives, loop) =
                serve_loop-Gives fuel stream rest (omega (arith, h, shorter)) in
              (
                f ∷ frames,
                Gives-step c (open_at stream rest) (some f) frames (rw (turn, turn_in, q, p) refl)
                    gives,
                λ s.
                    let (t, step, same) = serve_frame-always s f frames in
                    rw (serve_loop, q, p, step) (loop t ∙ same),
              )
        ]
      ]

  serve-Gives :
      (stream : Bytes)
      → (frames : List Frame) × Gives sha256 secret decode (opened stream) frames
        × ((serve decode always sha256 secret stream).accepted ≡ handed nothing frames)
  unfolding serve turn turn_in
  serve-Gives stream =
      let c = opened stream in
      elim (Result-cases (read_frame_from stream)) [
        | inr (e, q) ↦ (
          [],
          Gives-step c (shut c) none [] (rw (turn, turn_in, q) refl) (over (shut c) refl),
          rw (serve, q) refl,
        )
        | inl ((first, rest), q) ↦ elim (Result-cases (check_hello sha256 secret first)) [
          | inr (e, p) ↦ (
            [],
            Gives-step c (shut c) none [] (rw (turn, turn_in, q, p) refl) (over (shut c) refl),
            rw (serve, q, p) refl,
          )
          | inl (u, p) ↦
              let (frames, gives, loop) =
                serve_loop-Gives (suc (length rest)) stream rest (omega arith) in
              (
                frames,
                Gives-step c (open_at stream rest) none frames (rw (turn, turn_in, q, p) refl)
                    gives,
                rw (serve, q, p) (unfold write_frame in loop nothing),
              )
        ]
      ]

  -- However accepts, failed accepts and the turns of the tasks that serve connections follow one
  -- another, the node has been handed the frames of the log, and of those the ones of a connection
  -- are a beginning of what it is handed when it serves that connection's stream alone: all of it, once
  -- the connection is closed.
  pub listen-serve :
      (events : List Event) (k : ℕ) (c : Conn)
      → let l = listen sha256 secret decode listening events in
        get l.conns k ≡ some c
        → (l.accepted ≡ handed nothing (frames_of l.log))
          × ((rest : List Frame) × ((serve decode always sha256 secret c.stream).accepted
                ≡ handed nothing (frames_from k l.log ++ rest))
              × (c.phase ≡ closed → rest ≡ []))
  listen-serve events k c h =
      let i =
        listen-IsListener sha256 secret decode listening events
          (listening-IsListener sha256 secret decode) in
      let (frames, gives, alone) = serve-Gives c.stream in
      let (rest, splits, still) = i.along k c h frames gives in
      (
        i.handed_on,
        (
          rest,
          alone ∙ ap (handed nothing) splits,
          λ e. Gives-closed sha256 secret decode c rest still e,
        ),
      )
