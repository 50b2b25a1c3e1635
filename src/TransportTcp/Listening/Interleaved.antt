-- ===== src/TransportTcp/Listening/Interleaved.antt =====
-- Connections that are served at a time in src/transport_tcp.rs: each as if it were alone.
use horsie_actor.Base.{
  ℕ, ◌<◌, ◌≡◌, refl, sym, ap, ◌∙◌, false, Option, none, some, List, [], ◌∷◌, ◌++◌, map, Bytes,
  nat_eq, ◌==◌, ==_iff, ==_refl, arith, Bool-cases, Result-cases, Option-cases, inl, inr,
  if◌then◌else◌,
}
use mathlib.Core.List.{append-nil}
use horsie_actor.Map.{get, insert, get-insert}
use horsie_actor.TransportTcp.{read_frame_from, check_hello}
use horsie_actor.TransportTcp.Peer.{Frame, Accepted}
use horsie_actor.TransportTcp.Serving.{nothing}
use horsie_actor.TransportTcp.Serving.Sent.{handed, serve_frame-always}
use horsie_actor.TransportTcp.Listening.{
  Phase, greeting, reading, closed, Conn, Listener, opened, accepts, hand, turn_in, turn, happen,
}

abbrev pub as_list : Option Frame → List Frame
as_list none = []
as_list (some frame) = frame ∷ []

abbrev pub frames_of : List (ℕ × Frame) → List Frame
frames_of = map (λ e. e.1)

-- The frames of one connection among those that were handed on.
abbrev pub frames_from : ℕ → List (ℕ × Frame) → List Frame
frames_from k [] = []
frames_from k (e ∷ log) = let rest = frames_from k log in if e.0 == k then e.1 ∷ rest else rest

module _ (sha256 : Bytes → Bytes) (secret : Bytes) (decode : Bytes → Option Frame) where
  -- The frames that a connection still hands on when it has all its turns.
  pub data Gives : Conn → List Frame → Type 0 where
    over : (c : Conn) → c.phase ≡ closed → Gives c []
    more :
        (c : Conn) (frames : List Frame)
        → Gives (turn sha256 secret decode c).0 frames
        → Gives c (as_list (turn sha256 secret decode c).1 ++ frames)

  turn-closed : (c : Conn) → c.phase ≡ closed → turn sha256 secret decode c ≡ (c, none)
  unfolding turn turn_in
  turn-closed c h = ap (λ phase. turn_in sha256 secret decode phase c) h

  -- After a turn it gives the rest.
  pub Gives-turn :
      (c : Conn) (frames : List Frame)
      → Gives c frames
      → (rest : List Frame) × (frames ≡ as_list (turn sha256 secret decode c).1 ++ rest)
        × Gives (turn sha256 secret decode c).0 rest
  Gives-turn _ _ (over c h) =
      let still = turn-closed c h in ([], rw still refl, rw still (over c h))
  Gives-turn _ _ (more c frames g) = (frames, refl, g)

  pub Gives-closed :
      (c : Conn) (frames : List Frame) → Gives c frames → c.phase ≡ closed → frames ≡ []
  Gives-closed _ _ (over c h) e = refl
  Gives-closed _ _ (more c frames g) e =
      let still = turn-closed c e in
      let shut_too : (turn sha256 secret decode c).0.phase ≡ closed = rw still e in
      let rest = Gives-closed (turn sha256 secret decode c).0 frames g shut_too in
      rw (still, rest) refl

  frames_from-append :
      (k : ℕ) (xs ys : List (ℕ × Frame))
      → frames_from k (xs ++ ys) ≡ frames_from k xs ++ frames_from k ys
  frames_from-append k [] ys = refl
  frames_from-append k (x ∷ xs) ys = elim (Bool-cases (x.0 == k)) [
    | inl own ↦ rw (own, frames_from-append k xs ys) refl
    | inr other ↦ rw (other, frames_from-append k xs ys) refl
  ]

  pub handed-append :
      (s : Accepted) (xs ys : List Frame) → handed s (xs ++ ys) ≡ handed (handed s xs) ys
  handed-append s [] ys = refl
  handed-append s (Frame.message m ∷ xs) ys =
      handed-append (record s { messages = s.messages ++ m ∷ [] }) xs ys
  handed-append s (Frame.request id p ∷ xs) ys =
      handed-append (record s { requests = s.requests ++ (id, p) ∷ [] }) xs ys
  handed-append s (Frame.response id p ∷ xs) ys = handed-append s xs ys

  -- What the task of a connection hands on in one turn.
  pub hand-parts :
      (l : Listener) (k : ℕ) (c : Conn) (frame : Option Frame)
      → ((hand l k c frame).conns ≡ insert l.conns k c)
        × ((hand l k c frame).next ≡ l.next)
        × ((hand l k c frame).log ≡ l.log ++ map (λ f. (k, f)) (as_list frame))
        × ((hand l k c frame).accepted ≡ handed l.accepted (as_list frame))
  unfolding hand
  hand-parts l k c none = (refl, refl, sym (append-nil l.log), refl)
  hand-parts l k c (some frame) =
      let (t, step, same) = serve_frame-always l.accepted frame [] in
      (refl, refl, refl, rw (hand, step) same)

  pub frames_from-own :
      (k : ℕ) (frames : List Frame) → frames_from k (map (λ f. (k, f)) frames) ≡ frames
  frames_from-own k [] = refl
  frames_from-own k (f ∷ frames) = rw (==_refl k, frames_from-own k frames) refl

  frames_from-other :
      (k j : ℕ) (frames : List Frame)
      → (k == j) ≡ false
      → frames_from j (map (λ f. (k, f)) frames) ≡ []
  frames_from-other k j [] apart = refl
  frames_from-other k j (f ∷ frames) apart = rw (apart, frames_from-other k j frames apart) refl

  pub turn-stream : (c : Conn) → (turn sha256 secret decode c).0.stream ≡ c.stream
  unfolding turn turn_in
  turn-stream c = go c.phase
    where
      go : (phase : Phase) → (turn_in sha256 secret decode phase c).0.stream ≡ c.stream
      go closed = refl
      go greeting = elim (Result-cases (read_frame_from c.unread)) [
        | inr (e, q) ↦ rw (turn_in, q) refl
        | inl (first, q) ↦ elim (Result-cases (check_hello sha256 secret first.0)) [
          | inr (e, p) ↦ rw (turn_in, q, p) refl
          | inl (u, p) ↦ rw (turn_in, q, p) refl
        ]
      ]
      go reading = elim (Result-cases (read_frame_from c.unread)) [
        | inr (e, q) ↦ rw (turn_in, q) refl
        | inl (got, q) ↦ elim (Option-cases (decode got.0)) [
          | inl p ↦ rw (turn_in, q, p) refl
          | inr (frame, p) ↦ rw (turn_in, q, p) refl
        ]
      ]

  -- Of what the connection gives, what it gave was handed on, and the rest it will.
  abbrev pub IsAlong : Listener → ℕ → Conn → Type 0
  IsAlong l k c =
      (frames : List Frame)
      → Gives (opened c.stream) frames
      → (rest : List Frame) × (frames ≡ frames_from k l.log ++ rest) × Gives c rest

  pub record IsListener (l : Listener) : Type 0 where
    pub numbered : (k : ℕ) (c : Conn) → get l.conns k ≡ some c → k < l.next
    pub logged : (k : ℕ) → get l.conns k ≡ none → frames_from k l.log ≡ []
    pub along : (k : ℕ) (c : Conn) → get l.conns k ≡ some c → IsAlong l k c
    pub handed_on : l.accepted ≡ handed nothing (frames_of l.log)

  pub accepts-IsListener :
      (l : Listener) (stream : Bytes)
      → IsListener l
      → IsListener (happen sha256 secret decode l (accepts stream))
  unfolding happen
  accepts-IsListener l stream i = record {
    numbered = λ k c h. elim (Bool-cases (l.next == k)) [
      | inl new ↦ omega (arith, (==_iff l.next k).0 new)
      | inr old ↦
          let before : get l.conns k ≡ some c =
            sym (get-insert l.conns l.next k (opened stream) ∙ rw old refl) ∙ h in
          omega (arith, i.numbered k c before)
    ];
    logged = λ k h. elim (Bool-cases (l.next == k)) [
      | inl new ↦ ground (arith, h, get-insert l.conns l.next k (opened stream), new)
      | inr old ↦ i.logged k (sym (get-insert l.conns l.next k (opened stream) ∙ rw old refl) ∙ h)
    ];
    along = λ k c h. elim (Bool-cases (l.next == k)) [
      | inr old ↦ i.along k c (sym (get-insert l.conns l.next k (opened stream) ∙ rw old refl) ∙ h)
      | inl new ↦
          let one : some (opened stream) ≡ some c =
            sym (get-insert l.conns l.next k (opened stream) ∙ rw new refl) ∙ h in
          let same : opened stream ≡ c = ground (arith, one) in
          let absent : get l.conns k ≡ none = elim (Option-cases (get l.conns k)) [
            | inl e ↦ e
            | inr (d, e) ↦ absurd (omega (arith, i.numbered k d e, (==_iff l.next k).0 new))
          ] in
          rw (← same, i.logged k absent) (λ frames g. (frames, refl, g))
    ];
    handed_on = i.handed_on;
  }

  pub shown :
      (l : Listener) (k : ℕ) (before : Conn) (j : ℕ)
      → get l.conns k ≡ some before
      → let (c, frame) = turn sha256 secret decode before in
        (get (hand l k c frame).conns j ≡ (if k == j then some c else get l.conns j))
        × (frames_from j (hand l k c frame).log
            ≡ frames_from j l.log ++ (if k == j then as_list frame else []))
  shown l k before j there =
      let (c, frame) = turn sha256 secret decode before in
      let (conns, _, log, _) = hand-parts l k c frame in
      let joined = frames_from-append j l.log (map (λ f. (k, f)) (as_list frame)) in
      elim (Bool-cases (k == j)) [
        | inl own ↦ (
          rw (conns, get-insert l.conns k j c) refl,
          rw (log, joined, own, ← (==_iff k j).0 own, frames_from-own k (as_list frame)) refl,
        )
        | inr other ↦ (
          rw (conns, get-insert l.conns k j c) refl,
          rw (log, joined, other, frames_from-other k j (as_list frame) other) refl,
        )
      ]
