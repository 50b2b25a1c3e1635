-- ===== src/TransportTcp/Listening/Kept.antt =====
-- What stays true of a node that serves connections at a time, in src/transport_tcp.rs.
use mathlib.Core.Path.{subst}
use horsie_actor.Base.{
  ℕ, ◌≡◌, refl, sym, ap, ◌∙◌, Option, some, List, [], ◌∷◌, ◌++◌, map, Bytes, nat_eq, ◌==◌, ==_iff,
  ==_refl, arith, Bool-cases, Option-cases, inl, inr,
}
use mathlib.Core.List.{append_assoc, append-nil, map-append}
use horsie_actor.Map.{get}
use horsie_actor.TransportTcp.Peer.{Frame}
use horsie_actor.TransportTcp.Serving.{nothing}
use horsie_actor.TransportTcp.Serving.Sent.{handed}
use horsie_actor.TransportTcp.Listening.{
  Conn, Listener, listening, opened, Event, failed, accepts, turns, hand, turn, happen, listen,
}
use horsie_actor.TransportTcp.Listening.Interleaved.{
  as_list, frames_of, frames_from, Gives, Gives-turn, handed-append, hand-parts, turn-stream,
  IsListener, IsAlong, accepts-IsListener, shown,
}

frames_of-numbered : (k : ℕ) (frames : List Frame) → frames_of (map (λ f. (k, f)) frames) ≡ frames
frames_of-numbered k [] = refl
frames_of-numbered k (f ∷ frames) = ap (λ fs. f ∷ fs) (frames_of-numbered k frames)

module _ (sha256 : Bytes → Bytes) (secret : Bytes) (decode : Bytes → Option Frame) where
  turns-IsAlong :
      (l : Listener) (k : ℕ) (before : Conn)
      → get l.conns k ≡ some before
      → IsListener sha256 secret decode l
      → let (c, frame) = turn sha256 secret decode before in
        IsAlong sha256 secret decode (hand l k c frame) k c
  turns-IsAlong l k before there i frames g =
      let (c, frame) = turn sha256 secret decode before in
      let g_before : Gives sha256 secret decode (opened before.stream) frames =
        rw (turn-stream sha256 secret decode before) at g in
      let (rest, splits, gives) = i.along k before there frames g_before in
      let (later, given, still) = Gives-turn sha256 secret decode before rest gives in
      let own = (shown sha256 secret decode l k before k there).1 ∙ rw (==_refl k) refl in
      (
        later,
        splits
            ∙ (ap (λ fs. frames_from k l.log ++ fs) given
                ∙ (sym (append_assoc (frames_from k l.log) (as_list frame) later)
                    ∙ ap (λ fs. fs ++ later) (sym own))),
        still,
      )

  turns-IsListener :
      (l : Listener) (k : ℕ) (before : Conn)
      → get l.conns k ≡ some before
      → IsListener sha256 secret decode l
      → let (c, frame) = turn sha256 secret decode before in
        IsListener sha256 secret decode (hand l k c frame)
  turns-IsListener l k before there i =
      let (c, frame) = turn sha256 secret decode before in
      let (_, next, log, accepted) = hand-parts sha256 secret decode l k c frame in
      let at = shown sha256 secret decode l k before in
      record {
        numbered = λ j d h. rw next (elim (Bool-cases (k == j)) [
          | inl own ↦ rw (← (==_iff k j).0 own) (i.numbered k before there)
          | inr other ↦ i.numbered j d (sym ((at j there).0 ∙ rw other refl) ∙ h)
        ]);
        logged = λ j h. elim (Bool-cases (k == j)) [
          | inl own ↦ ground (arith, h, (at j there).0, own)
          | inr other ↦
              (at j there).1
              ∙ rw (other, i.logged j (sym ((at j there).0 ∙ rw other refl) ∙ h)) refl
        ];
        along = λ j d h. elim (Bool-cases (k == j)) [
          | inl own ↦
              let one : some c ≡ some d = sym ((at j there).0 ∙ rw own refl) ∙ h in
              let same : c ≡ d = ground (arith, one) in
              subst (λ n. IsAlong sha256 secret decode (hand l k c frame) n d) ((==_iff k j).0 own)
                (subst (λ e. IsAlong sha256 secret decode (hand l k c frame) k e) same
                  (turns-IsAlong l k before there i))
          | inr other ↦ λ frames g.
              let (rest, splits, gives) =
                i.along j d (sym ((at j there).0 ∙ rw other refl) ∙ h) frames g in
              let kept : frames_from j (hand l k c frame).log ≡ frames_from j l.log =
                (at j there).1 ∙ rw other (append-nil (frames_from j l.log)) in
              (rest, splits ∙ ap (λ fs. fs ++ rest) (sym kept), gives)
        ];
        handed_on =
            let logs : frames_of (hand l k c frame).log ≡ frames_of l.log ++ as_list frame =
              ap frames_of log
              ∙ (map-append (λ e. e.1) l.log (map (λ f. (k, f)) (as_list frame))
                  ∙ ap (λ fs. frames_of l.log ++ fs) (frames_of-numbered k (as_list frame))) in
            let before_it =
              handed-append sha256 secret decode nothing (frames_of l.log) (as_list frame) in
            accepted
            ∙ (ap (λ a. handed a (as_list frame)) i.handed_on
                ∙ (sym before_it ∙ ap (handed nothing) (sym logs)));
      }

  happen-IsListener :
      (l : Listener) (event : Event)
      → IsListener sha256 secret decode l
      → IsListener sha256 secret decode (happen sha256 secret decode l event)
  unfolding happen
  happen-IsListener l failed i = i
  happen-IsListener l (accepts stream) i = accepts-IsListener sha256 secret decode l stream i
  happen-IsListener l (turns k) i = elim (Option-cases (get l.conns k)) [
    | inl e ↦ rw (happen, e) i
    | inr (c, e) ↦ rw (happen, e) (turns-IsListener l k c e i)
  ]

  pub listen-IsListener :
      (l : Listener) (events : List Event)
      → IsListener sha256 secret decode l
      → IsListener sha256 secret decode (listen sha256 secret decode l events)
  unfolding listen
  listen-IsListener l [] i = i
  listen-IsListener l (event ∷ events) i =
      listen-IsListener (happen sha256 secret decode l event) events (happen-IsListener l event i)

  pub listening-IsListener : IsListener sha256 secret decode listening
  listening-IsListener = record {
    numbered = λ k c h. unfold get in ground (arith, h);
    logged = λ k h. refl;
    along = λ k c h. unfold get in ground (arith, h);
    handed_on = refl;
  }
