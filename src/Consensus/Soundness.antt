-- ===== src/Consensus/Soundness.antt =====
-- What a link of src/cluster/network.rs takes for an answer of its peer, and what a call changes there.
use horsie_actor.Base.{
  ℕ, ◌≡◌, refl, ap, sym, ◌∙◌, Bool, true, Text, Bytes, Result, ok, err, map_err, Result-cases, ◌⊎◌,
  inl, inr, Bool-cases,
}
use horsie_actor.Node.Sending.{TransportError, unreachable}
use horsie_actor.InProcess.{InProcessNetwork, mailboxes, did_not_answer}
use horsie_actor.InProcess as InProcess
use horsie_actor.Consensus.{
  Request, Reply, Serde, Raft, serde, transport, RpcError, StreamingError, reply_to,
}
use horsie_actor.Consensus.PeerLink.{
  append_reply, vote_reply, snapshot_reply, call, append_entries, vote, full_snapshot,
}
use horsie_actor.Consensus.Answering.{RoundTrips, rpc, call-attached, decoded-encoded}
use horsie_actor.Consensus.Results.{
  append_reply-ok, vote_reply-ok, snapshot_reply-ok, replied-append, replied-vote, replied-snapshot,
  bind-ok, map_err-ok,
}

module _ {S Append Appended Ballot Voted Vote Meta Installed : Type 0}
    (requests : Serde (Request Append Ballot Vote Meta))
    (replies : Serde (Reply Appended Voted Installed)) (from_rpc_error : RpcError → StreamingError)
    (raft : ℕ → Raft S Append Appended Ballot Voted Vote Meta Installed) (decimal : ℕ → Text)
    (is_open : ℕ → Bool) (net : InProcessNetwork) (local target : ℕ)
    (requests_back : RoundTrips requests) (replies_back : RoundTrips replies) where
  abbrev pub link_rpc : S → ℕ → Bytes → Result TransportError Bytes × S
  link_rpc = rpc requests replies from_rpc_error raft decimal is_open net local target

  abbrev pub link_call :
      S → Request Append Ballot Vote Meta → Result RpcError (Reply Appended Voted Installed) × S
  link_call = call requests replies from_rpc_error link_rpc target

  -- What a call makes of a request that cannot be sent.
  abbrev pub Unsent : S → Request Append Ballot Vote Meta → Type 0
  Unsent s q = (e : RpcError) × (link_call s q ≡ (err e, s))

  -- The inbox that is reached, with the peer's reply.
  abbrev pub Reached : S → Request Append Ballot Vote Meta → Type 0
  Reached s q =
      (inbox : ℕ) × (payload : Bytes) × (mailboxes net local target ≡ ok inbox)
      × (is_open inbox ≡ true)
      × (requests.to_vec q ≡ ok payload)

  call-unattached :
      (s : S) (q : Request Append Ballot Vote Meta) (payload : Bytes) (e : TransportError)
      → requests.to_vec q ≡ ok payload
      → link_rpc s target payload ≡ (err e, s)
      → link_call s q ≡ (err (RpcError.unreachable (transport e)), s)
  unfolding call
  call-unattached s q payload e e_q unsent = rw (e_q, call, unsent) refl

  call_cases : (s : S) (q : Request Append Ballot Vote Meta) → Unsent s q ⊎ Reached s q
  unfolding call InProcess.rpc
  call_cases s q = elim (Result-cases (requests.to_vec q)) [
    | inr (e, e_q) ↦ inl (RpcError.unreachable (serde e), rw (e_q, call) refl)
    | inl (payload, e_q) ↦ elim (Result-cases (mailboxes net local target)) [
      | inr (e, unattached) ↦ inl (
        RpcError.unreachable (transport e),
        call-unattached s q payload e e_q (rw (unattached, InProcess.rpc) refl),
      )
      | inl (inbox, attached) ↦ elim (Bool-cases (is_open inbox)) [
        | inr closed ↦ inl (
          RpcError.unreachable (transport (unreachable target)),
          call-unattached s q payload (unreachable target) e_q
              (rw (attached, InProcess.rpc, closed) refl),
        )
        | inl opened ↦ inr (inbox, payload, attached, opened, e_q)
      ]
    ]
  ]

  -- The reply that a call returns is the one that the peer made, and the state is the peer's after it.
  call-ok :
      (s after : S) (q : Request Append Ballot Vote Meta) (r : Reply Appended Voted Installed)
      → link_call s q ≡ (ok r, after)
      → (inbox : ℕ) × (mailboxes net local target ≡ ok inbox)
        × (is_open inbox ≡ true)
        × (reply_to requests replies (raft inbox) s q ≡ (r, after))
  call-ok s after q r h = elim (call_cases s q) [
    | inl (e, unsent) ↦ cc
    | inr (inbox, payload, attached, opened, e_q) ↦
        let reached =
          call-attached requests replies from_rpc_error raft decimal is_open net local target
            requests_back replies_back inbox s q payload attached opened e_q in
        elim (Result-cases (replies.to_vec (reply_to requests replies (raft inbox) s q).0)) [
          | inr (e, unanswered) ↦ let failed = rw unanswered at (sym reached ∙ h) in cc
          | inl (bytes, answered) ↦
              let back =
                decoded-encoded requests replies from_rpc_error raft decimal is_open net local
                  target requests_back replies_back (reply_to requests replies (raft inbox) s q).0
                  bytes answered in
              let told = rw back at (sym reached ∙ h) in (inbox, attached, opened, cc)
        ]
  ]

  -- A link to the peer takes for its answer only what the peer's consensus returned to the same question,
  -- and then the peer's state is what that left: for entries, for a vote and for a snapshot. A question that
  -- does not reach an open inbox fails and changes nothing.
  pub consensus_sound :
      (s after : S)
      → ((q : Append) (r : Appended)
          → append_entries requests replies from_rpc_error link_rpc target s q ≡ (ok r, after)
          → (inbox : ℕ) × (mailboxes net local target ≡ ok inbox)
            × (is_open inbox ≡ true)
            × ((raft inbox).append_entries s q ≡ (ok r, after)))
        × ((q : Ballot) (r : Voted)
            → vote requests replies from_rpc_error link_rpc target s q ≡ (ok r, after)
            → (inbox : ℕ) × (mailboxes net local target ≡ ok inbox)
              × (is_open inbox ≡ true)
              × ((raft inbox).vote s q ≡ (ok r, after)))
        × ((v : Vote) (meta : Meta) (bytes : Bytes) (r : Installed)
            → full_snapshot requests replies from_rpc_error link_rpc target s v meta bytes
              ≡ (ok r, after)
            → (inbox : ℕ) × (mailboxes net local target ≡ ok inbox)
              × (is_open inbox ≡ true)
              × ((raft inbox).install_full_snapshot s v meta bytes ≡ (ok r, after)))
        × ((q : Request Append Ballot Vote Meta) → Unsent s q ⊎ Reached s q)
  unfolding append_entries vote full_snapshot reply_to
  consensus_sound s after = (
    λ q r h.
        let (reply, called, told) =
          bind-ok (link_call s (Request.append q)).0 append_reply r (ap (λ x. x.0) h) in
        let same : reply ≡ Reply.append r = append_reply-ok reply r told in
        let (inbox, attached, opened, answered) =
          call-ok s after (Request.append q) (Reply.append r)
            (λ i. ((called ∙ ap ok same) i, (h i).1)) in
        (
          inbox,
          attached,
          opened,
          λ i. (
            replied-append ((raft inbox).append_entries s q).0 r (ap (λ x. x.0) answered) i,
            (answered i).1,
          ),
        ),
    λ q r h.
        let (reply, called, told) =
          bind-ok (link_call s (Request.vote q)).0 vote_reply r (ap (λ x. x.0) h) in
        let same : reply ≡ Reply.vote r = vote_reply-ok reply r told in
        let (inbox, attached, opened, answered) =
          call-ok s after (Request.vote q) (Reply.vote r)
            (λ i. ((called ∙ ap ok same) i, (h i).1)) in
        (
          inbox,
          attached,
          opened,
          λ i.
              (replied-vote ((raft inbox).vote s q).0 r (ap (λ x. x.0) answered) i, (answered i).1),
        ),
    λ v meta bytes r h.
        let (reply, called, told) =
          bind-ok (map_err from_rpc_error (link_call s (Request.snapshot v meta bytes)).0)
            snapshot_reply r (ap (λ x. x.0) h) in
        let same : reply ≡ Reply.snapshot r = snapshot_reply-ok reply r told in
        let got =
          map_err-ok from_rpc_error (link_call s (Request.snapshot v meta bytes)).0 reply called in
        let (inbox, attached, opened, answered) =
          call-ok s after (Request.snapshot v meta bytes) (Reply.snapshot r)
            (λ i. ((got ∙ ap ok same) i, (h i).1)) in
        (
          inbox,
          attached,
          opened,
          λ i. (
            replied-snapshot ((raft inbox).install_full_snapshot s v meta bytes).0 r
                (ap (λ x. x.0) answered) i,
            (answered i).1,
          ),
        ),
    call_cases s,
  )
