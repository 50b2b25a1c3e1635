-- ===== src/Consensus/Answering.antt =====
-- Requests of src/cluster/network.rs over the network of src/transport.rs: a node's link, the queue of
-- the peer, and the task that answers there.
use horsie_actor.Base.{ℕ, ◌≡◌, refl, Bool, true, Text, Bytes, Result, ok, err, map_err, ok_or}
use horsie_actor.Node.Sending.{TransportError}
use horsie_actor.InProcess.{InProcessNetwork, mailboxes, did_not_answer}
use horsie_actor.InProcess as InProcess
use horsie_actor.Consensus.{
  Request, Reply, Serde, Raft, other, RpcError, StreamingError, replied, sent_back, reply_to,
  respond,
}
use horsie_actor.Consensus.PeerLink.{
  append_reply, vote_reply, snapshot_reply, decoded_reply, call, append_entries, vote,
  full_snapshot,
}

module _ {T : Type 0} where
  -- What is encoded decodes to what it was.
  abbrev pub RoundTrips : Serde T → Type 0
  RoundTrips s = (t : T) (bytes : Bytes) → s.to_vec t ≡ ok bytes → s.from_slice bytes ≡ ok t

  -- Every value is encoded.
  abbrev pub Encodes : Serde T → Type 0
  Encodes s = (t : T) → (bytes : Bytes) × (s.to_vec t ≡ ok bytes)

module _ {S Append Appended Ballot Voted Vote Meta Installed : Type 0}
    (requests : Serde (Request Append Ballot Vote Meta))
    (replies : Serde (Reply Appended Voted Installed)) (from_rpc_error : RpcError → StreamingError)
    (raft : ℕ → Raft S Append Appended Ballot Voted Vote Meta Installed) (decimal : ℕ → Text)
    (is_open : ℕ → Bool) (net : InProcessNetwork) (local target : ℕ) where
  -- The transport of the node `local`, the readers of the other inboxes serving their consensus.
  abbrev pub rpc : S → ℕ → Bytes → Result TransportError Bytes × S
  rpc = InProcess.rpc decimal is_open (λ inbox. respond requests replies (raft inbox)) net local

  rpc-attached :
      (inbox : ℕ) (s : S) (payload : Bytes)
      → mailboxes net local target ≡ ok inbox
      → is_open inbox ≡ true
      → rpc s target payload ≡ (
        ok_or (respond requests replies (raft inbox) s payload).0 (did_not_answer decimal target),
        (respond requests replies (raft inbox) s payload).1,
      )
  unfolding InProcess.rpc
  rpc-attached inbox s payload attached opened = rw (attached, InProcess.rpc, opened) refl

  respond-decoded :
      (inbox : ℕ) (s : S) (q : Request Append Ballot Vote Meta) (payload : Bytes)
      → requests.from_slice payload ≡ ok q
      → respond requests replies (raft inbox) s payload ≡ (
        sent_back (replies.to_vec (reply_to requests replies (raft inbox) s q).0),
        (reply_to requests replies (raft inbox) s q).1,
      )
  unfolding respond
  respond-decoded inbox s q payload e = rw (e, respond) refl

  module _ (requests_back : RoundTrips requests) (replies_back : RoundTrips replies) where
    pub call-attached :
        (inbox : ℕ) (s : S) (q : Request Append Ballot Vote Meta) (payload : Bytes)
        → mailboxes net local target ≡ ok inbox
        → is_open inbox ≡ true
        → requests.to_vec q ≡ ok payload
        → call requests replies from_rpc_error rpc target s q ≡ (
          decoded_reply requests replies from_rpc_error rpc target (
              ok_or
                (sent_back (replies.to_vec (reply_to requests replies (raft inbox) s q).0))
                (did_not_answer decimal target)),
          (reply_to requests replies (raft inbox) s q).1,
        )
    unfolding call
    call-attached inbox s q payload attached opened encoded =
        let answered = respond-decoded inbox s q payload (requests_back q payload encoded) in
        rw (encoded, call, rpc-attached inbox s payload attached opened, answered) refl

    pub decoded-encoded :
        (r : Reply Appended Voted Installed) (bytes : Bytes)
        → replies.to_vec r ≡ ok bytes
        → decoded_reply requests replies from_rpc_error rpc target
            (ok_or (sent_back (replies.to_vec r)) (did_not_answer decimal target))
          ≡ ok r
    decoded-encoded r bytes e = rw (e, replies_back r bytes e) refl

    -- A call that reaches an open inbox gets what the peer replies, where all can be encoded.
    call-answered :
        (inbox : ℕ) (s : S) (q : Request Append Ballot Vote Meta)
        → Encodes requests
        → Encodes replies
        → mailboxes net local target ≡ ok inbox
        → is_open inbox ≡ true
        → call requests replies from_rpc_error rpc target s q ≡ (
          ok (reply_to requests replies (raft inbox) s q).0,
          (reply_to requests replies (raft inbox) s q).1,
        )
    call-answered inbox s q encodes encodes_too attached opened =
        let (payload, encoded) = encodes q in
        let (bytes, answered) = encodes_too (reply_to requests replies (raft inbox) s q).0 in
        rw
          (
            call-attached inbox s q payload attached opened encoded,
            decoded-encoded (reply_to requests replies (raft inbox) s q).0 bytes answered,
          )
          refl

    append-told :
        (r : Result Text Appended)
        → append_reply {Voted = Voted} {Installed = Installed} (replied Reply.append Reply.failed r)
          ≡ map_err (λ e. RpcError.unreachable (other e)) r
    append-told (ok r) = refl
    append-told (err e) = refl

    vote-told :
        (r : Result Text Voted)
        → vote_reply {Appended = Appended} {Installed = Installed}
            (replied Reply.vote Reply.failed r)
          ≡ map_err (λ e. RpcError.unreachable (other e)) r
    vote-told (ok r) = refl
    vote-told (err e) = refl

    snapshot-told :
        (r : Result Text Installed)
        → snapshot_reply {Appended = Appended} {Voted = Voted}
            (replied Reply.snapshot Reply.failed r)
          ≡ map_err (λ e. StreamingError.unreachable (other e)) r
    snapshot-told (ok r) = refl
    snapshot-told (err e) = refl

    -- Where every message can be encoded and the peer's inbox is reached and open, asking a peer is asking
    -- its consensus: the same result, an error as the text of what was unreachable, and the same change.
    pub consensus-answers :
        (inbox : ℕ) (s : S)
        → Encodes requests
        → Encodes replies
        → mailboxes net local target ≡ ok inbox
        → is_open inbox ≡ true
        → ((q : Append)
            → append_entries requests replies from_rpc_error rpc target s q ≡ (
              map_err (λ e. RpcError.unreachable (other e)) ((raft inbox).append_entries s q).0,
              ((raft inbox).append_entries s q).1,
            ))
          × ((q : Ballot)
              → vote requests replies from_rpc_error rpc target s q ≡ (
                map_err (λ e. RpcError.unreachable (other e)) ((raft inbox).vote s q).0,
                ((raft inbox).vote s q).1,
              ))
          × ((v : Vote) (meta : Meta) (bytes : Bytes)
              → full_snapshot requests replies from_rpc_error rpc target s v meta bytes ≡ (
                map_err
                    (λ e. StreamingError.unreachable (other e))
                    ((raft inbox).install_full_snapshot s v meta bytes).0,
                ((raft inbox).install_full_snapshot s v meta bytes).1,
              ))
    unfolding append_entries vote full_snapshot reply_to
    consensus-answers inbox s encodes encodes_too attached opened = (
      λ q.
          rw
            (
              call-answered inbox s (Request.append q) encodes encodes_too attached opened,
              append-told ((raft inbox).append_entries s q).0,
            )
            refl,
      λ q.
          rw
            (
              call-answered inbox s (Request.vote q) encodes encodes_too attached opened,
              vote-told ((raft inbox).vote s q).0,
            )
            refl,
      λ v meta bytes.
          rw
            (
              call-answered inbox s (Request.snapshot v meta bytes) encodes encodes_too attached
                  opened,
              snapshot-told ((raft inbox).install_full_snapshot s v meta bytes).0,
            )
            refl,
    )
