-- ===== src/Consensus.antt =====
-- The messages of the consensus library over the transport, src/cluster/network.rs. The library's
-- types and the encodings are parameters, and so is the transport of a link.
pub mod PeerLink
pub mod Answering
pub mod Results
pub mod Soundness
use horsie_actor.Base.{
  ℕ, Option, none, some, List, [], ◌∷◌, ◌++◌, Text, Bytes, codes, Result, ok, err, ◌>>=◌, map_err,
}
use horsie_actor.Node.Sending.{TransportError}

pub data Request (Append Ballot Vote Meta : Type 0) : Type 0 where
  append : Append → Request Append Ballot Vote Meta
  vote : Ballot → Request Append Ballot Vote Meta
  snapshot : Vote → Meta → Bytes → Request Append Ballot Vote Meta

pub data Reply (Appended Voted Installed : Type 0) : Type 0 where
  append : Appended → Reply Appended Voted Installed
  vote : Voted → Reply Appended Voted Installed
  snapshot : Installed → Reply Appended Voted Installed
  failed : Text → Reply Appended Voted Installed

-- `serde_json::to_vec` and `from_slice` at one type.
pub record Serde (T : Type 0) : Type 0 where
  pub to_vec : T → Result Text Bytes
  pub from_slice : Bytes → Result Text T

-- The consensus of one node, over the state of all of them; an error is its text.
pub record Raft (S Append Appended Ballot Voted Vote Meta Installed : Type 0) : Type 0 where
  pub append_entries : S → Append → Result Text Appended × S
  pub vote : S → Ballot → Result Text Voted × S
  pub install_full_snapshot : S → Vote → Meta → Bytes → Result Text Installed × S

-- What `Unreachable` is made of.
pub data Cause : Type 0 where
  serde : Text → Cause
  transport : TransportError → Cause
  other : Text → Cause
  invalid_data : Text → Cause

pub data RpcError : Type 0 where
  unreachable : Cause → RpcError

pub data StreamingError : Type 0 where
  unreachable : Cause → StreamingError

abbrev pub undecodable : Text
undecodable = codes "undecodable consensus message: "

-- `mismatched`.
abbrev pub mismatched : Text → Cause
mismatched what = invalid_data (codes "peer answered a " ++ (what ++ codes " with something else"))

abbrev pub replied {ℓ} : {A : Type ℓ} {R : Type 0} → (A → R) → (Text → R) → Result Text A → R
replied wrap fail (ok a) = wrap a
replied wrap fail (err e) = fail e

abbrev pub sent_back : Result Text Bytes → Option Bytes
sent_back (ok bytes) = some bytes
sent_back (err e) = none

module _ {S Append Appended Ballot Voted Vote Meta Installed : Type 0}
    (requests : Serde (Request Append Ballot Vote Meta))
    (replies : Serde (Reply Appended Voted Installed)) where
  -- The reply to a request that was decoded.
  unfoldable pub reply_to :
      Raft S Append Appended Ballot Voted Vote Meta Installed
      → S
      → Request Append Ballot Vote Meta
      → Reply Appended Voted Installed × S
  reply_to raft s (Request.append rpc) =
      let (result, after) = raft.append_entries s rpc in
      (replied Reply.append Reply.failed result, after)
  reply_to raft s (Request.vote rpc) =
      let (result, after) = raft.vote s rpc in (replied Reply.vote Reply.failed result, after)
  reply_to raft s (Request.snapshot v meta bytes) =
      let (result, after) = raft.install_full_snapshot s v meta bytes in
      (replied Reply.snapshot Reply.failed result, after)

  -- The task of `serve_consensus` for one request: the answer, or none where the responder is dropped.
  unfoldable pub respond :
      Raft S Append Appended Ballot Voted Vote Meta Installed → S → Bytes → Option Bytes × S
  respond raft s payload = elim (requests.from_slice payload) [
    | err e ↦ (sent_back (replies.to_vec (Reply.failed (undecodable ++ e))), s)
    | ok request ↦
        let (reply, after) = reply_to raft s request in (sent_back (replies.to_vec reply), after)
  ]

  -- `serve_consensus`: nothing if the inbox was taken, else the answers to what arrives, in the order
  -- in which the tasks run.
  unfoldable pub serve_all :
      Raft S Append Appended Ballot Voted Vote Meta Installed
      → S
      → List Bytes
      → List (Option Bytes) × S
  serve_all raft s [] = ([], s)
  serve_all raft s (payload ∷ payloads) =
      let (answer, after) = respond raft s payload in
      let (answers, last) = serve_all raft after payloads in (answer ∷ answers, last)

  unfoldable pub serve_consensus :
      Raft S Append Appended Ballot Voted Vote Meta Installed
      → S
      → Option (List Bytes)
      → List (Option Bytes) × S
  serve_consensus raft s none = ([], s)
  serve_consensus raft s (some inbox) = serve_all raft s inbox
