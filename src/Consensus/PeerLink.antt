-- ===== src/Consensus/PeerLink.antt =====
-- `PeerLink` of src/cluster/network.rs over the `rpc` of a transport. The library turns an error of a
-- call into one of a snapshot's transfer, by a parameter.
use horsie_actor.Base.{ℕ, Bytes, codes, Result, ok, err, ◌>>=◌, map_err}
use horsie_actor.Node.Sending.{TransportError}
use horsie_actor.Consensus.{
  Request, Reply, Serde, serde, transport, other, RpcError, StreamingError, mismatched,
}

module _ {Appended Voted Installed : Type 0} where
  abbrev pub append_reply : Reply Appended Voted Installed → Result RpcError Appended
  append_reply (Reply.append r) = ok r
  append_reply (Reply.failed e) = err (RpcError.unreachable (other e))
  append_reply (Reply.vote _) = err (RpcError.unreachable (mismatched (codes "append")))
  append_reply (Reply.snapshot _) = err (RpcError.unreachable (mismatched (codes "append")))

  abbrev pub vote_reply : Reply Appended Voted Installed → Result RpcError Voted
  vote_reply (Reply.vote r) = ok r
  vote_reply (Reply.failed e) = err (RpcError.unreachable (other e))
  vote_reply (Reply.append _) = err (RpcError.unreachable (mismatched (codes "vote")))
  vote_reply (Reply.snapshot _) = err (RpcError.unreachable (mismatched (codes "vote")))

  abbrev pub snapshot_reply : Reply Appended Voted Installed → Result StreamingError Installed
  snapshot_reply (Reply.snapshot r) = ok r
  snapshot_reply (Reply.failed e) = err (StreamingError.unreachable (other e))
  snapshot_reply (Reply.append _) = err (StreamingError.unreachable (mismatched (codes "snapshot")))
  snapshot_reply (Reply.vote _) = err (StreamingError.unreachable (mismatched (codes "snapshot")))

module _ {S Append Appended Ballot Voted Vote Meta Installed : Type 0}
    (requests : Serde (Request Append Ballot Vote Meta))
    (replies : Serde (Reply Appended Voted Installed)) (from_rpc_error : RpcError → StreamingError)
    (rpc : S → ℕ → Bytes → Result TransportError Bytes × S) (target : ℕ) where
  abbrev pub decoded_reply :
      Result TransportError Bytes → Result RpcError (Reply Appended Voted Installed)
  decoded_reply result = map_err (λ e. RpcError.unreachable (transport e)) result >>= λ bytes.
      map_err (λ e. RpcError.unreachable (serde e)) (replies.from_slice bytes)

  unfoldable pub call :
      S → Request Append Ballot Vote Meta → Result RpcError (Reply Appended Voted Installed) × S
  call s request = elim (requests.to_vec request) [
    | err e ↦ (err (RpcError.unreachable (serde e)), s)
    | ok payload ↦ let (result, after) = rpc s target payload in (decoded_reply result, after)
  ]

  unfoldable pub append_entries : S → Append → Result RpcError Appended × S
  append_entries s request =
      let (reply, after) = call s (Request.append request) in (reply >>= append_reply, after)

  unfoldable pub vote : S → Ballot → Result RpcError Voted × S
  vote s request =
      let (reply, after) = call s (Request.vote request) in (reply >>= vote_reply, after)

  unfoldable pub full_snapshot : S → Vote → Meta → Bytes → Result StreamingError Installed × S
  full_snapshot s v meta bytes =
      let (reply, after) = call s (Request.snapshot v meta bytes) in
      (map_err from_rpc_error reply >>= snapshot_reply, after)
