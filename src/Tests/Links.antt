-- ===== src/Tests/Links.antt =====
-- The theorems on src/cluster/network.rs where everything is a number.
use horsie_actor.Base.{
  ℕ, zero, suc, ◌+◌, ◌≡◌, refl, sym, Bool, true, [], ◌∷◌, Bytes, Text, codes, Result, ok, err,
  map_err, ◌⊎◌, nat_eq,
}
use horsie_actor.Node.Sending.{TransportError}
use horsie_actor.InProcess.{InProcessNetwork, empty_network, attach, mailboxes}
use horsie_actor.Consensus.{Request, Reply, Serde, Raft, other, RpcError, StreamingError}
use horsie_actor.Consensus.PeerLink.{append_entries, vote, full_snapshot}
use horsie_actor.Consensus.Answering.{RoundTrips, Encodes, consensus-answers}
use horsie_actor.Consensus.Soundness.{link_rpc, Unsent, Reached, consensus_sound}

abbrev Ask : Type 0
Ask = Request ℕ ℕ ℕ ℕ

abbrev Told : Type 0
Told = Reply ℕ ℕ ℕ

abbrev write_ask : Ask → Result Text Bytes
write_ask (Request.append n) = ok (0 ∷ n ∷ [])
write_ask (Request.vote n) = ok (1 ∷ n ∷ [])
write_ask (Request.snapshot v m bytes) = ok (2 ∷ v ∷ m ∷ bytes)

abbrev read_ask : Bytes → Result Text Ask
read_ask (zero ∷ n ∷ []) = ok (Request.append n)
read_ask (suc zero ∷ n ∷ []) = ok (Request.vote n)
read_ask (suc (suc zero) ∷ v ∷ m ∷ bytes) = ok (Request.snapshot v m bytes)
read_ask _ = err (codes "unknown")

abbrev write_told : Told → Result Text Bytes
write_told (Reply.append n) = ok (0 ∷ n ∷ [])
write_told (Reply.vote n) = ok (1 ∷ n ∷ [])
write_told (Reply.snapshot n) = ok (2 ∷ n ∷ [])
write_told (Reply.failed text) = ok (3 ∷ text)

abbrev read_told : Bytes → Result Text Told
read_told (zero ∷ n ∷ []) = ok (Reply.append n)
read_told (suc zero ∷ n ∷ []) = ok (Reply.vote n)
read_told (suc (suc zero) ∷ n ∷ []) = ok (Reply.snapshot n)
read_told (suc (suc (suc zero)) ∷ text) = ok (Reply.failed text)
read_told _ = err (codes "unknown")

abbrev asks : Serde Ask
asks = record { to_vec = write_ask; from_slice = read_ask }

abbrev answers : Serde Told
answers = record { to_vec = write_told; from_slice = read_told }

asks-RoundTrips : RoundTrips asks
asks-RoundTrips (Request.append n) bytes h = let e : 0 ∷ n ∷ [] ≡ bytes = cc in rw (sym e) refl
asks-RoundTrips (Request.vote n) bytes h = let e : 1 ∷ n ∷ [] ≡ bytes = cc in rw (sym e) refl
asks-RoundTrips (Request.snapshot v m text) bytes h =
    let e : 2 ∷ v ∷ m ∷ text ≡ bytes = cc in rw (sym e) refl

answers-RoundTrips : RoundTrips answers
answers-RoundTrips (Reply.append n) bytes h = let e : 0 ∷ n ∷ [] ≡ bytes = cc in rw (sym e) refl
answers-RoundTrips (Reply.vote n) bytes h = let e : 1 ∷ n ∷ [] ≡ bytes = cc in rw (sym e) refl
answers-RoundTrips (Reply.snapshot n) bytes h = let e : 2 ∷ n ∷ [] ≡ bytes = cc in rw (sym e) refl
answers-RoundTrips (Reply.failed text) bytes h = let e : 3 ∷ text ≡ bytes = cc in rw (sym e) refl

asks-Encodes : Encodes asks
asks-Encodes (Request.append n) = (0 ∷ n ∷ [], refl)
asks-Encodes (Request.vote n) = (1 ∷ n ∷ [], refl)
asks-Encodes (Request.snapshot v m bytes) = (2 ∷ v ∷ m ∷ bytes, refl)

answers-Encodes : Encodes answers
answers-Encodes (Reply.append n) = (0 ∷ n ∷ [], refl)
answers-Encodes (Reply.vote n) = (1 ∷ n ∷ [], refl)
answers-Encodes (Reply.snapshot n) = (2 ∷ n ∷ [], refl)
answers-Encodes (Reply.failed text) = (3 ∷ text, refl)

-- A node that counts what it takes, and votes for nobody.
abbrev counting : Raft ℕ ℕ ℕ ℕ ℕ ℕ ℕ ℕ
counting = record {
  append_entries = λ s n. (ok (s + n), s + 1);
  vote = λ s n. (err (codes "no"), s);
  install_full_snapshot = λ s v m bytes. (ok m, m);
}

abbrev raft : ℕ → Raft ℕ ℕ ℕ ℕ ℕ ℕ ℕ ℕ
raft inbox = counting

abbrev turned : RpcError → StreamingError
turned (RpcError.unreachable cause) = StreamingError.unreachable cause

abbrev decimal : ℕ → Text
decimal n = (n + 48) ∷ []

abbrev is_open : ℕ → Bool
is_open inbox = true

abbrev pair : InProcessNetwork
pair = (attach (attach empty_network 1).1 2).1

attached : mailboxes pair 1 2 ≡ ok 1
unfolding mailboxes attach
attached = refl

abbrev pair_rpc : ℕ → ℕ → Bytes → Result TransportError Bytes × ℕ
pair_rpc =
    link_rpc asks answers turned raft decimal is_open pair 1 2 asks-RoundTrips answers-RoundTrips

consensus-answers_example :
    ((q : ℕ)
      → append_entries asks answers turned pair_rpc 2 5 q ≡ (
        map_err (λ e. RpcError.unreachable (other e)) (counting.append_entries 5 q).0,
        (counting.append_entries 5 q).1,
      ))
    × ((q : ℕ)
        → vote asks answers turned pair_rpc 2 5 q ≡ (
          map_err (λ e. RpcError.unreachable (other e)) (counting.vote 5 q).0,
          (counting.vote 5 q).1,
        ))
    × ((v m : ℕ) (bytes : Bytes)
        → full_snapshot asks answers turned pair_rpc 2 5 v m bytes ≡ (
          map_err
              (λ e. StreamingError.unreachable (other e))
              (counting.install_full_snapshot 5 v m bytes).0,
          (counting.install_full_snapshot 5 v m bytes).1,
        ))
consensus-answers_example =
    consensus-answers asks answers turned raft decimal is_open pair 1 2 asks-RoundTrips
      answers-RoundTrips 1 5 asks-Encodes answers-Encodes attached refl

abbrev Answered : {A : Type 0} → Result Text A × ℕ → A → Type 0
Answered result r =
    (inbox : ℕ) × (mailboxes pair 1 2 ≡ ok inbox) × (is_open inbox ≡ true) × (result ≡ (ok r, 6))

consensus_sound_example :
    ((q r : ℕ)
      → append_entries asks answers turned pair_rpc 2 5 q ≡ (ok r, 6)
      → Answered (counting.append_entries 5 q) r)
    × ((q r : ℕ)
        → vote asks answers turned pair_rpc 2 5 q ≡ (ok r, 6)
        → Answered (counting.vote 5 q) r)
    × ((v m : ℕ) (bytes : Bytes) (r : ℕ)
        → full_snapshot asks answers turned pair_rpc 2 5 v m bytes ≡ (ok r, 6)
        → Answered (counting.install_full_snapshot 5 v m bytes) r)
    × ((q : Ask)
        → Unsent asks answers turned raft decimal is_open pair 1 2 asks-RoundTrips
            answers-RoundTrips 5 q
          ⊎ Reached asks answers turned raft decimal is_open pair 1 2 asks-RoundTrips
              answers-RoundTrips 5 q)
consensus_sound_example =
    consensus_sound asks answers turned raft decimal is_open pair 1 2 asks-RoundTrips
      answers-RoundTrips 5 6
