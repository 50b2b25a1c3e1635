-- ===== src/TransportTcp/Serving/Sent.antt =====
-- What `serve` of src/transport_tcp.rs makes of what a dialling side wrote.
use horsie_actor.Base.{
  ℕ, zero, suc, ◌≤◌, ◌<◌, ◌≡◌, refl, ap, ◌∙◌, Bool, true, false, Option, some, List, [], ◌∷◌, ◌++◌,
  map, length, Bytes, ok, err, ltb, u32_mod, u64_mod, u32_to_be_bytes, length-append, arith, All,
  Result-cases, Bool-cases, inl, inr,
}
use horsie_actor.TransportTcp.{
  unexpected_eof, max_frame, version, write_frame, read_exact, read_frame_from, hello,
}
use horsie_actor.TransportTcp.Frames.{read_frame_from-write_frame, write_frames}
use horsie_actor.TransportTcp.Peer.{Frame, Accepted, serve_frame}
use horsie_actor.TransportTcp.Handshake.{check_hello-own}
use horsie_actor.TransportTcp.Serving.{nothing, serve_loop, serve}

-- What the frames are to a node that takes everything.
abbrev pub handed : Accepted → List Frame → Accepted
handed s [] = s
handed s (Frame.message m ∷ frames) = handed (record s { messages = s.messages ++ m ∷ [] }) frames
handed s (Frame.request id payload ∷ frames) =
    handed (record s { requests = s.requests ++ (id, payload) ∷ [] }) frames
handed s (Frame.response _ _ ∷ frames) = handed s frames

abbrev pub always : Accepted → Bool × Bool
always s = (true, true)

pub serve_frame-always :
    (s : Accepted) (f : Frame) (fs : List Frame)
    → (t : Accepted) × (serve_frame true true s f ≡ some t) × (handed t fs ≡ handed s (f ∷ fs))
unfolding serve_frame
serve_frame-always s (Frame.message m) fs = (_, refl, refl)
serve_frame-always s (Frame.request id p) fs = (_, refl, refl)
serve_frame-always s (Frame.response id p) fs = (_, refl, refl)

write_frame-long : (bytes out : Bytes) → write_frame bytes ≡ ok out → 1 ≤ length out
unfolding write_frame u32_to_be_bytes
write_frame-long bytes out h = elim (Bool-cases (ltb (length bytes) u32_mod)) [
  | inr large ↦ absurd (ground (arith, rw large at h))
  | inl fits ↦
      let whole : u32_to_be_bytes (length bytes) ++ bytes ≡ out = ground (arith, rw fits at h) in
      let sizes = ap length whole in omega (arith, sizes)
]

-- There are no more frames than bytes.
write_frames-length :
    (encode : Frame → Bytes) (frames : List Frame) (out : Bytes)
    → write_frames (map encode frames) ≡ ok out
    → length frames ≤ length out
write_frames-length encode [] out h = omega arith
write_frames-length encode (f ∷ frames) out h = elim (Result-cases (write_frame (encode f))) [
  | inr (e, q) ↦ absurd (ground (arith, rw q at h))
  | inl (first, q) ↦ elim (Result-cases (write_frames (map encode frames))) [
    | inr (e, r) ↦ absurd (ground (arith, rw (q, r) at h))
    | inl (later, r) ↦
        let whole : first ++ later ≡ out = ground (arith, rw (q, r) at h) in
        let sizes = ap length whole ∙ refl in
        let more = write_frames-length encode frames later r in
        omega (arith, sizes, more, length-append first later, write_frame-long (encode f) first q)
  ]
]

module _ (encode : Frame → Bytes) (decode : Bytes → Option Frame) where
  serve_loop-sent :
      (fuel : ℕ) (s : Accepted) (frames : List Frame) (out : Bytes)
      → All (λ f. decode (encode f) ≡ some f) frames
      → All (λ f. length (encode f) ≤ max_frame) frames
      → write_frames (map encode frames) ≡ ok out
      → length frames < fuel
      → serve_loop decode always fuel s out ≡ (err unexpected_eof, handed s frames)
  unfolding serve_loop
  serve_loop-sent zero s frames out back fit wrote more = absurd (omega (arith, more))
  serve_loop-sent (suc fuel) s [] out back fit wrote more =
      let empty : [] ≡ out = ground (arith, wrote) in
      rw (← empty) (unfold read_frame_from read_exact in refl)
  serve_loop-sent (suc fuel) s (f ∷ frames) out back fit wrote more =
      let (first, written, reads) =
        (read_frame_from-write_frame (encode f)).0 (omega (arith, fit.0)) in
      elim (Result-cases (write_frames (map encode frames))) [
        | inr (e, q) ↦ absurd (ground (arith, rw (written, q) at wrote))
        | inl (later, q) ↦
            let whole : first ++ later ≡ out = ground (arith, rw (written, q) at wrote) in
            let small : ltb max_frame (length (encode f)) ≡ false = ground (arith, fit.0) in
            let (t, step, same) = serve_frame-always s f frames in
            rw (← whole, serve_loop, reads later, small, back.0, step, ← same)
              (serve_loop-sent fuel t frames later back.1 fit.1 q (omega (arith, more)))
      ]

-- The accepting side of a connection, over all that the dialling side wrote before it closed: the
-- opening frame, with the shared secret, a node and a nonce, then frames of at most the maximum that
-- decode as what they were encoded from. It answers the opening frame with the version, and hands to a
-- node that takes everything the messages and the requests of those frames, each once and in order;
-- it ends when the stream does. The hash has 32 bytes.
pub serve-sent :
    (sha256 : Bytes → Bytes) (encode : Frame → Bytes) (decode : Bytes → Option Frame)
    → ((text : Bytes) → length (sha256 text) ≡ 32)
    → (secret : Bytes) (node nonce : ℕ) → node < u64_mod
    → nonce < u64_mod
    → (frames : List Frame) (stream : Bytes) → All (λ f. decode (encode f) ≡ some f) frames
    → All (λ f. length (encode f) ≤ max_frame) frames
    → write_frames (hello sha256 secret node nonce ∷ map encode frames) ≡ ok stream
    → serve decode always sha256 secret stream ≡ record {
      outcome = err unexpected_eof;
      written = 0 ∷ 0 ∷ 0 ∷ 1 ∷ version ∷ [];
      accepted = handed nothing frames;
    }
unfolding serve
serve-sent sha256 encode decode size secret node nonce n c frames stream back fit wrote =
    let opening = hello sha256 secret node nonce in
    let (long, passes) = check_hello-own sha256 secret node nonce size n c in
    let (first, written, reads) = (read_frame_from-write_frame opening).0 (omega (arith, long)) in
    elim (Result-cases (write_frames (map encode frames))) [
      | inr (e, q) ↦ absurd (ground (arith, rw (written, q) at wrote))
      | inl (later, q) ↦
          let whole : first ++ later ≡ stream = ground (arith, rw (written, q) at wrote) in
          let small : ltb max_frame (length opening) ≡ false = ground (arith, long) in
          let many = write_frames-length encode frames later q in
          let loop =
            serve_loop-sent encode decode (suc (length later)) nothing frames later back fit q
              (omega (arith, many)) in
          rw (← whole, serve, reads later, small, passes, loop)
            (unfold write_frame u32_to_be_bytes in refl)
    ]
