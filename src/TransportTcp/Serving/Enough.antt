-- ===== src/TransportTcp/Serving/Enough.antt =====
-- The fuel of the loop of `serve`, in src/transport_tcp.rs.
use horsie_actor.Base.{
  ℕ, zero, suc, ◌<◌, ◌≡◌, refl, ap, Bool, Option, [], ◌∷◌, length, Bytes, ok, ltb, arith,
  Result-cases, Option-cases, Bool-cases, inl, inr, ◌+◌,
}
use horsie_actor.TransportTcp.{max_frame, read_exact, read_frame_from, from_be_bytes}
use horsie_actor.TransportTcp.Peer.{Frame, Accepted, serve_frame}
use horsie_actor.TransportTcp.Serving.{serve_loop}

-- Reading takes what it gives off the front.
read_exact-length :
    (n : ℕ) (stream a b : Bytes) → read_exact n stream ≡ ok (a, b) → n + length b ≡ length stream
unfolding read_exact
read_exact-length zero stream a b h =
    let same : stream ≡ b = ground (arith, h) in let sizes = ap length same in omega (arith, sizes)
read_exact-length (suc n) [] a b h = absurd (ground (arith, h))
read_exact-length (suc n) (x ∷ stream) a b h = elim (Result-cases (read_exact n stream)) [
  | inr (e, q) ↦ absurd (ground (arith, rw q at h))
  | inl ((c, d), q) ↦
      let same : d ≡ b = ground (arith, rw q at h) in
      let shorter = read_exact-length n stream c d q in
      let sizes = ap length same in omega (arith, shorter, sizes)
]

pub read_frame_from-length :
    (stream a b : Bytes) → read_frame_from stream ≡ ok (a, b) → length b < length stream
unfolding read_frame_from
read_frame_from-length stream a b h = elim (Result-cases (read_exact 4 stream)) [
  | inr (e, q) ↦ absurd (ground (arith, rw q at h))
  | inl ((c, d), q) ↦
      let head = read_exact-length 4 stream c d q in
      elim (Bool-cases (ltb max_frame (from_be_bytes c))) [
        | inl large ↦ absurd (ground (arith, rw (q, large) at h))
        | inr small ↦
            let rest = read_exact-length (from_be_bytes c) d a b (rw (q, small) at h) in
            omega (arith, head, rest)
      ]
]

-- Any fuel beyond the bytes of the stream gives what the fuel that `serve` uses gives.
pub serve_loop_enough :
    (decode : Bytes → Option Frame) (reads : Accepted → Bool × Bool) (n m : ℕ) (s : Accepted)
    (stream : Bytes)
    → length stream < n
    → length stream < m
    → serve_loop decode reads n s stream ≡ serve_loop decode reads m s stream
unfolding serve_loop
serve_loop_enough decode reads zero m s stream h k = absurd (omega (arith, h))
serve_loop_enough decode reads (suc n) zero s stream h k = absurd (omega (arith, k))
serve_loop_enough decode reads (suc n) (suc m) s stream h k =
    elim (Result-cases (read_frame_from stream)) [
      | inr (e, q) ↦ rw (serve_loop, q) refl
      | inl ((a, b), q) ↦
          let shorter = read_frame_from-length stream a b q in
          elim (Option-cases (decode a)) [
            | inl none_read ↦ rw (serve_loop, q, none_read) refl
            | inr (f, is) ↦ elim (Option-cases (serve_frame (reads s).0 (reads s).1 s f)) [
              | inl shut ↦ rw (serve_loop, q, is, shut) refl
              | inr (t, step) ↦
                  rw (serve_loop, q, is, step)
                    (serve_loop_enough decode reads n m t b (omega (arith, h, shorter))
                      (omega (arith, k, shorter)))
            ]
          ]
    ]
