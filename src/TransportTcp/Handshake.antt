-- ===== src/TransportTcp/Handshake.antt =====
-- The handshake of src/transport_tcp.rs: what the accepting side accepts.
use horsie_actor.Base.{
  ℕ, zero, suc, ◌+◌, ◌-◌, ◌≤◌, ◌<◌, ◌≡◌, ◌↔◌, refl, sym, ap, ◌∙◌, true, List, [], ◌∷◌, ◌++◌, foldl,
  length, Bytes, ok, nat_eq, nat_beq_iff, bit_or, bit_xor, u64_mod, u64_to_be_bytes, arith, All,
}
use horsie_actor.TransportTcp.{
  version, take, drop, zip, starts_at, from_be_bytes, proof, hello, differences, check_hello,
}
use horsie_actor.TransportTcp.Digits.{bit_xor-zero, bit_or-zero}

from_be_bytes-u64 : (n : ℕ) → n < u64_mod → from_be_bytes (u64_to_be_bytes n) ≡ n
unfolding u64_to_be_bytes
from_be_bytes-u64 n h = omega arith

abbrev eight : ℕ → ℕ → ℕ → ℕ → ℕ → ℕ → ℕ → ℕ → Bytes
eight a b c d e f g h = a ∷ b ∷ c ∷ d ∷ e ∷ f ∷ g ∷ h ∷ []

u64_to_be_bytes-from :
    (a b c d e f g h : ℕ)
    → All (λ x. x < 256) (eight a b c d e f g h)
    → (u64_to_be_bytes (from_be_bytes (eight a b c d e f g h)) ≡ eight a b c d e f g h)
      × (from_be_bytes (eight a b c d e f g h) < u64_mod)
unfolding u64_to_be_bytes
u64_to_be_bytes-from a b c d e f g h small = ground arith

foldl-zero :
    (ps : List (ℕ × ℕ)) (diff : ℕ)
    → (foldl (λ diff p. bit_or diff (bit_xor p.0 p.1)) diff ps ≡ 0)
      ↔ ((diff ≡ 0) × All (λ p. p.0 ≡ p.1) ps)
foldl-zero [] diff = (λ h. (h, tt), λ h. h.0)
foldl-zero (p ∷ ps) diff = (
  λ h.
      let (here, later) = (foldl-zero ps (bit_or diff (bit_xor p.0 p.1))).0 h in
      let (before, same) = (bit_or-zero diff (bit_xor p.0 p.1)).0 here in
      (before, ((bit_xor-zero p.0 p.1).0 same, later)),
  λ h.
      (foldl-zero ps (bit_or diff (bit_xor p.0 p.1))).1
        ((bit_or-zero diff (bit_xor p.0 p.1)).1 (h.0, (bit_xor-zero p.0 p.1).1 h.1.0), h.1.1),
)

zip-same : (xs ys : Bytes) → length xs ≡ length ys → All (λ p. p.0 ≡ p.1) (zip xs ys) → xs ≡ ys
zip-same [] [] l a = refl
zip-same [] (y ∷ ys) l a = absurd (omega (arith, l))
zip-same (x ∷ xs) [] l a = absurd (omega (arith, l))
zip-same (x ∷ xs) (y ∷ ys) l a = rw (a.0, zip-same xs ys (omega (arith, l)) a.1) refl

zip_self : (xs : Bytes) → All (λ p. p.0 ≡ p.1) (zip xs xs)
zip_self [] = tt
zip_self (x ∷ xs) = (refl, zip_self xs)

-- The comparison finds no difference between bytes of one length exactly if they are equal.
pub differences-zero : (xs ys : Bytes) → length xs ≡ length ys → (differences xs ys ≡ 0) ↔ (xs ≡ ys)
unfolding differences
differences-zero xs ys l = (
  λ h. zip-same xs ys l ((foldl-zero (zip xs ys) 0).0 h).1,
  λ e. (foldl-zero (zip xs ys) 0).1 (refl, rw (← e) (zip_self xs)),
)

take-drop : (n : ℕ) (xs : Bytes) → take n xs ++ drop n xs ≡ xs
unfolding take drop
take-drop zero xs = refl
take-drop (suc n) [] = refl
take-drop (suc n) (x ∷ xs) = ap (λ ys. x ∷ ys) (take-drop n xs)

drop_nil : (n : ℕ) → drop n [] ≡ []
unfolding drop
drop_nil zero = refl
drop_nil (suc n) = refl

drop-drop : (m n : ℕ) (xs : Bytes) → drop m (drop n xs) ≡ drop (n + m) xs
unfolding drop
drop-drop m zero xs = ap (λ k. drop k xs) (omega arith)
drop-drop m (suc n) [] = drop_nil m ∙ sym (drop_nil (suc n + m))
drop-drop m (suc n) (x ∷ xs) =
    let count : suc (n + m) ≡ suc n + m = omega arith in
    drop-drop m n xs ∙ ap (λ k. drop k (x ∷ xs)) count

length-drop : (n : ℕ) (xs : Bytes) → length (drop n xs) ≡ length xs - n
unfolding drop
length-drop zero xs = omega arith
length-drop (suc n) [] = omega arith
length-drop (suc n) (x ∷ xs) = omega (arith, length-drop n xs)

drop-All : (n : ℕ) (xs : Bytes) → All (λ x. x < 256) xs → All (λ x. x < 256) (drop n xs)
unfolding drop
drop-All zero xs a = a
drop-All (suc n) [] a = tt
drop-All (suc n) (x ∷ xs) a = drop-All n xs a.1

-- The first eight bytes are those of the number that they make.
word_at :
    (xs : Bytes)
    → 8 ≤ length xs
    → All (λ x. x < 256) xs
    → (u64_to_be_bytes (from_be_bytes (take 8 xs)) ≡ take 8 xs)
      × (from_be_bytes (take 8 xs) < u64_mod)
unfolding take
word_at (a ∷ b ∷ c ∷ d ∷ e ∷ f ∷ g ∷ h ∷ rest) long small = u64_to_be_bytes-from a b c d e f g h (
  small.0,
  (
    small.1.0,
    (
      small.1.1.0,
      (
        small.1.1.1.0,
        (small.1.1.1.1.0, (small.1.1.1.1.1.0, (small.1.1.1.1.1.1.0, (small.1.1.1.1.1.1.1.0, tt)))),
      ),
    ),
  ),
)
word_at _ long small = absurd (omega (arith, long))

-- What follows the version, from its parts.
parts :
    (ys given : Bytes)
    → 16 ≤ length ys
    → All (λ x. x < 256) ys
    → given ≡ drop 16 ys
    → u64_to_be_bytes (from_be_bytes (take 8 ys))
        ++ (u64_to_be_bytes (from_be_bytes (take 8 (drop 8 ys))) ++ given)
      ≡ ys
parts ys given long small e =
    let node = word_at ys (omega (arith, long)) small in
    let nonce = word_at (drop 8 ys) (omega (arith, length-drop 8 ys, long)) (drop-All 8 ys small) in
    rw (node.0, nonce.0, e, sym (drop-drop 8 8 ys), take-drop 8 (drop 8 ys), take-drop 8 ys) refl

module _ (sha256 : Bytes → Bytes) where
  abbrev node_in : Bytes → ℕ
  node_in frame = from_be_bytes (take 8 (drop 1 frame))

  abbrev nonce_in : Bytes → ℕ
  nonce_in frame = from_be_bytes (take 8 (drop 9 frame))

  abbrev Passes : Bytes → Bytes → Type 0
  Passes secret frame =
      (length frame ≡ 49)
      × (starts_at frame version ≡ true)
      × (differences (proof sha256 secret (node_in frame) (nonce_in frame)) (drop 17 frame) ≡ 0)

  check_hello-Passes :
      (secret frame : Bytes) → (check_hello sha256 secret frame ≡ ok tt) ↔ Passes secret frame
  unfolding check_hello
  check_hello-Passes secret frame = ground arith

  Passes-hello :
      (secret frame : Bytes)
      → ((text : Bytes) → length (sha256 text) ≡ 32)
      → All (λ x. x < 256) frame
      → Passes secret frame
      → (frame ≡ hello sha256 secret (node_in frame) (nonce_in frame))
        × (node_in frame < u64_mod)
        × (nonce_in frame < u64_mod)
  unfolding hello proof drop
  Passes-hello secret [] size small h = absurd (omega (arith, h.0))
  Passes-hello secret (v ∷ ys) size small h =
      let long : length ys ≡ 48 = omega (arith, h.0) in
      let first : v ≡ 1 = (nat_beq_iff v 1).0 h.1 in
      let text =
        secret ++ (u64_to_be_bytes (node_in (v ∷ ys)) ++ u64_to_be_bytes (nonce_in (v ∷ ys))) in
      let given : proof sha256 secret (node_in (v ∷ ys)) (nonce_in (v ∷ ys)) ≡ drop 16 ys =
        (differences-zero (sha256 text) (drop 16 ys)
            (omega (arith, size text, length-drop 16 ys, long))).0
          h.2 in
      (
        rw (first, parts ys (sha256 text) (omega (arith, long)) small.1 given) refl,
        (word_at ys (omega (arith, long)) small.1).1,
        (word_at (drop 8 ys) (omega (arith, length-drop 8 ys, long)) (drop-All 8 ys small.1)).1,
      )

  hello-Passes :
      (secret : Bytes) (node nonce : ℕ)
      → ((text : Bytes) → length (sha256 text) ≡ 32)
      → node < u64_mod
      → nonce < u64_mod
      → Passes secret (hello sha256 secret node nonce)
  unfolding hello proof take drop u64_to_be_bytes
  hello-Passes secret node nonce size n c =
      let made = proof sha256 secret node nonce in
      (
        omega (arith, size (secret ++ (u64_to_be_bytes node ++ u64_to_be_bytes nonce))),
        refl,
        rw (from_be_bytes-u64 node n, from_be_bytes-u64 nonce c)
            ((differences-zero made made refl).1 refl),
      )

  -- The opening frame of a peer that knows the secret has 49 bytes and is accepted.
  pub check_hello-own :
      (secret : Bytes) (node nonce : ℕ)
      → ((text : Bytes) → length (sha256 text) ≡ 32)
      → node < u64_mod
      → nonce < u64_mod
      → (length (hello sha256 secret node nonce) ≡ 49)
        × (check_hello sha256 secret (hello sha256 secret node nonce) ≡ ok tt)
  check_hello-own secret node nonce size n c =
      let passes = hello-Passes secret node nonce size n c in
      (passes.0, (check_hello-Passes secret (hello sha256 secret node nonce)).1 passes)

  -- Where the hash has 32 bytes: of the frames of bytes, the accepting side accepts exactly those that
  -- a peer that knows the secret opens a connection with, for some node and some nonce.
  pub check_hello-hello :
      (secret frame : Bytes)
      → ((text : Bytes) → length (sha256 text) ≡ 32)
      → All (λ x. x < 256) frame
      → (check_hello sha256 secret frame ≡ ok tt) ↔ (
          (node : ℕ) × (nonce : ℕ) × (node < u64_mod)
          × (nonce < u64_mod)
          × (frame ≡ hello sha256 secret node nonce))
  check_hello-hello secret frame size small = (
    λ h.
        let (whole, n, c) =
          Passes-hello secret frame size small ((check_hello-Passes secret frame).0 h) in
        (node_in frame, nonce_in frame, n, c, whole),
    λ h.
        let (node, nonce, n, c, e) = h in
        (check_hello-Passes secret frame).1 (rw e (hello-Passes secret node nonce size n c)),
  )
