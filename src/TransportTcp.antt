-- ===== src/TransportTcp.antt =====
-- The wire of src/transport_tcp.rs: frames, and the handshake that opens a connection. A stream is the
-- list of the bytes that are still to be read. SHA-256 is a parameter.
pub mod Digits
pub mod Frames
pub mod Handshake
pub mod Peer
pub mod Connections
pub mod Serving
pub mod Listening
use horsie_actor.Base.{
  ℕ, zero, suc, ◌+◌, ◌*◌, Bool, true, false, not, ◌||◌, Option, none, some, List, [], ◌∷◌, ◌++◌,
  foldl, length, Bytes, Result, ok, err, ◌>>=◌, ◌==◌, nat_eq, ltb, bit_or, bit_xor, if◌then◌else◌,
  u32_mod, u32_to_be_bytes, u64_to_be_bytes,
}

-- `std::io::ErrorKind`, as far as it is used.
pub data ErrorKind : Type 0 where
  invalid_data permission_denied unexpected_eof : ErrorKind

abbrev pub max_frame : ℕ
max_frame = 8 * 1024 * 1024

abbrev pub version : ℕ
version = 1

-- What `write_frame` puts on the stream.
unfoldable pub write_frame : Bytes → Result ErrorKind Bytes
unfolding u32_to_be_bytes
write_frame bytes =
    if ltb (length bytes) u32_mod
    then ok (u32_to_be_bytes (length bytes) ++ bytes)
    else err invalid_data

-- The bytes that are read, and the rest.
unfoldable pub read_exact : ℕ → Bytes → Result ErrorKind (Bytes × Bytes)
read_exact zero stream = ok ([], stream)
read_exact (suc n) [] = err unexpected_eof
read_exact (suc n) (b ∷ stream) = read_exact n stream >>= λ got. ok (b ∷ got.0, got.1)

-- `u32::from_be_bytes` and `u64::from_be_bytes`.
abbrev pub from_be_bytes : Bytes → ℕ
from_be_bytes = foldl (λ n b. n * 256 + b) 0

unfoldable pub read_frame_from : Bytes → Result ErrorKind (Bytes × Bytes)
unfolding read_exact
read_frame_from stream = read_exact 4 stream >>= λ head.
    let len = from_be_bytes head.0 in
    if ltb max_frame len then err invalid_data else read_exact len head.1

unfoldable pub take : ℕ → Bytes → Bytes
take zero xs = []
take (suc n) [] = []
take (suc n) (x ∷ xs) = x ∷ take n xs

unfoldable pub drop : ℕ → Bytes → Bytes
drop zero xs = xs
drop (suc n) [] = []
drop (suc n) (x ∷ xs) = drop n xs

abbrev pub zip : Bytes → Bytes → List (ℕ × ℕ)
zip [] ys = []
zip (x ∷ xs) [] = []
zip (x ∷ xs) (y ∷ ys) = (x, y) ∷ zip xs ys

abbrev pub starts_at : Bytes → ℕ → Bool
starts_at [] v = false
starts_at (b ∷ bs) v = b == v

-- Every byte is compared.
unfoldable pub differences : Bytes → Bytes → ℕ
differences expected given = foldl (λ diff p. bit_or diff (bit_xor p.0 p.1)) 0 (zip expected given)

module _ (sha256 : Bytes → Bytes) where
  unfoldable pub proof : Bytes → ℕ → ℕ → Bytes
  unfolding u64_to_be_bytes
  proof secret node nonce = sha256 (secret ++ (u64_to_be_bytes node ++ u64_to_be_bytes nonce))

  -- The first frame that `handshake_out` writes.
  unfoldable pub hello : Bytes → ℕ → ℕ → Bytes
  unfolding proof u64_to_be_bytes
  hello secret local nonce =
      version ∷ (u64_to_be_bytes local ++ (u64_to_be_bytes nonce ++ proof secret local nonce))

  -- What `serve` asks of that frame before it reads another.
  unfoldable pub check_hello : Bytes → Bytes → Result ErrorKind (Unit {0})
  unfolding proof differences take drop
  check_hello secret frame =
      if not (length frame == 1 + 8 + 8 + 32) || not (starts_at frame version)
      then err invalid_data
      else let node = from_be_bytes (take 8 (drop 1 frame)) in
        let nonce = from_be_bytes (take 8 (drop 9 frame)) in
        let expected = proof secret node nonce in
        if not (differences expected (drop 17 frame) == 0) then err permission_denied else ok tt

  -- The rest of `handshake_out`: the answer has to start with the version.
  unfoldable pub check_reply : Bytes → Result ErrorKind (Unit {0})
  check_reply reply = if starts_at reply version then ok tt else err invalid_data
