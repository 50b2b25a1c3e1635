-- ===== src/TransportTcp/Frames.antt =====
-- Frames of src/transport_tcp.rs that are written and read back.
use horsie_actor.Base.{
  ℕ, zero, suc, ◌≤◌, ◌<◌, ◌≡◌, refl, false, List, [], ◌∷◌, ◌++◌, length, Bytes, Result, ok, err,
  ◌>>=◌, ltb, u32_mod, u32_to_be_bytes, if◌then◌else◌, arith, All,
}
use mathlib.Core.List.{append_assoc}
use horsie_actor.TransportTcp.{
  ErrorKind, invalid_data, max_frame, write_frame, read_exact, read_frame_from, from_be_bytes,
}

read_exact-append : (xs ys : Bytes) → read_exact (length xs) (xs ++ ys) ≡ ok (xs, ys)
unfolding read_exact
read_exact-append [] ys = refl
read_exact-append (x ∷ xs) ys = rw (read_exact-append xs ys) refl

from_be_bytes-u32 : (n : ℕ) → n < u32_mod → from_be_bytes (u32_to_be_bytes n) ≡ n
unfolding u32_to_be_bytes
from_be_bytes-u32 n h = omega arith

read_framed :
    (bytes rest : Bytes)
    → length bytes < u32_mod
    → read_frame_from (u32_to_be_bytes (length bytes) ++ (bytes ++ rest))
      ≡ (if ltb max_frame (length bytes) then err invalid_data else ok (bytes, rest))
unfolding read_frame_from read_exact u32_to_be_bytes
read_framed bytes rest h =
    rw (from_be_bytes-u32 (length bytes) h, read_exact-append bytes rest) refl

-- A frame of at most the maximum is written, and is read back from the front of whatever follows it;
-- one that is longer, up to the range of the length, is written as well, and reading it is an error;
-- beyond that range writing it is one.
pub read_frame_from-write_frame :
    (bytes : Bytes)
    → (length bytes < u32_mod
        → (out : Bytes) × (write_frame bytes ≡ ok out)
          × ((rest : Bytes)
              → read_frame_from (out ++ rest)
                ≡ (if ltb max_frame (length bytes) then err invalid_data else ok (bytes, rest))))
      × (u32_mod ≤ length bytes → write_frame bytes ≡ err invalid_data)
unfolding write_frame
read_frame_from-write_frame bytes = (
  λ h. (
    u32_to_be_bytes (length bytes) ++ bytes,
    ground (arith, h),
    λ rest.
        rw (append_assoc (u32_to_be_bytes (length bytes)) bytes rest) (read_framed bytes rest h),
  ),
  λ h. ground (arith, h),
)

-- The frames that a sender writes, one after the other.
abbrev pub write_frames : List Bytes → Result ErrorKind Bytes
write_frames [] = ok []
write_frames (frame ∷ frames) =
    write_frame frame >>= λ out. write_frames frames >>= λ later. ok (out ++ later)

abbrev pub read_frames : ℕ → Bytes → Result ErrorKind (List Bytes × Bytes)
read_frames zero stream = ok ([], stream)
read_frames (suc n) stream =
    read_frame_from stream >>= λ got. read_frames n got.1 >>= λ later. ok (got.0 ∷ later.0, later.1)

-- Frames of at most the maximum that are written one after the other are read back as they were, in
-- order, and leave what follows them.
pub read_frames-write_frames :
    (frames : List Bytes)
    → All (λ frame. length frame ≤ max_frame) frames
    → (out : Bytes) × (write_frames frames ≡ ok out)
      × ((rest : Bytes) → read_frames (length frames) (out ++ rest) ≡ ok (frames, rest))
read_frames-write_frames [] fit = ([], refl, λ rest. refl)
read_frames-write_frames (frame ∷ frames) fit =
    let (out, written, back) = (read_frame_from-write_frame frame).0 (omega (arith, fit.0)) in
    let (later, wrote, read) = read_frames-write_frames frames fit.1 in
    let small : ltb max_frame (length frame) ≡ false = ground (arith, fit.0) in
    (
      out ++ later,
      rw (written, wrote) refl,
      λ rest. rw (append_assoc out later rest, back (later ++ rest), small, read rest) refl,
    )
