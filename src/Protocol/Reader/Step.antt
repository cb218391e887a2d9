-- ===== src/Protocol/Reader/Step.antt =====
-- One round of the reader's loop: it shrinks the buffer, does not look behind its frame, and
-- reads back an encoded packet.
use pty.Base.{
  ℕ, ◌+◌, ◌≤◌, ◌≡◌, arith, ◌∷◌, ◌++◌, length, Bytes, u32_from_be, length-append, length-drop,
  take-append_left, drop-append_left, take-length, drop-length, u32_to_be, u32_from-to,
  le→ltb-false,
}
use pty.Protocol.Message.{Packet, IsCanonical}
use pty.Protocol.Encode.{max_packet_length, header_size, encode, encode_packet}
use pty.Protocol.Reader.{too_large, complete, round}

pub round_shrinks :
    (buffer : Bytes) {p : Packet} {rest : Bytes}
    → round buffer ≡ complete p rest
    → length rest + header_size ≤ length buffer
unfolding round
round_shrinks (t ∷ b3 ∷ b2 ∷ b1 ∷ b0 ∷ body) h =
    ground (arith, length-drop (u32_from_be b3 b2 b1 b0) body)
round_shrinks _ h = cc

-- A frame that is whole stays what it is, whatever arrives behind it.
pub round-append_complete :
    (buffer later : Bytes) {p : Packet} {rest : Bytes}
    → round buffer ≡ complete p rest
    → round (buffer ++ later) ≡ complete p (rest ++ later)
unfolding round
round-append_complete (t ∷ b3 ∷ b2 ∷ b1 ∷ b0 ∷ body) later h =
    let n = u32_from_be b3 b2 b1 b0 in
    ground (
      arith,
      length-append body later,
      take-append_left n body later,
      drop-append_left n body later,
    )
round-append_complete _ later h = cc

pub round-append_too_large :
    (buffer later : Bytes) {n : ℕ}
    → round buffer ≡ too_large n
    → round (buffer ++ later) ≡ too_large n
unfolding round
round-append_too_large (t ∷ b3 ∷ b2 ∷ b1 ∷ b0 ∷ body) later h = ground arith
round-append_too_large _ later h = cc

-- A packet that the protocol can carry: its type is one that a byte stands for, and its payload
-- is within the limit.
pub record IsSendable (p : Packet) : Type 0 where
  pub canonical : IsCanonical p.type_
  pub within : length p.payload ≤ max_packet_length

pub round-encode :
    (p : Packet) (rest : Bytes) → IsSendable p → round (encode p ++ rest) ≡ complete p rest
unfolding round encode encode_packet u32_to_be
round-encode p rest s = rw (u32_from-to (length p.payload) (omega (arith, s.within))) (
    rw (le→ltb-false max_packet_length (length p.payload) s.within) (
      rw
        (le→ltb-false (length (p.payload ++ rest)) (length p.payload)
          (omega (arith, length-append p.payload rest)))
        (rw (take-length p.payload rest, drop-length p.payload rest, s.canonical))))
