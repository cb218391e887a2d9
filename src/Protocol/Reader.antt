-- ===== src/Protocol/Reader.antt =====
-- `PacketReader::feed` and `read_packet` of crates/pty-core/src/protocol.rs: the streaming parser
-- over a buffer, and the blocking one over a stream that ends. A `Vec<u8>` is a list; capacity
-- and allocation are left out.
pub mod Step
pub mod Chunks
pub mod Stream
use pty.Base.{
  ℕ, zero, suc, ◌+◌, List, [], ◌∷◌, ◌++◌, Option, none, some, ltb, if◌then◌else◌, length, take,
  drop, Bytes, u32_from_be,
}
use pty.Protocol.Message.{Packet, from_u8}
use pty.Protocol.Encode.{max_packet_length}

-- What one round of the loop finds at the head of the buffer.
pub data Round : Type 0 where
  -- the buffer ends inside the frame
  incomplete : Round
  -- the declared length is over the limit
  too_large : ℕ → Round
  -- a whole packet, and the bytes behind it
  complete : Packet → Bytes → Round

-- One round: `buffer.len() < HEADER_SIZE` is the second clause, and what stands behind the header
-- is compared with the declared length.
unfoldable pub round : Bytes → Round
round (type_byte ∷ b3 ∷ b2 ∷ b1 ∷ b0 ∷ body) =
    let declared = u32_from_be b3 b2 b1 b0 in
    if ltb max_packet_length declared
    then too_large declared
    else if ltb (length body) declared
    then incomplete
    else complete (record { type_ = from_u8 type_byte; payload = take declared body })
        (drop declared body)
round _ = incomplete

-- `io::Result<Vec<Packet>>`; the error carries the length of its message.
pub data Fed : Type 0 where
  packets : List Packet → Fed
  invalid_data : ℕ → Fed

pub record PacketReader : Type 0 where
  pub buffer : Bytes

abbrev pub empty_reader : PacketReader
empty_reader = record { buffer = [] }

-- The loop, on the packets found so far. `none` means that the fuel ran out.
unfoldable pub feed_loop : ℕ → List Packet → Bytes → Option (Fed × PacketReader)
feed_loop zero found buffer = none
feed_loop (suc fuel) found buffer = elim (round buffer) [
  | incomplete ↦ some (packets found, record { buffer = buffer })
  | too_large declared ↦ some (invalid_data declared, empty_reader)
  | complete p rest ↦ feed_loop fuel (found ++ p ∷ []) rest
]

-- Each round drops at least a header, so one unit of fuel for each byte, and one more, suffice.
unfoldable pub feed : PacketReader → Bytes → Option (Fed × PacketReader)
feed r chunk = let buffer = r.buffer ++ chunk in feed_loop (suc (length buffer)) [] buffer

-- A blocking read of one packet from a stream that holds `bytes` and then ends. `eof` is `Ok(None)`,
-- `short_read` the error of the second `read_exact`.
pub data Read : Type 0 where
  eof short_read : Read
  declared_too_large : ℕ → Read
  read : Packet → Bytes → Read

unfoldable pub read_packet : Bytes → Read
read_packet (type_byte ∷ b3 ∷ b2 ∷ b1 ∷ b0 ∷ body) =
    let declared = u32_from_be b3 b2 b1 b0 in
    if ltb max_packet_length declared
    then declared_too_large declared
    else if ltb (length body) declared
    then short_read
    else read (record { type_ = from_u8 type_byte; payload = take declared body })
        (drop declared body)
read_packet _ = eof
