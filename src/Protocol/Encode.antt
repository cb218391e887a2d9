-- ===== src/Protocol/Encode.antt =====
-- The packet encoders and payload decoders of crates/pty-core/src/protocol.rs whose payloads
-- hold no JSON. A `u16` argument is a number; one past the range wraps in `u16_to_be`.
pub mod RoundTrip
use pty.Base.{
  ℕ, suc, ◌+◌, ◌*◌, ◌/◌, ◌%◌, Bool, true, false, ◌&&◌, not, List, [], ◌∷◌, ◌++◌, Option, none, some,
  ltb, ◌==◌, if◌then◌else◌, length, Bytes, ℤ, pos, negsuc, u16_to_be, u16_from_be, u32_to_be,
  u32_from_be, i32_bits, i32_of_bits,
}
use pty.Protocol.Message.{
  MessageType, data_message, attach, detach, resize, exit, screen, peek, status, geometry,
  connection_error, as_u8, Packet,
}

abbrev pub header_size : ℕ
header_size = 5

-- 32 MiB.
abbrev pub max_packet_length : ℕ
max_packet_length = 33554432

unfoldable pub encode_packet : MessageType → Bytes → Bytes
encode_packet type_ payload = as_u8 type_ ∷ (u32_to_be (length payload) ++ payload)

-- `Packet::encode`.
unfoldable pub encode : Packet → Bytes
unfolding encode_packet
encode p = encode_packet p.type_ p.payload

unfoldable pub encode_data : Bytes → Bytes
encode_data d = encode_packet data_message d

unfoldable pub size_payload : ℕ → ℕ → Bytes
size_payload rows cols = u16_to_be rows ++ u16_to_be cols

unfoldable pub size_cell_payload : ℕ → ℕ → ℕ → ℕ → Bytes
unfolding size_payload
size_cell_payload rows cols cell_width cell_height =
    size_payload rows cols ++ (u16_to_be cell_width ++ u16_to_be cell_height)

unfoldable pub encode_attach : ℕ → ℕ → Bytes
unfolding size_payload
encode_attach rows cols = encode_packet attach (size_payload rows cols)

unfoldable pub encode_attach_with_cell : ℕ → ℕ → ℕ → ℕ → Bytes
unfolding size_cell_payload
encode_attach_with_cell rows cols cell_width cell_height =
    encode_packet attach (size_cell_payload rows cols cell_width cell_height)

unfoldable pub encode_detach : Bytes
encode_detach = encode_packet detach []

pub data ConnectionErrorReason : Type 0 where
  client_too_slow : ConnectionErrorReason

unfoldable pub encode_connection_error : ConnectionErrorReason → Bytes
encode_connection_error client_too_slow = as_u8 connection_error ∷ 0 ∷ 0 ∷ 0 ∷ 1 ∷ 0 ∷ []

unfoldable pub decode_connection_error : Bytes → Option ConnectionErrorReason
decode_connection_error [] = none
decode_connection_error (b ∷ []) = if b == 0 then some client_too_slow else none
decode_connection_error (b ∷ c ∷ rest) = none

unfoldable pub encode_resize : ℕ → ℕ → Bytes
unfolding size_payload
encode_resize rows cols = encode_packet resize (size_payload rows cols)

unfoldable pub encode_resize_with_cell : ℕ → ℕ → ℕ → ℕ → Bytes
unfolding size_cell_payload
encode_resize_with_cell rows cols cell_width cell_height =
    encode_packet resize (size_cell_payload rows cols cell_width cell_height)

unfoldable pub encode_geometry : ℕ → ℕ → Bytes
unfolding size_payload
encode_geometry rows cols = encode_packet geometry (size_payload rows cols)

unfoldable pub exit_payload : ℤ → Bytes
exit_payload code = u32_to_be (i32_bits code)

unfoldable pub encode_exit : ℤ → Bytes
unfolding exit_payload
encode_exit code = encode_packet exit (exit_payload code)

-- `plain as u8 | (full as u8) << 1`.
unfoldable pub peek_flags : Bool → Bool → ℕ
peek_flags plain full = (if plain then 1 else 0) + (if full then 2 else 0)

unfoldable pub encode_peek : Bool → Bool → Bytes
unfolding peek_flags
encode_peek plain full = encode_packet peek (peek_flags plain full ∷ [])

-- `flags & 1 != 0` and `flags & 2 != 0`, with no flags for an empty payload.
unfoldable pub decode_peek : Bytes → Bool × Bool
decode_peek [] = (false, false)
decode_peek (flags ∷ rest) = (not (flags % 2 == 0), not (flags / 2 % 2 == 0))

unfoldable pub encode_screen : Bytes → Bytes
encode_screen d = encode_packet screen d

unfoldable pub encode_status : Bytes
encode_status = encode_packet status []

-- Rows and columns of a size payload, 24 by 80 if it is short.
unfoldable pub decode_size : Bytes → ℕ × ℕ
decode_size (r1 ∷ r0 ∷ c1 ∷ c0 ∷ rest) = (u16_from_be r1 r0, u16_from_be c1 c0)
decode_size _ = (24, 80)

unfoldable pub decode_geometry : Bytes → ℕ × ℕ
unfolding decode_size
decode_geometry payload = decode_size payload

-- The cell pixels behind a size, if they are there and neither is zero.
unfoldable pub decode_cell : Bytes → Option (ℕ × ℕ)
decode_cell (r1 ∷ r0 ∷ c1 ∷ c0 ∷ w1 ∷ w0 ∷ h1 ∷ h0 ∷ rest) =
    let width = u16_from_be w1 w0 in
    let height = u16_from_be h1 h0 in
    if ltb 0 width && ltb 0 height then some (width, height) else none
decode_cell _ = none

-- The exit code, -1 if the payload is short.
unfoldable pub decode_exit : Bytes → ℤ
decode_exit (b3 ∷ b2 ∷ b1 ∷ b0 ∷ rest) = i32_of_bits (u32_from_be b3 b2 b1 b0)
decode_exit _ = negsuc 0
