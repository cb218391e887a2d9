-- ===== src/Protocol/Tests.antt =====
-- Runs and instances of the wire protocol's theorems.
use pty.Base.{
  ◌≡◌, ◌↔◌, refl, arith, List, [], ◌∷◌, ◌++◌, some, Bytes, negsuc, u32_to_be, u32_from_be,
}
use pty.Protocol.Message.{data_message, resize, from_u8, as_u8, Packet}
use pty.Protocol.Encode.{
  encode, size_cell_payload, decode_size, decode_cell, exit_payload, decode_exit, client_too_slow,
  decode_connection_error,
}
use pty.Protocol.Encode.RoundTrip.{decode-size_cell_payload, decode_exit-exit_payload}
use pty.Protocol.Reader.{
  round, complete, incomplete, PacketReader, empty_reader, feed, feed_loop, Fed, packets,
  invalid_data, read_packet, read,
}
use pty.Protocol.Reader.Step.{IsSendable}
use pty.Protocol.Reader.Chunks.{then_feed, feed-append}
use pty.Protocol.Reader.Stream.{
  Bounded, feed_total, encode_all, feed-encode_all, feed_each, feed_each-encode_all,
  read_packet_iff,
}

abbrev hello : Packet
hello = record { type_ = data_message; payload = b'h' ∷ b'i' ∷ [] }

abbrev small : Packet
small = record { type_ = resize; payload = 0 ∷ 24 ∷ 0 ∷ 80 ∷ [] }

abbrev both : List Packet
both = hello ∷ small ∷ []

hello-IsSendable : IsSendable hello
unfolding from_u8 as_u8
hello-IsSendable = record { canonical = refl; within = omega arith }

small-IsSendable : IsSendable small
unfolding from_u8 as_u8
small-IsSendable = record { canonical = refl; within = omega arith }

encode-hello : encode hello ≡ 0 ∷ 0 ∷ 0 ∷ 0 ∷ 2 ∷ b'h' ∷ b'i' ∷ []
unfolding encode u32_to_be as_u8
encode-hello = refl

-- The stream of both packets, cut inside a header and inside a payload.
abbrev cuts : List Bytes
cuts =
    (0 ∷ 0 ∷ 0 ∷ []) ∷ (0 ∷ 2 ∷ b'h' ∷ b'i' ∷ 3 ∷ 0 ∷ 0 ∷ 0 ∷ 4 ∷ 0 ∷ []) ∷ (24 ∷ 0 ∷ 80 ∷ []) ∷ []

feed_each-encode_all_example : feed_each empty_reader cuts ≡ some (packets both, empty_reader)
unfolding encode u32_to_be as_u8
feed_each-encode_all_example =
    feed_each-encode_all both cuts (hello-IsSendable, (small-IsSendable, tt)) refl

feed-append_example :
    feed empty_reader ((0 ∷ 0 ∷ 0 ∷ []) ++ (0 ∷ 1 ∷ 7 ∷ 9 ∷ []))
    ≡ then_feed (feed empty_reader (0 ∷ 0 ∷ 0 ∷ [])) (0 ∷ 1 ∷ 7 ∷ 9 ∷ [])
feed-append_example = feed-append empty_reader (0 ∷ 0 ∷ 0 ∷ []) (0 ∷ 1 ∷ 7 ∷ 9 ∷ [])

feed_total_example :
    (o : Fed × PacketReader) × (feed empty_reader (0 ∷ 255 ∷ 0 ∷ 0 ∷ 0 ∷ []) ≡ some o) × Bounded o
feed_total_example = feed_total empty_reader (0 ∷ 255 ∷ 0 ∷ 0 ∷ 0 ∷ [])

-- A declared length over the limit empties the buffer.
feed-too_large :
    feed empty_reader (0 ∷ 255 ∷ 0 ∷ 0 ∷ 0 ∷ 1 ∷ 2 ∷ [])
    ≡ some (invalid_data 4278190080, empty_reader)
unfolding feed feed_loop round u32_from_be
feed-too_large = refl

nothing_whole : round (0 ∷ 0 ∷ []) ≡ incomplete
unfolding round
nothing_whole = refl

feed-encode_all_example :
    feed empty_reader (encode_all both ++ (0 ∷ 0 ∷ []))
    ≡ some (packets both, record { buffer = 0 ∷ 0 ∷ [] })
feed-encode_all_example =
    feed-encode_all both (0 ∷ 0 ∷ []) (hello-IsSendable, (small-IsSendable, tt)) nothing_whole

read_packet_iff_example :
    (read_packet (0 ∷ 0 ∷ 0 ∷ 0 ∷ 2 ∷ b'h' ∷ b'i' ∷ 9 ∷ []) ≡ read hello (9 ∷ []))
    ↔ (round (0 ∷ 0 ∷ 0 ∷ 0 ∷ 2 ∷ b'h' ∷ b'i' ∷ 9 ∷ []) ≡ complete hello (9 ∷ []))
read_packet_iff_example = read_packet_iff (0 ∷ 0 ∷ 0 ∷ 0 ∷ 2 ∷ b'h' ∷ b'i' ∷ 9 ∷ []) hello (9 ∷ [])

decode-size_cell_payload_example :
    (decode_size (size_cell_payload 24 80 9 18 ++ (b'{' ∷ [])) ≡ (24, 80))
    × (decode_cell (size_cell_payload 24 80 9 18 ++ (b'{' ∷ [])) ≡ some (9, 18))
decode-size_cell_payload_example =
    decode-size_cell_payload 24 80 9 18 (b'{' ∷ []) (omega arith) (omega arith) (omega arith)
      (omega arith)

decode_exit-exit_payload_example : decode_exit (exit_payload (negsuc 0) ++ []) ≡ negsuc 0
decode_exit-exit_payload_example = decode_exit-exit_payload (negsuc 0) [] (omega arith)

decode_connection_error-encode : decode_connection_error (0 ∷ []) ≡ some client_too_slow
unfolding decode_connection_error
decode_connection_error-encode = refl
