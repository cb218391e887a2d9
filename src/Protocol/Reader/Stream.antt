-- ===== src/Protocol/Reader/Stream.antt =====
-- Whole streams: the reader always returns, keeps less than one frame, and gives back the
-- packets that were written however the stream is cut.
use mathlib.Core.Path.{fun_ext}
use pty.Base.{
  ◌↔◌, ℕ, zero, suc, ◌+◌, ◌<◌, ◌≡◌, refl, sym, ap, ◌∙◌, arith, List, [], ◌∷◌, ◌++◌, Option, some,
  length, Bytes, append_assoc, append-nil, All,
}
use pty.Protocol.Message.{Packet}
use pty.Protocol.Encode.{header_size, max_packet_length, encode}
use pty.Protocol.Reader.{
  Round, incomplete, too_large, complete, round, Fed, packets, invalid_data, PacketReader,
  empty_reader, feed_loop, feed, read, read_packet,
}
use pty.Protocol.Reader.Step.{round_shrinks, IsSendable, round-encode}
use pty.Protocol.Reader.Chunks.{feed_next, feed-append}

-- What the loop leaves: on success a buffer that holds no whole frame, on an error nothing.
abbrev pub Settled : Fed × PacketReader → Type 0
Settled (packets ps, r) = round r.buffer ≡ incomplete
Settled (invalid_data n, r) = (r ≡ empty_reader) × (max_packet_length < n)

-- A buffer without a whole frame is shorter than the largest frame.
incomplete_bound :
    (buffer : Bytes) → round buffer ≡ incomplete → length buffer < header_size + max_packet_length
unfolding round
incomplete_bound [] h = omega arith
incomplete_bound (t ∷ []) h = omega arith
incomplete_bound (t ∷ b3 ∷ []) h = omega arith
incomplete_bound (t ∷ b3 ∷ b2 ∷ []) h = omega arith
incomplete_bound (t ∷ b3 ∷ b2 ∷ b1 ∷ []) h = omega arith
incomplete_bound (t ∷ b3 ∷ b2 ∷ b1 ∷ b0 ∷ body) h = ground arith

too_large_bound : (buffer : Bytes) (n : ℕ) → round buffer ≡ too_large n → max_packet_length < n
unfolding round
too_large_bound (t ∷ b3 ∷ b2 ∷ b1 ∷ b0 ∷ body) n h = ground arith
too_large_bound _ n h = cc

feed_loop-Settled :
    (fuel : ℕ) (found : List Packet) (buffer : Bytes)
    → length buffer < fuel
    → (o : Fed × PacketReader) × (feed_loop fuel found buffer ≡ some o) × Settled o
unfolding feed_loop
feed_loop-Settled zero found buffer h = absurd (omega arith)
feed_loop-Settled (suc fuel) found buffer h = by_round (round buffer) refl (feed_loop-Settled fuel)
  where
    by_round :
        (o : Round)
        → round buffer ≡ o
        → ((xs : List Packet) (b : Bytes)
            → length b < fuel
            → (o : Fed × PacketReader) × (feed_loop fuel xs b ≡ some o) × Settled o)
        → (o : Fed × PacketReader) × (feed_loop (suc fuel) found buffer ≡ some o) × Settled o
    by_round incomplete e ih = ((packets found, record { buffer = buffer }), rw (e, feed_loop), e)
    by_round (too_large n) e ih =
        ((invalid_data n, empty_reader), rw (e, feed_loop), (refl, too_large_bound buffer n e))
    by_round (complete p rest) e ih =
        let short = round_shrinks buffer e in
        let (o, found_it, settled) = ih (found ++ p ∷ []) rest (omega arith) in
        (o, rw (e, feed_loop) found_it, settled)

abbrev pub Bounded : Fed × PacketReader → Type 0
Bounded (packets ps, r) =
    (round r.buffer ≡ incomplete) × (length r.buffer < header_size + max_packet_length)
Bounded (invalid_data n, r) = (r ≡ empty_reader) × (max_packet_length < n)

Settled-Bounded : (o : Fed × PacketReader) → Settled o → Bounded o
Settled-Bounded (packets ps, r) h = (h, incomplete_bound r.buffer h)
Settled-Bounded (invalid_data n, r) h = h

-- `feed` returns for every reader and every read. On success the buffer it keeps holds no whole
-- frame and is shorter than the largest frame; it fails only on a declared length over the limit,
-- and then the buffer is empty.
pub feed_total :
    (r : PacketReader) (chunk : Bytes)
    → (o : Fed × PacketReader) × (feed r chunk ≡ some o) × Bounded o
unfolding feed
feed_total r chunk =
    let (o, e, s) = feed_loop-Settled _ [] (r.buffer ++ chunk) (omega arith) in
    (o, e, Settled-Bounded o s)

-- The stream that a writer makes of its packets.
abbrev pub encode_all : List Packet → Bytes
encode_all [] = []
encode_all (p ∷ ps) = encode p ++ encode_all ps

feed_loop-encode_all :
    (ps found : List Packet) (fuel : ℕ) (tail : Bytes)
    → All IsSendable ps
    → round tail ≡ incomplete
    → length (encode_all ps ++ tail) < fuel
    → feed_loop fuel found (encode_all ps ++ tail)
      ≡ some (packets (found ++ ps), record { buffer = tail })
unfolding feed_loop
feed_loop-encode_all ps found zero tail s t h = absurd (omega arith)
feed_loop-encode_all [] found (suc fuel) tail s t h = rw (t, feed_loop) (rw append-nil)
feed_loop-encode_all (p ∷ ps) found (suc fuel) tail s t h =
    let whole = round-encode p (encode_all ps ++ tail) s.0 in
    let short = round_shrinks (encode p ++ (encode_all ps ++ tail)) whole in
    let split = append_assoc (encode p) (encode_all ps) tail in
    rw split (
      rw (whole, feed_loop)
        (feed_loop-encode_all ps (found ++ p ∷ []) fuel tail s.1 t (omega (arith, ap length split))
          ∙ ap (λ l. some (packets l, record { buffer = tail })) (append_assoc found (p ∷ []) ps)))

-- What a writer framed of packets that can be sent is read back, in order, and the start of a frame
-- that is not complete yet stays in the buffer.
pub feed-encode_all :
    (ps : List Packet) (tail : Bytes)
    → All IsSendable ps
    → round tail ≡ incomplete
    → feed empty_reader (encode_all ps ++ tail) ≡ some (packets ps, record { buffer = tail })
unfolding feed
feed-encode_all ps tail s t = feed_loop-encode_all ps [] _ tail s t (omega arith)

-- A reader that is given one read after another, until one fails.
abbrev pub feed_each : PacketReader → List Bytes → Option (Fed × PacketReader)
feed_each r [] = feed r []
feed_each r (c ∷ cs) = feed_next (feed r c) (λ q. feed_each q cs)

abbrev pub concat : List Bytes → Bytes
concat [] = []
concat (c ∷ cs) = c ++ concat cs

feed_each-concat : (cs : List Bytes) (r : PacketReader) → feed_each r cs ≡ feed r (concat cs)
feed_each-concat [] r = refl
feed_each-concat (c ∷ cs) r =
    ap (feed_next (feed r c)) (fun_ext (feed_each-concat cs)) ∙ sym (feed-append r c (concat cs))

-- However the stream of some packets, each one that can be sent, is cut into reads: the reader
-- yields exactly those packets, in order, and ends with an empty buffer.
pub feed_each-encode_all :
    (ps : List Packet) (cs : List Bytes)
    → All IsSendable ps
    → concat cs ≡ encode_all ps
    → feed_each empty_reader cs ≡ some (packets ps, empty_reader)
feed_each-encode_all ps cs s e =
    feed_each-concat cs empty_reader
    ∙ ap (feed empty_reader) (e ∙ sym (append-nil (encode_all ps)))
    ∙ feed-encode_all ps [] s nothing
  where
    nothing : round [] ≡ incomplete
    nothing = unfold round in refl

-- The blocking reader and the streaming one agree on what a whole packet is: one returns a packet
-- and a rest exactly where the other's round does.
pub read_packet_iff :
    (bytes : Bytes) (p : Packet) (rest : Bytes)
    → (read_packet bytes ≡ read p rest) ↔ (round bytes ≡ complete p rest)
unfolding read_packet round
read_packet_iff (t ∷ b3 ∷ b2 ∷ b1 ∷ b0 ∷ body) p rest = (ground arith, ground arith)
read_packet_iff _ p rest = (λ h. cc, λ h. cc)
