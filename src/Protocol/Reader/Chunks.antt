-- ===== src/Protocol/Reader/Chunks.antt =====
-- The streaming parser does not depend on how the stream is cut into reads.
use pty.Base.{
  ℕ, zero, suc, ◌<◌, ◌≡◌, refl, sym, ap, ◌∙◌, arith, List, [], ◌∷◌, ◌++◌, Option, none, some,
  length, Bytes, length-append, append_assoc, append-nil,
}
use pty.Protocol.Message.{Packet}
use pty.Protocol.Reader.{
  Round, incomplete, too_large, complete, round, Fed, packets, invalid_data, PacketReader,
  empty_reader, feed_loop, feed,
}
use pty.Protocol.Reader.Step.{round_shrinks, round-append_complete, round-append_too_large}

-- Packets that were found earlier stand in front of a result; an error drops them.
abbrev pub before : List Packet → Option (Fed × PacketReader) → Option (Fed × PacketReader)
before found none = none
before found (some (packets more, r)) = some (packets (found ++ more), r)
before found (some (invalid_data n, r)) = some (invalid_data n, r)

before-nil : (o : Option (Fed × PacketReader)) → before [] o ≡ o
before-nil none = refl
before-nil (some (packets zs, r)) = refl
before-nil (some (invalid_data n, r)) = refl

before-append :
    (xs ys : List Packet) (o : Option (Fed × PacketReader))
    → before (xs ++ ys) o ≡ before xs (before ys o)
before-append xs ys none = refl
before-append xs ys (some (packets zs, r)) = rw append_assoc
before-append xs ys (some (invalid_data n, r)) = refl

-- What the loop does at each outcome of a round.
loop_step :
    (fuel : ℕ) (found : List Packet) (buffer : Bytes) {o : Round}
    → round buffer ≡ o
    → feed_loop (suc fuel) found buffer ≡ elim o [
      | incomplete ↦ some (packets found, record { buffer = buffer })
      | too_large declared ↦ some (invalid_data declared, empty_reader)
      | complete p rest ↦ feed_loop fuel (found ++ p ∷ []) rest
    ]
unfolding feed_loop
loop_step fuel found buffer e = rw (e, feed_loop)

-- The packets that the loop starts from stand in front of what it finds.
feed_loop-before :
    (fuel : ℕ) (found : List Packet) (buffer : Bytes)
    → feed_loop fuel found buffer ≡ before found (feed_loop fuel [] buffer)
unfolding feed_loop
feed_loop-before zero found buffer = refl
feed_loop-before (suc fuel) found buffer = by_round (round buffer) refl (feed_loop-before fuel)
  where
    by_round :
        (o : Round)
        → round buffer ≡ o
        → ((xs : List Packet) (b : Bytes) → feed_loop fuel xs b ≡ before xs (feed_loop fuel [] b))
        → feed_loop (suc fuel) found buffer ≡ before found (feed_loop (suc fuel) [] buffer)
    by_round incomplete e ih = rw (e, feed_loop) (rw append-nil)
    by_round (too_large n) e ih = rw (e, feed_loop)
    by_round (complete p rest) e ih =
        rw (e, feed_loop)
          (ih (found ++ p ∷ []) rest
            ∙ before-append found (p ∷ []) _
            ∙ ap (before found) (sym (ih (p ∷ []) rest)))

-- Fuel above the length of the buffer is enough: more changes nothing.
feed_loop-fuel :
    (f g : ℕ) (found : List Packet) (buffer : Bytes)
    → length buffer < f
    → length buffer < g
    → feed_loop f found buffer ≡ feed_loop g found buffer
feed_loop-fuel zero g found buffer hf hg = absurd (omega arith)
feed_loop-fuel (suc f) zero found buffer hf hg = absurd (omega arith)
feed_loop-fuel (suc f) (suc g) found buffer hf hg =
    by_round (round buffer) refl (feed_loop-fuel f g)
  where
    by_round :
        (o : Round)
        → round buffer ≡ o
        → ((xs : List Packet) (b : Bytes)
            → length b < f
            → length b < g
            → feed_loop f xs b ≡ feed_loop g xs b)
        → feed_loop (suc f) found buffer ≡ feed_loop (suc g) found buffer
    by_round incomplete e ih = loop_step f found buffer e ∙ sym (loop_step g found buffer e)
    by_round (too_large n) e ih = loop_step f found buffer e ∙ sym (loop_step g found buffer e)
    by_round (complete p rest) e ih =
        let short = round_shrinks buffer e in
        loop_step f found buffer e
        ∙ ih (found ++ p ∷ []) rest (omega arith) (omega arith)
        ∙ sym (loop_step g found buffer e)

-- How a result goes on when `later` arrives: an error stays, and packets are followed by those
-- of the rest of the buffer.
abbrev resume : Option (Fed × PacketReader) → Bytes → Option (Fed × PacketReader)
resume none later = none
resume (some (packets found, r)) later =
    feed_loop (suc (length (r.buffer ++ later))) found (r.buffer ++ later)
resume (some (invalid_data n, r)) later = some (invalid_data n, r)

feed_loop-append :
    (f g : ℕ) (found : List Packet) (buffer later : Bytes)
    → length buffer < f
    → length (buffer ++ later) < g
    → feed_loop g found (buffer ++ later) ≡ resume (feed_loop f found buffer) later
feed_loop-append zero g found buffer later hf hg = absurd (omega arith)
feed_loop-append (suc f) zero found buffer later hf hg = absurd (omega arith)
feed_loop-append (suc f) (suc g) found buffer later hf hg =
    by_round (round buffer) refl (feed_loop-append f g)
  where
    by_round :
        (o : Round)
        → round buffer ≡ o
        → ((xs : List Packet) (b l : Bytes)
            → length b < f
            → length (b ++ l) < g
            → feed_loop g xs (b ++ l) ≡ resume (feed_loop f xs b) l)
        → feed_loop (suc g) found (buffer ++ later) ≡ resume (feed_loop (suc f) found buffer) later
    by_round incomplete e ih = rw (loop_step f found buffer e) (
        feed_loop-fuel (suc g) (suc (length (buffer ++ later))) found (buffer ++ later) hg
          (omega arith))
    by_round (too_large n) e ih =
        rw (loop_step f found buffer e)
          (loop_step g found (buffer ++ later) (round-append_too_large buffer later e))
    by_round (complete p rest) e ih =
        let short = round_shrinks buffer e in
        rw (loop_step f found buffer e) (
          loop_step g found (buffer ++ later) (round-append_complete buffer later e)
          ∙ ih (found ++ p ∷ []) rest later (omega arith)
              (omega (arith, length-append buffer later, length-append rest later)))

-- What follows a read, unless it failed; its packets stand behind those already found.
abbrev pub feed_next :
    Option (Fed × PacketReader)
    → (PacketReader → Option (Fed × PacketReader))
    → Option (Fed × PacketReader)
feed_next none next = none
feed_next (some (packets found, r)) next = before found (next r)
feed_next (some (invalid_data n, r)) next = some (invalid_data n, r)

abbrev pub then_feed : Option (Fed × PacketReader) → Bytes → Option (Fed × PacketReader)
then_feed o later = feed_next o (λ r. feed r later)

resume-then_feed :
    (o : Option (Fed × PacketReader)) (later : Bytes) → resume o later ≡ then_feed o later
unfolding feed
resume-then_feed none later = refl
resume-then_feed (some (packets found, r)) later = feed_loop-before _ found (r.buffer ++ later)
resume-then_feed (some (invalid_data n, r)) later = refl

-- For every buffer and every cut: one read of `a ++ b` gives the packets, the error and the
-- leftover bytes that a read of `a` and then, unless that failed, a read of `b` give.
pub feed-append : (r : PacketReader) (a b : Bytes) → feed r (a ++ b) ≡ then_feed (feed r a) b
unfolding feed
feed-append r a b = rw (← append_assoc r.buffer a b) (
    feed_loop-append (suc (length (r.buffer ++ a))) _ [] (r.buffer ++ a) b (omega arith)
      (omega arith)
    ∙ resume-then_feed _ b)
