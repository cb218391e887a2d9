-- ===== src/Terminal/Tests.antt =====
-- Runs and instances of the output scanner's theorems.
use pty.Base.{◌≡◌, refl, arith, true, [], ◌∷◌, ◌++◌, codes}
use pty.Terminal.Csi.{parse_csi, is_stripped_query, split_at, numbers}
use pty.Terminal.Scanner.{
  esc, OutputScanner, new_scanner, feed, strip_terminal_queries, Token, raw_tokens,
  strip_terminal_queries, scan, step_in, step_ground, step_esc, step_csi, emit,
}
use pty.Terminal.Scanner.Held.{IsWell, feed-IsWell}
use pty.Terminal.Scanner.Conserve.{all_bytes, feed_conserves}
use pty.Terminal.Scanner.Events.{events}
use pty.Terminal.Scanner.Chunks.{feed_chunks}
use pty.Terminal.Scanner.Recognise.{csi_bytes, feed-csi}
use pty.Terminal.Broadcast.{write}
use pty.Terminal.Broadcast.Queries.{version_zero, write-Query}

-- A scanner that has seen the escape of a sequence.
abbrev at_esc : OutputScanner
at_esc = record { state = esc; seq = 0x1b ∷ [] }

feed-IsWell_example : IsWell (feed at_esc (codes "[?2026")).1
feed-IsWell_example = feed-IsWell at_esc (codes "[?2026") refl

feed_conserves_example :
    all_bytes (feed at_esc (codes "[6nok")).0 ++ (feed at_esc (codes "[6nok")).1.seq
    ≡ 0x1b ∷ codes "[6nok"
feed_conserves_example = feed_conserves at_esc (codes "[6nok") refl

feed_chunks_example :
    (events (feed at_esc (codes "[6" ++ codes "nok")).0
      ≡ events (feed at_esc (codes "[6")).0
        ++ events (feed (feed at_esc (codes "[6")).1 (codes "nok")).0)
    × ((feed at_esc (codes "[6" ++ codes "nok")).1
        ≡ (feed (feed at_esc (codes "[6")).1 (codes "nok")).1)
feed_chunks_example = feed_chunks at_esc (codes "[6") (codes "nok")

feed-csi_example :
    feed new_scanner (codes "a" ++ 0x1b ∷ b'[' ∷ (codes "1;2" ++ b'm' ∷ codes "b")) ≡ (
      raw_tokens (codes "a")
          ++ (Token.csi (parse_csi (csi_bytes (codes "1;2") b'm')) ∷ raw_tokens (codes "b")),
      new_scanner,
    )
feed-csi_example =
    feed-csi (codes "a") (codes "1;2") (codes "b") b'm' (omega arith) (omega arith)
      (refl, (refl, (refl, tt))) (omega arith) refl

strips-query :
    strip_terminal_queries (codes "a" ++ 0x1b ∷ b'[' ∷ (codes "6" ++ b'n' ∷ codes "b"))
    ≡ codes "a" ++ codes "b"
unfolding strip_terminal_queries feed new_scanner is_stripped_query parse_csi split_at numbers scan
    step_in step_ground step_esc step_csi emit
strips-query = refl

write-Query_example :
    write true new_scanner (codes "a" ++ 0x1b ∷ b'[' ∷ (codes ">0" ++ b'q' ∷ codes "b"))
    ≡ (codes "a" ++ codes "b", new_scanner)
write-Query_example =
    write-Query true (codes "a") (codes ">0") (codes "b") b'q' (omega arith) (omega arith)
      version_zero
