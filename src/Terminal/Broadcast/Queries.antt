-- ===== src/Terminal/Broadcast/Queries.antt =====
-- The queries that the session answers itself never reach the clients.
use mathlib.Core.Path.{ap₂}
use pty.Base.{
  ℕ, ◌+◌, ◌≡◌, refl, ap, ◌∙◌, arith, Bool, true, ◌&&◌, List, [], ◌∷◌, ◌++◌, Bytes, codes, leb,
  length, append-nil, append_assoc, sym,
}
use pty.Terminal.Csi.{Csi, parse_csi, within, is_stripped_query, split_at, numbers}
use pty.Terminal.Scanner.{Token, OutputScanner, new_scanner, max_csi, raw_tokens}
use pty.Terminal.Scanner.Recognise.{IsText, IsCsiBody, csi_bytes, feed-csi}
use pty.Terminal.Broadcast.{write, broadcast_all, token_broadcast, csi_broadcast}

-- The queries by their spelling: what stands between `ESC [` and the final byte, and that byte. They
-- are the device attributes, primary and secondary; the status and the cursor's position; the
-- version; the state of modifyOtherKeys and of the kitty keyboard; the four sizes; and the modes of
-- synchronized output and of paste events.
pub data Query : Bytes → ℕ → Type 0 where
  da1 : Query ([]) b'c'
  da1_zero : Query (codes "0") b'c'
  da2 : Query (codes ">") b'c'
  da2_zero : Query (codes ">0") b'c'
  status : Query (codes "5") b'n'
  cursor : Query (codes "6") b'n'
  version : Query (codes ">") b'q'
  version_zero : Query (codes ">0") b'q'
  other_keys : Query (codes "?4") b'm'
  kitty_flags : Query (codes "?") b'u'
  window_pixels : Query (codes "14") b't'
  cell_pixels : Query (codes "16") b't'
  grid : Query (codes "18") b't'
  screen_grid : Query (codes "19") b't'
  synchronized : Query (codes "?2026$") b'p'
  paste_events : Query (codes "?5522$") b'p'

abbrev is_body : Bytes → Bool
is_body [] = true
is_body (b ∷ bs) = within 0x20 0x3f b && is_body bs

record IsAnswered (body : Bytes) (final : ℕ) : Type 0 where
  in_body : is_body body ≡ true
  short : leb (length body + 2) max_csi ≡ true
  ends : within 0x40 0x7e final ≡ true
  dropped : csi_broadcast (parse_csi (csi_bytes body final)) ≡ []

Query-IsAnswered : (body : Bytes) (final : ℕ) → Query body final → IsAnswered body final
unfolding csi_broadcast is_stripped_query parse_csi split_at numbers
Query-IsAnswered _ _ da1 = record { in_body = refl; short = refl; ends = refl; dropped = refl }
Query-IsAnswered _ _ da1_zero = record { in_body = refl; short = refl; ends = refl; dropped = refl }
Query-IsAnswered _ _ da2 = record { in_body = refl; short = refl; ends = refl; dropped = refl }
Query-IsAnswered _ _ da2_zero = record { in_body = refl; short = refl; ends = refl; dropped = refl }
Query-IsAnswered _ _ status = record { in_body = refl; short = refl; ends = refl; dropped = refl }
Query-IsAnswered _ _ cursor = record { in_body = refl; short = refl; ends = refl; dropped = refl }
Query-IsAnswered _ _ version = record { in_body = refl; short = refl; ends = refl; dropped = refl }
Query-IsAnswered _ _ version_zero = record {
  in_body = refl;
  short = refl;
  ends = refl;
  dropped = refl;
}
Query-IsAnswered _ _ other_keys = record {
  in_body = refl;
  short = refl;
  ends = refl;
  dropped = refl;
}
Query-IsAnswered _ _ kitty_flags = record {
  in_body = refl;
  short = refl;
  ends = refl;
  dropped = refl;
}
Query-IsAnswered _ _ window_pixels = record {
  in_body = refl;
  short = refl;
  ends = refl;
  dropped = refl;
}
Query-IsAnswered _ _ cell_pixels = record {
  in_body = refl;
  short = refl;
  ends = refl;
  dropped = refl;
}
Query-IsAnswered _ _ grid = record { in_body = refl; short = refl; ends = refl; dropped = refl }
Query-IsAnswered _ _ screen_grid = record {
  in_body = refl;
  short = refl;
  ends = refl;
  dropped = refl;
}
Query-IsAnswered _ _ synchronized = record {
  in_body = refl;
  short = refl;
  ends = refl;
  dropped = refl;
}
Query-IsAnswered _ _ paste_events = record {
  in_body = refl;
  short = refl;
  ends = refl;
  dropped = refl;
}

is_body-IsCsiBody : (bs : Bytes) → is_body bs ≡ true → IsCsiBody bs
is_body-IsCsiBody [] h = tt
is_body-IsCsiBody (b ∷ bs) h = (ground arith, is_body-IsCsiBody bs (ground arith))

broadcast_all-append :
    (clipboard : Bool) (xs ys : List Token)
    → broadcast_all clipboard (xs ++ ys) ≡ broadcast_all clipboard xs ++ broadcast_all clipboard ys
unfolding broadcast_all
broadcast_all-append clipboard [] ys = refl
broadcast_all-append clipboard (x ∷ xs) ys =
    ap (◌++◌ (token_broadcast clipboard x)) (broadcast_all-append clipboard xs ys)
    ∙ sym (
        append_assoc (token_broadcast clipboard x) (broadcast_all clipboard xs)
          (broadcast_all clipboard ys))

broadcast_all-raw_tokens :
    (clipboard : Bool) (bs : Bytes) → broadcast_all clipboard (raw_tokens bs) ≡ bs
unfolding broadcast_all token_broadcast
broadcast_all-raw_tokens clipboard [] = refl
broadcast_all-raw_tokens clipboard (b ∷ bs) = append-nil (b ∷ bs)

broadcast_all-csi :
    (clipboard : Bool) (c : Csi) (ts : List Token)
    → csi_broadcast c ≡ []
    → broadcast_all clipboard (Token.csi c ∷ ts) ≡ broadcast_all clipboard ts
unfolding broadcast_all token_broadcast
broadcast_all-csi clipboard c ts h = rw h

-- None of the listed queries reaches the clients: when the child prints text without an escape, a
-- query as it is spelled there, and such text, in one write that begins between two sequences, just
-- the text is handed on, and the scanner is between two sequences again.
pub write-Query :
    (clipboard : Bool) (before body behind : Bytes) (final : ℕ)
    → IsText before
    → IsText behind
    → Query body final
    → write clipboard new_scanner (before ++ 0x1b ∷ b'[' ∷ (body ++ final ∷ behind))
      ≡ (before ++ behind, new_scanner)
unfolding write
write-Query clipboard before body behind final hb ha q =
    let a = Query-IsAnswered body final q in
    let c = parse_csi (csi_bytes body final) in
    ap {B = Bytes × OutputScanner} (λ r. (broadcast_all clipboard r.0, r.1))
      (feed-csi before body behind final hb ha (is_body-IsCsiBody body a.in_body)
        (let s = a.short in ground arith) a.ends)
    ∙ ap {B = Bytes × OutputScanner} (λ l. (l, new_scanner))
        (broadcast_all-append clipboard (raw_tokens before) (Token.csi c ∷ raw_tokens behind)
          ∙ ap₂ ◌++◌ (broadcast_all-raw_tokens clipboard before) (
              broadcast_all-csi clipboard c (raw_tokens behind) a.dropped
              ∙ broadcast_all-raw_tokens clipboard behind))
