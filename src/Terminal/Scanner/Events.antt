-- ===== src/Terminal/Scanner/Events.antt =====
-- The output of the scanner without the places where its chunks ended.
use mathlib.Core.List.{map-append}
use pty.Base.{ℕ, ◌≡◌, refl, sym, ap, ◌∙◌, List, [], ◌∷◌, ◌++◌, Bytes, append_assoc, append-nil, map}
use pty.Terminal.Scanner.{Token, ris, Scan, emit, give_up, restart, flush_raw, raw_tokens}

-- Tokens with their plain bytes taken apart, so that it does not show where a chunk ended.
pub data Event : Type 0 where
  plain_byte : ℕ → Event
  sequence : Token → Event

abbrev pub events_of : Token → List Event
events_of (Token.raw bs) = map plain_byte bs
events_of ris = sequence ris ∷ []
events_of (Token.csi c) = sequence (Token.csi c) ∷ []
events_of (Token.osc o) = sequence (Token.osc o) ∷ []

abbrev pub events : List Token → List Event
events [] = []
events (t ∷ ts) = events_of t ++ events ts

pub events-append : (xs ys : List Token) → events (xs ++ ys) ≡ events xs ++ events ys
events-append [] ys = refl
events-append (x ∷ xs) ys =
    ap (◌++◌ (events_of x)) (events-append xs ys)
    ∙ sym (append_assoc (events_of x) (events xs) (events ys))

pub events-raw_tokens : (bs : Bytes) → events (raw_tokens bs) ≡ map plain_byte bs
events-raw_tokens [] = refl
events-raw_tokens (b ∷ bs) = append-nil (map plain_byte (b ∷ bs))

-- All that a scan has let through.
abbrev pub seen : Scan → List Event
seen s = events s.out ++ map plain_byte s.plain

pub seen-emit : (s : Scan) (t : Token) → seen (emit s t) ≡ seen s ++ events_of t
unfolding emit
seen-emit s t = simp (events-append, events-raw_tokens, append-nil, append_assoc)

pub seen-give_up :
    (s : Scan) (more : Bytes) → seen (give_up s more) ≡ seen s ++ map plain_byte (s.seq ++ more)
unfolding give_up
seen-give_up s more = simp (map-append, append_assoc)

pub seen-restart : (s : Scan) → seen (restart s) ≡ seen s ++ map plain_byte s.seq
unfolding restart
seen-restart s = simp (map-append, append_assoc)

pub seen-flush_raw : (s : Scan) → events (flush_raw s).out ≡ seen s
unfolding flush_raw
seen-flush_raw s =
    events-append s.out (raw_tokens s.plain) ∙ ap (◌++◌ (events s.out)) (events-raw_tokens s.plain)
