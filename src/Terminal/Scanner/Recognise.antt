-- ===== src/Terminal/Scanner/Recognise.antt =====
-- A control sequence is recognised as a whole, and text is left alone.
use pty.Base.{
  ℕ, ◌+◌, ◌≤◌, ◌≡◌, ◌≢◌, refl, sym, ap, ◌∙◌, arith, true, List, [], ◌∷◌, ◌++◌, length, Bytes,
  length-append, append_assoc, append-nil, All,
}
use pty.Terminal.Csi.{within, parse_csi}
use pty.Terminal.Scanner.{
  max_csi, State, Token, OutputScanner, new_scanner, Scan, emit, step_ground, step_esc, step_csi,
  step_in, scan, feed, flush_raw, raw_tokens,
}

abbrev at_ground : Bytes → List Token → Scan
at_ground plain out = record { state = State.ground; seq = []; plain = plain; out = out }

abbrev in_csi : Bytes → Bytes → List Token → Scan
in_csi seq plain out = record { state = State.csi; seq = seq; plain = plain; out = out }

-- Bytes that begin no sequence.
abbrev pub IsText : Bytes → Type 0
IsText = All (λ b. b ≢ 0x1b)

-- Parameter and intermediate bytes of a CSI.
abbrev pub IsCsiBody : Bytes → Type 0
IsCsiBody = All (λ b. within 0x20 0x3f b ≡ true)

scan_text :
    (text rest plain : Bytes) (out : List Token)
    → IsText text
    → scan (at_ground plain out) (text ++ rest) ≡ scan (at_ground (plain ++ text) out) rest
unfolding scan step_in step_ground
scan_text [] rest plain out h = rw append-nil
scan_text (b ∷ text) rest plain out h =
    let here : step_ground (at_ground plain out) b ≡ at_ground (plain ++ b ∷ []) out =
      ground arith in
    ap (λ s. scan s (text ++ rest)) here
    ∙ scan_text text rest (plain ++ b ∷ []) out h.1
    ∙ ap (λ l. scan (at_ground l out) rest) (append_assoc plain (b ∷ []) text)

step_csi_body :
    (b : ℕ) (seq plain : Bytes) (out : List Token)
    → within 0x20 0x3f b ≡ true
    → length (seq ++ b ∷ []) ≤ max_csi
    → step_csi (in_csi seq plain out) b ≡ in_csi (seq ++ b ∷ []) plain out
unfolding step_csi
step_csi_body b seq plain out h k = ground arith

scan_csi_body :
    (body rest seq plain : Bytes) (out : List Token)
    → IsCsiBody body
    → length seq + length body ≤ max_csi
    → scan (in_csi seq plain out) (body ++ rest) ≡ scan (in_csi (seq ++ body) plain out) rest
unfolding scan step_in
scan_csi_body [] rest seq plain out h k = rw append-nil
scan_csi_body (b ∷ body) rest seq plain out h k =
    let grown = length-append seq (b ∷ []) in
    ap (λ s. scan s (body ++ rest)) (step_csi_body b seq plain out h.0 (omega arith))
    ∙ scan_csi_body body rest (seq ++ b ∷ []) plain out h.1 (omega arith)
    ∙ ap (λ l. scan (in_csi l plain out) rest) (append_assoc seq (b ∷ []) body)

abbrev pub csi_bytes : Bytes → ℕ → Bytes
csi_bytes body final = 0x1b ∷ b'[' ∷ (body ++ final ∷ [])

scan_csi :
    (body rest plain : Bytes) (final : ℕ) (out : List Token)
    → IsCsiBody body
    → length body + 2 ≤ max_csi
    → within 0x40 0x7e final ≡ true
    → scan (at_ground plain out) (0x1b ∷ b'[' ∷ (body ++ final ∷ rest))
      ≡ scan
          (at_ground []
            ((out ++ raw_tokens plain) ++ Token.csi (parse_csi (csi_bytes body final)) ∷ []))
          rest
unfolding scan step_in step_ground step_esc
scan_csi body rest plain final out h k f =
    scan_csi_body body (final ∷ rest) (0x1b ∷ b'[' ∷ []) plain out h (omega arith)
    ∙ unfold scan step_in step_csi emit in rw f

scan_around :
    (before body behind : Bytes) (final : ℕ)
    → IsText before
    → IsText behind
    → IsCsiBody body
    → length body + 2 ≤ max_csi
    → within 0x40 0x7e final ≡ true
    → scan (at_ground [] []) (before ++ 0x1b ∷ b'[' ∷ (body ++ final ∷ behind))
      ≡ at_ground behind (raw_tokens before ++ Token.csi (parse_csi (csi_bytes body final)) ∷ [])
scan_around before body behind final hb ha h k f =
    scan_text before (0x1b ∷ b'[' ∷ (body ++ final ∷ behind)) [] [] hb
    ∙ scan_csi body behind before final [] h k f
    ∙ ap (λ l. scan (at_ground [] out) l) (sym (append-nil behind))
    ∙ scan_text behind [] [] out ha
    ∙ unfold scan in refl
  where
    out : List Token
    out = raw_tokens before ++ Token.csi (parse_csi (csi_bytes body final)) ∷ []

-- Text without an escape, a CSI of its own bytes within the limit on its length, and such text are
-- fed as exactly that: the bytes before, the parsed sequence, and the bytes behind.
pub feed-csi :
    (before body behind : Bytes) (final : ℕ)
    → IsText before
    → IsText behind
    → IsCsiBody body
    → length body + 2 ≤ max_csi
    → within 0x40 0x7e final ≡ true
    → feed new_scanner (before ++ 0x1b ∷ b'[' ∷ (body ++ final ∷ behind)) ≡ (
      raw_tokens before ++ (Token.csi (parse_csi (csi_bytes body final)) ∷ raw_tokens behind),
      new_scanner,
    )
unfolding feed new_scanner flush_raw
feed-csi before body behind final hb ha h k f =
    ap {B = List Token × OutputScanner}
      (λ (end : Scan). ((flush_raw end).out, record { state = end.state; seq = end.seq }))
      (scan_around before body behind final hb ha h k f)
    ∙ ap {B = List Token × OutputScanner} (λ l. (l, new_scanner))
        (append_assoc (raw_tokens before) (Token.csi (parse_csi (csi_bytes body final)) ∷ [])
          (raw_tokens behind))
