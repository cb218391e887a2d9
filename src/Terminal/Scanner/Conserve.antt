-- ===== src/Terminal/Scanner/Conserve.antt =====
-- The scanner loses no byte and makes none up.
use pty.Base.{
  ℕ, ◌+◌, ◌≡◌, refl, sym, ap, ◌∙◌, true, ◌||◌, List, [], ◌∷◌, ◌++◌, ltb, ◌==◌, length, Bytes,
  append_assoc, append-nil, ==_iff,
}
use pty.Terminal.Csi.{within, init, parse_csi}
use pty.Terminal.Osc.{Terminator, make_osc, bel, st}
use pty.Terminal.Scanner.{
  max_csi, State, esc, osc_esc, Token, ris, OutputScanner, Scan, start, emit, give_up, restart,
  push, osc_limit, step_ground, step_esc, step_csi, step_osc, step_osc_esc, step_in, step, scan,
  feed, flush_raw, token_bytes, raw_tokens,
}
use pty.Terminal.Scanner.Held.{if_cases, IsHeld, HoldsWell, step-HoldsWell, IsWell}

abbrev pub all_bytes : List Token → Bytes
all_bytes [] = []
all_bytes (t ∷ ts) = token_bytes t ++ all_bytes ts

all_bytes-append : (xs ys : List Token) → all_bytes (xs ++ ys) ≡ all_bytes xs ++ all_bytes ys
all_bytes-append [] ys = refl
all_bytes-append (x ∷ xs) ys =
    ap (◌++◌ (token_bytes x)) (all_bytes-append xs ys)
    ∙ sym (append_assoc (token_bytes x) (all_bytes xs) (all_bytes ys))

all_bytes-raw_tokens : (bs : Bytes) → all_bytes (raw_tokens bs) ≡ bs
unfolding token_bytes
all_bytes-raw_tokens [] = refl
all_bytes-raw_tokens (b ∷ bs) = append-nil (b ∷ bs)

-- All that was read: in tokens, plain, or held back.
abbrev total : Scan → Bytes
total s = all_bytes s.out ++ (s.plain ++ s.seq)

abbrev Reads : Scan → ℕ → Scan → Type 0
Reads s b t = total t ≡ total s ++ b ∷ []

-- The bytes before the token, and then the token.
emit-Reads : (s : Scan) (b : ℕ) (t : Token) → token_bytes t ≡ s.seq ++ b ∷ [] → Reads s b (emit s t)
unfolding emit
emit-Reads s b t e = simp (all_bytes-append, all_bytes-raw_tokens, append-nil, append_assoc, e)

give_up-Reads : (s : Scan) (b : ℕ) → Reads s b (give_up s (b ∷ []))
unfolding give_up
give_up-Reads s b = simp (append-nil, append_assoc)

push-Reads : (s : Scan) (state : State) (b : ℕ) → Reads s b (push s state b)
push-Reads s state b = simp append_assoc

restart-Reads : (s : Scan) → Reads s 0x1b (restart s)
unfolding restart
restart-Reads s = simp append_assoc

byte_is : (b c : ℕ) → (b == c) ≡ true → c ≡ b
byte_is b c h = sym ((==_iff b c).0 h)

csi_bytes : (seq : Bytes) → token_bytes (Token.csi (parse_csi seq)) ≡ seq
unfolding token_bytes parse_csi
csi_bytes seq = refl

osc_bytes : (seq : Bytes) (t : Terminator) → token_bytes (Token.osc (make_osc seq t)) ≡ seq
unfolding token_bytes make_osc
osc_bytes seq bel = refl
osc_bytes seq st = refl

step_ground-Reads : (s : Scan) (b : ℕ) → s.seq ≡ [] → Reads s b (step_ground s b)
unfolding step_ground
step_ground-Reads s b e =
    if_cases (Reads s b) (b == 0x1b)
      (λ h. rw (e, byte_is b 0x1b h) (simp (append-nil, append_assoc)))
      (λ _. rw e (simp (append-nil, append_assoc)))

step_esc-Reads : (s : Scan) (b : ℕ) → s.seq ≡ 0x1b ∷ [] → Reads s b (step_esc s b)
unfolding step_esc
step_esc-Reads s b e =
    if_cases (Reads s b) (b == b'c')
      (λ h. emit-Reads s b ris (rw (e, ← byte_is b b'c' h) (unfold token_bytes in refl)))
      λ _.
        if_cases (Reads s b) (b == b'[') (λ _. push-Reads s State.csi b)
          λ _.
            if_cases (Reads s b) (b == b']') (λ _. push-Reads s State.osc b)
              λ _.
                if_cases (Reads s b) (b == 0x1b) (λ h. rw (← byte_is b 0x1b h) (restart-Reads s))
                  (λ _. give_up-Reads s b)

step_csi-Reads : (s : Scan) (b : ℕ) → Reads s b (step_csi s b)
unfolding step_csi
step_csi-Reads s b =
    if_cases (Reads s b) (within 0x40 0x7e b) (λ _. emit-Reads s b _ (csi_bytes (s.seq ++ b ∷ [])))
      λ _.
        if_cases (Reads s b) (b == 0x1b) (λ h. rw (← byte_is b 0x1b h) (restart-Reads s))
          λ _.
            if_cases (Reads s b) (b == 0x18 || b == 0x1a) (λ _. give_up-Reads s b)
              λ _.
                if_cases (Reads s b) (ltb max_csi (length (s.seq ++ b ∷ [])))
                  (λ _. give_up-Reads s b) (λ _. push-Reads s State.csi b)

step_osc-Reads : (s : Scan) (b : ℕ) → Reads s b (step_osc s b)
unfolding step_osc
step_osc-Reads s b =
    if_cases (Reads s b) (b == 0x07) (λ _. emit-Reads s b _ (osc_bytes (s.seq ++ b ∷ []) bel))
      λ _.
        if_cases (Reads s b) (b == 0x1b) (λ _. push-Reads s osc_esc b)
          λ _.
            if_cases (Reads s b) (b == 0x18 || b == 0x1a) (λ _. give_up-Reads s b)
              λ _.
                if_cases (Reads s b)
                  (ltb (osc_limit (s.seq ++ b ∷ []) + 2) (length (s.seq ++ b ∷ [])))
                  (λ _. give_up-Reads s b) (λ _. push-Reads s State.osc b)

init-append : (bs : Bytes) (b : ℕ) → init (bs ++ b ∷ []) ≡ bs
init-append [] b = refl
init-append (x ∷ []) b = refl
init-append (x ∷ y ∷ bs) b = ap (◌∷◌ x) (init-append (y ∷ bs) b)

-- The abandoned sequence is plain, and its last escape is held.
restart-total :
    (s : Scan) (body : Bytes)
    → s.seq ≡ body ++ 0x1b ∷ []
    → total (restart (record s { seq = init s.seq })) ≡ total s
unfolding restart
restart-total s body e = rw (e, init-append body 0x1b) (simp append_assoc)

step_osc_esc-Reads :
    (s : Scan) (b : ℕ) (body : Bytes) → s.seq ≡ body ++ 0x1b ∷ [] → Reads s b (step_osc_esc s b)
unfolding step_osc_esc
step_osc_esc-Reads s b body e =
    if_cases (Reads s b) (b == b'\\') (λ _. emit-Reads s b _ (osc_bytes (s.seq ++ b ∷ []) st))
      (λ _.
        let s' = restart (record s { seq = init s.seq }) in
        step_esc-Reads s' b (unfold restart in refl)
        ∙ ap (λ l. l ++ b ∷ []) (restart-total s body e))

step-Reads : (state : State) (s : Scan) (b : ℕ) → IsHeld state s.seq → Reads s b (step_in state s b)
unfolding step_in
step-Reads State.ground s b h = step_ground-Reads s b h
step-Reads esc s b h = step_esc-Reads s b h
step-Reads State.csi s b h = step_csi-Reads s b
step-Reads State.osc s b h = step_osc-Reads s b
step-Reads osc_esc s b h = step_osc_esc-Reads s b (0x1b ∷ b']' ∷ h.0) h.1

scan-total : (bs : Bytes) (s : Scan) → HoldsWell s → total (scan s bs) ≡ total s ++ bs
unfolding scan
scan-total [] s h = sym (append-nil (total s))
scan-total (b ∷ bs) s h =
    scan-total bs (step s b) (step-HoldsWell s b h)
    ∙ ap (λ l. l ++ bs) (step-Reads s.state s b h)
    ∙ append_assoc (total s) (b ∷ []) bs

flush_raw-total : (s : Scan) → all_bytes (flush_raw s).out ++ s.seq ≡ total s
unfolding flush_raw
flush_raw-total s =
    ap (λ l. l ++ s.seq)
      (all_bytes-append s.out (raw_tokens s.plain)
        ∙ ap (◌++◌ (all_bytes s.out)) (all_bytes-raw_tokens s.plain))
    ∙ append_assoc (all_bytes s.out) s.plain s.seq

-- Of a well-formed scanner: the bytes of the tokens, followed by what is held back, are what was
-- held back before and the chunk.
pub feed_conserves :
    (s : OutputScanner) (chunk : Bytes)
    → IsWell s
    → all_bytes (feed s chunk).0 ++ (feed s chunk).1.seq ≡ s.seq ++ chunk
unfolding feed
feed_conserves s chunk h = flush_raw-total (scan (start s) chunk) ∙ scan-total chunk (start s) h
