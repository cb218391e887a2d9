-- ===== src/Terminal/Scanner/Chunks.antt =====
-- The scanner does not depend on how the output is cut into chunks.
use mathlib.Core.List.{map-append}
use mathlib.Core.Path.{subst, ap₂}
use pty.Base.{
  ℕ, ◌+◌, ◌≡◌, refl, sym, ap, ◌∙◌, Bool, true, false, ◌||◌, List, [], ◌∷◌, ◌++◌, ltb, ◌==◌,
  if◌then◌else◌, length, Bytes, append_assoc, append-nil, map,
}
use pty.Terminal.Csi.{within, init}
use pty.Terminal.Scanner.{
  max_csi, State, esc, osc_esc, Token, ris, OutputScanner, Scan, start, emit, give_up, restart,
  push, osc_limit, step_ground, step_esc, step_csi, step_osc, step_osc_esc, step_in, step, scan,
  feed,
}
use pty.Terminal.Scanner.Events.{
  Event, plain_byte, events_of, events, seen, seen-emit, seen-give_up, seen-restart, seen-flush_raw,
}

-- Scans `s` and `t` are in one state, and `s` has let `p` through before what `t` has.
pub record Ahead (p : List Event) (s t : Scan) : Type 0 where
  pub same_state : s.state ≡ t.state
  pub same_seq : s.seq ≡ t.seq
  pub ahead : seen s ≡ p ++ seen t

module _ (p : List Event) where
  if_Ahead :
      (c : Bool) {s t s' t' : Scan}
      → Ahead p s s'
      → Ahead p t t'
      → Ahead p (if c then s else t) (if c then s' else t')
  if_Ahead true h k = h
  if_Ahead false h k = k

  both_more :
      (s t s' t' : Scan) (e : List Event)
      → seen s ≡ p ++ seen t
      → seen s' ≡ seen s ++ e
      → seen t' ≡ seen t ++ e
      → seen s' ≡ p ++ seen t'
  both_more s t s' t' e h k k' =
      k ∙ ap (λ l. l ++ e) h ∙ append_assoc p (seen t) e ∙ ap (◌++◌ p) (sym k')

abbrev scan_at : State → Bytes → Bytes → List Token → Scan
scan_at state seq plain out = record { state = state; seq = seq; plain = plain; out = out }

-- One step from two scans with one state and one held sequence.
module _ (p : List Event) (state : State) (seq plain plain' : Bytes) (out out' : List Token)
    (h : events out ++ map plain_byte plain ≡ p ++ (events out' ++ map plain_byte plain')) where
  abbrev one : Scan
  one = scan_at state seq plain out

  abbrev two : Scan
  two = scan_at state seq plain' out'

  emit-Ahead : (t : Token) → Ahead p (emit one t) (emit two t)
  unfolding emit
  emit-Ahead t = record {
    same_state = refl;
    same_seq = refl;
    ahead =
        both_more p one two (emit one t) (emit two t) (events_of t) h (seen-emit one t)
          (seen-emit two t);
  }

  give_up-Ahead : (more : Bytes) → Ahead p (give_up one more) (give_up two more)
  unfolding give_up
  give_up-Ahead more = record {
    same_state = refl;
    same_seq = refl;
    ahead =
        both_more p one two (give_up one more) (give_up two more) (map plain_byte (seq ++ more)) h
          (seen-give_up one more) (seen-give_up two more);
  }

  restart-Ahead : Ahead p (restart one) (restart two)
  unfolding restart
  restart-Ahead = record {
    same_state = refl;
    same_seq = refl;
    ahead =
        both_more p one two (restart one) (restart two) (map plain_byte seq) h (seen-restart one)
          (seen-restart two);
  }

  push-Ahead : (state' : State) (b : ℕ) → Ahead p (push one state' b) (push two state' b)
  push-Ahead state' b = record { same_state = refl; same_seq = refl; ahead = h }

module _ (p : List Event) (state : State) (seq plain plain' : Bytes) (out out' : List Token)
    (h : events out ++ map plain_byte plain ≡ p ++ (events out' ++ map plain_byte plain')) where
  abbrev left : Scan
  left = scan_at state seq plain out

  abbrev right : Scan
  right = scan_at state seq plain' out'

  step_ground-Ahead : (b : ℕ) → Ahead p (step_ground left b) (step_ground right b)
  unfolding step_ground
  step_ground-Ahead b =
      if_Ahead p (b == 0x1b) (record { same_state = refl; same_seq = refl; ahead = h })
        (record {
          same_state = refl;
          same_seq = refl;
          ahead =
              both_more p left right (record left { plain = plain ++ b ∷ [] })
                (record right { plain = plain' ++ b ∷ [] }) (plain_byte b ∷ []) h
                (simp (map-append, append_assoc)) (simp (map-append, append_assoc));
        })

  step_esc-Ahead : (b : ℕ) → Ahead p (step_esc left b) (step_esc right b)
  unfolding step_esc
  step_esc-Ahead b = if_Ahead p (b == b'c') (emit-Ahead p state seq plain plain' out out' h ris) (
      if_Ahead p (b == b'[') (push-Ahead p state seq plain plain' out out' h State.csi b) (
        if_Ahead p (b == b']') (push-Ahead p state seq plain plain' out out' h State.osc b) (
          if_Ahead p (b == 0x1b) (restart-Ahead p state seq plain plain' out out' h)
            (give_up-Ahead p state seq plain plain' out out' h (b ∷ [])))))

  step_csi-Ahead : (b : ℕ) → Ahead p (step_csi left b) (step_csi right b)
  unfolding step_csi
  step_csi-Ahead b =
      if_Ahead p (within 0x40 0x7e b) (emit-Ahead p state seq plain plain' out out' h _) (
        if_Ahead p (b == 0x1b) (restart-Ahead p state seq plain plain' out out' h) (
          if_Ahead p (b == 0x18 || b == 0x1a)
            (give_up-Ahead p state seq plain plain' out out' h (b ∷ []))
            (if_Ahead p (ltb max_csi (length (seq ++ b ∷ [])))
              (give_up-Ahead p state seq plain plain' out out' h (b ∷ []))
              (push-Ahead p state seq plain plain' out out' h State.csi b))))

  step_osc-Ahead : (b : ℕ) → Ahead p (step_osc left b) (step_osc right b)
  unfolding step_osc
  step_osc-Ahead b = if_Ahead p (b == 0x07) (emit-Ahead p state seq plain plain' out out' h _) (
      if_Ahead p (b == 0x1b) (push-Ahead p state seq plain plain' out out' h osc_esc b) (
        if_Ahead p (b == 0x18 || b == 0x1a)
          (give_up-Ahead p state seq plain plain' out out' h (b ∷ []))
          (if_Ahead p (ltb (osc_limit (seq ++ b ∷ []) + 2) (length (seq ++ b ∷ [])))
            (give_up-Ahead p state seq plain plain' out out' h (b ∷ []))
            (push-Ahead p state seq plain plain' out out' h State.osc b))))

step_osc_esc-Ahead :
    (p : List Event) (state : State) (seq plain plain' : Bytes) (out out' : List Token)
    → events out ++ map plain_byte plain ≡ p ++ (events out' ++ map plain_byte plain')
    → (b : ℕ)
    → Ahead p
        (step_osc_esc (scan_at state seq plain out) b)
        (step_osc_esc (scan_at state seq plain' out') b)
unfolding step_osc_esc restart
step_osc_esc-Ahead p state seq plain plain' out out' h b =
    if_Ahead p (b == b'\\') (emit-Ahead p state seq plain plain' out out' h _) (
      step_esc-Ahead p esc (0x1b ∷ []) (plain ++ init seq) (plain' ++ init seq) out out'
        (restart-Ahead p state (init seq) plain plain' out out' h).ahead b)

step_at-Ahead :
    (p : List Event) (state : State) (seq plain plain' : Bytes) (out out' : List Token)
    → events out ++ map plain_byte plain ≡ p ++ (events out' ++ map plain_byte plain')
    → (b : ℕ)
    → Ahead p (step (scan_at state seq plain out) b) (step (scan_at state seq plain' out') b)
unfolding step_in
step_at-Ahead p State.ground seq plain plain' out out' h b =
    step_ground-Ahead p State.ground seq plain plain' out out' h b
step_at-Ahead p esc seq plain plain' out out' h b =
    step_esc-Ahead p esc seq plain plain' out out' h b
step_at-Ahead p State.csi seq plain plain' out out' h b =
    step_csi-Ahead p State.csi seq plain plain' out out' h b
step_at-Ahead p State.osc seq plain plain' out out' h b =
    step_osc-Ahead p State.osc seq plain plain' out out' h b
step_at-Ahead p osc_esc seq plain plain' out out' h b =
    step_osc_esc-Ahead p osc_esc seq plain plain' out out' h b

step-Ahead : (p : List Event) (s t : Scan) (b : ℕ) → Ahead p s t → Ahead p (step s b) (step t b)
step-Ahead p s t b a =
    subst (λ q. Ahead p (step s b) (step q b))
      (λ i. record { state = a.same_state i; seq = a.same_seq i; plain = t.plain; out = t.out })
      (step_at-Ahead p s.state s.seq s.plain t.plain s.out t.out a.ahead b)

scan-Ahead :
    (p : List Event) (bs : Bytes) (s t : Scan) → Ahead p s t → Ahead p (scan s bs) (scan t bs)
unfolding scan
scan-Ahead p [] s t a = a
scan-Ahead p (b ∷ bs) s t a = scan-Ahead p bs (step s b) (step t b) (step-Ahead p s t b a)

scan-append : (s : Scan) (a b : Bytes) → scan s (a ++ b) ≡ scan (scan s a) b
unfolding scan
scan-append s [] b = refl
scan-append s (x ∷ a) b = scan-append (step s x) a b

-- From any scanner, one chunk `a ++ b` gives the sequences and the plain bytes, in order, that
-- the chunks `a` and then `b` give, and leaves the same scanner.
pub feed_chunks :
    (s : OutputScanner) (a b : Bytes)
    → (events (feed s (a ++ b)).0 ≡ events (feed s a).0 ++ events (feed (feed s a).1 b).0)
      × ((feed s (a ++ b)).1 ≡ (feed (feed s a).1 b).1)
unfolding feed
feed_chunks s a b = rw (scan-append (start s) a b) (
  seen-flush_raw whole
      ∙ both.ahead
      ∙ ap₂ ◌++◌ (sym (seen-flush_raw m)) (sym (seen-flush_raw second)),
  λ i. record { state = both.same_state i; seq = both.same_seq i },
)
  where
    m : Scan
    m = scan (start s) a

    whole : Scan
    whole = scan m b

    second : Scan
    second = scan (start (record { state = m.state; seq = m.seq })) b

    both : Ahead (seen m) whole second
    both =
        scan-Ahead (seen m) b m (start (record { state = m.state; seq = m.seq }))
          (record { same_state = refl; same_seq = refl; ahead = sym (append-nil (seen m)) })
