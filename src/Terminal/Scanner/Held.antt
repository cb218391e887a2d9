-- ===== src/Terminal/Scanner/Held.antt =====
-- What the scanner holds back in each state, and how much of it.
use pty.Base.{
  ℕ, ◌+◌, ◌≤◌, ◌≡◌, refl, ap, arith, Bool, true, false, ◌||◌, [], ◌∷◌, ◌++◌, ltb, ◌==◌,
  if◌then◌else◌, length, Bytes, length-append,
}
use pty.Terminal.Csi.{within, init}
use pty.Terminal.Scanner.{
  max_csi, max_metadata, State, esc, osc_esc, Token, ris, OutputScanner, Scan, start, emit, give_up,
  restart, osc_limit, step_ground, step_esc, step_csi, step_osc, step_osc_esc, step_in, step, scan,
  feed,
}

-- To prove something of both outcomes of a test, each from the test's value.
pub if_cases {ℓ κ} :
    {A : Type ℓ} (P : A → Type κ) (c : Bool) {x y : A}
    → (c ≡ true → P x)
    → (c ≡ false → P y)
    → P (if c then x else y)
if_cases P true f g = f refl
if_cases P false f g = g refl

-- The bytes held in each state: none, a lone escape, or a sequence that is still within its limit.
abbrev pub IsHeld : State → Bytes → Type 0
IsHeld State.ground seq = seq ≡ []
IsHeld esc seq = seq ≡ 0x1b ∷ []
IsHeld State.csi seq = (body : Bytes) × (seq ≡ 0x1b ∷ b'[' ∷ body) × (length seq ≤ max_csi)
IsHeld State.osc seq = (body : Bytes) × (seq ≡ 0x1b ∷ b']' ∷ body) × (length seq ≤ max_metadata + 2)
IsHeld osc_esc seq =
    (body : Bytes) × (seq ≡ (0x1b ∷ b']' ∷ body) ++ 0x1b ∷ []) × (length seq ≤ max_metadata + 3)

abbrev pub HoldsWell : Scan → Type 0
HoldsWell s = IsHeld s.state s.seq

pub osc_limit_bound : (seq : Bytes) → osc_limit seq ≤ max_metadata
unfolding osc_limit
osc_limit_bound seq = ground arith

emit-HoldsWell : (s : Scan) (t : Token) → HoldsWell (emit s t)
unfolding emit
emit-HoldsWell s t = refl

give_up-HoldsWell : (s : Scan) (more : Bytes) → HoldsWell (give_up s more)
unfolding give_up
give_up-HoldsWell s more = refl

restart-HoldsWell : (s : Scan) → HoldsWell (restart s)
unfolding restart
restart-HoldsWell s = refl

step_esc-HoldsWell : (s : Scan) (b : ℕ) → s.seq ≡ 0x1b ∷ [] → HoldsWell (step_esc s b)
unfolding step_esc
step_esc-HoldsWell s b e =
    if_cases HoldsWell (b == b'c') (λ _. emit-HoldsWell s ris)
      λ _.
        if_cases HoldsWell (b == b'[')
          (λ h. ([], ground (arith, ap (λ l. l ++ b ∷ []) e), rw e (omega arith)))
          λ _.
            if_cases HoldsWell (b == b']')
              (λ h. ([], ground (arith, ap (λ l. l ++ b ∷ []) e), rw e (omega arith)))
              λ _.
                if_cases HoldsWell (b == 0x1b) (λ _. restart-HoldsWell s)
                  (λ _. give_up-HoldsWell s (b ∷ []))

step_csi-HoldsWell :
    (s : Scan) (b : ℕ) (body : Bytes) → s.seq ≡ 0x1b ∷ b'[' ∷ body → HoldsWell (step_csi s b)
unfolding step_csi
step_csi-HoldsWell s b body e =
    if_cases HoldsWell (within 0x40 0x7e b) (λ _. emit-HoldsWell s _)
      λ _.
        if_cases HoldsWell (b == 0x1b) (λ _. restart-HoldsWell s)
          λ _.
            if_cases HoldsWell (b == 0x18 || b == 0x1a) (λ _. give_up-HoldsWell s (b ∷ []))
              λ _.
                if_cases HoldsWell (ltb max_csi (length (s.seq ++ b ∷ [])))
                  (λ _. give_up-HoldsWell s (b ∷ []))
                  (λ h. (body ++ b ∷ [], ap (λ l. l ++ b ∷ []) e, ground arith))

step_osc-HoldsWell :
    (s : Scan) (b : ℕ) (body : Bytes)
    → s.seq ≡ 0x1b ∷ b']' ∷ body
    → length s.seq ≤ max_metadata + 2
    → HoldsWell (step_osc s b)
unfolding step_osc
step_osc-HoldsWell s b body e short =
    if_cases HoldsWell (b == 0x07) (λ _. emit-HoldsWell s _)
      λ _.
        if_cases HoldsWell (b == 0x1b)
          (λ h. (
            body,
            ground (arith, ap (λ l. l ++ b ∷ []) e),
            omega (arith, length-append s.seq (b ∷ [])),
          ))
          λ _.
            if_cases HoldsWell (b == 0x18 || b == 0x1a) (λ _. give_up-HoldsWell s (b ∷ []))
              λ _.
                if_cases HoldsWell
                  (ltb (osc_limit (s.seq ++ b ∷ []) + 2) (length (s.seq ++ b ∷ [])))
                  (λ _. give_up-HoldsWell s (b ∷ []))
                  (λ h. (
                    body ++ b ∷ [],
                    ap (λ l. l ++ b ∷ []) e,
                    ground (arith, osc_limit_bound (s.seq ++ b ∷ [])),
                  ))

step_osc_esc-HoldsWell : (s : Scan) (b : ℕ) → HoldsWell (step_osc_esc s b)
unfolding step_osc_esc restart
step_osc_esc-HoldsWell s b =
    if_cases HoldsWell (b == b'\\') (λ _. emit-HoldsWell s _)
      (λ _. step_esc-HoldsWell (restart (record s { seq = init s.seq })) b refl)

step_in-HoldsWell :
    (st : State) (s : Scan) (b : ℕ) → IsHeld st s.seq → s.state ≡ st → HoldsWell (step_in st s b)
unfolding step_in step_ground
step_in-HoldsWell State.ground s b h e = if_cases HoldsWell (b == 0x1b) (λ _. refl) (λ _. rw e h)
step_in-HoldsWell esc s b h e = step_esc-HoldsWell s b h
step_in-HoldsWell State.csi s b h e = step_csi-HoldsWell s b h.0 h.1
step_in-HoldsWell State.osc s b h e = step_osc-HoldsWell s b h.0 h.1 h.2
step_in-HoldsWell osc_esc s b h e = step_osc_esc-HoldsWell s b

pub step-HoldsWell : (s : Scan) (b : ℕ) → HoldsWell s → HoldsWell (step s b)
step-HoldsWell s b h = step_in-HoldsWell s.state s b h refl

pub scan-HoldsWell : (s : Scan) (bs : Bytes) → HoldsWell s → HoldsWell (scan s bs)
unfolding scan
scan-HoldsWell s [] h = h
scan-HoldsWell s (b ∷ bs) h = scan-HoldsWell (step s b) bs (step-HoldsWell s b h)

abbrev pub IsWell : OutputScanner → Type 0
IsWell s = IsHeld s.state s.seq

-- Every chunk keeps the scanner well formed: in the ground state it holds nothing, and otherwise
-- an escape or a sequence that began with one, of at most 64 bytes of CSI or 65539 of OSC.
pub feed-IsWell : (s : OutputScanner) (chunk : Bytes) → IsWell s → IsWell (feed s chunk).1
unfolding feed
feed-IsWell s chunk h = scan-HoldsWell (start s) chunk h
