-- ===== src/Terminal/Scanner.antt =====
-- `OutputScanner` and `strip_terminal_queries` of crates/pty-terminal/src/strip.rs.
pub mod Conserve
pub mod Held
pub mod Events
pub mod Chunks
pub mod Recognise
use pty.Base.{
  ℕ, ◌+◌, Bool, true, false, ◌||◌, List, [], ◌∷◌, ◌++◌, none, some, ltb, ◌==◌, if◌then◌else◌,
  length, take, Bytes,
}
use pty.Terminal.Csi.{Csi, parse_csi, is_stripped_query, list_eq, within, init}
use pty.Terminal.Osc.{Osc, bel, st, make_osc, color_query}

abbrev pub max_csi : ℕ
max_csi = 64

abbrev pub max_osc : ℕ
max_osc = 4096

-- `enhanced_paste::MAX_METADATA`.
abbrev pub max_metadata : ℕ
max_metadata = 65536

pub data Token : Type 0 where
  raw : Bytes → Token
  ris : Token
  csi : Csi → Token
  osc : Osc → Token

-- `Token::raw`: the exact bytes that a token stands for.
unfoldable pub token_bytes : Token → Bytes
token_bytes (Token.raw b) = b
token_bytes ris = 0x1b ∷ b'c' ∷ []
token_bytes (Token.csi c) = c.raw
token_bytes (Token.osc o) = o.raw

pub data State : Type 0 where
  ground esc csi osc osc_esc : State

pub record OutputScanner : Type 0 where
  pub state : State
  pub seq : Bytes

unfoldable pub new_scanner : OutputScanner
new_scanner = record { state = ground; seq = [] }

unfoldable pub reset : OutputScanner → OutputScanner
reset s = record { state = ground; seq = [] }

unfoldable pub pending : OutputScanner → Bytes
pending s = s.seq

-- The scanner with the two locals of `feed`.
pub record Scan : Type 0 where
  pub state : State
  pub seq : Bytes
  pub plain : Bytes
  pub out : List Token

abbrev pub raw_tokens : Bytes → List Token
raw_tokens [] = []
raw_tokens (b ∷ bs) = Token.raw (b ∷ bs) ∷ []

-- `flush_raw`.
unfoldable pub flush_raw : Scan → Scan
flush_raw s = record s { plain = []; out = s.out ++ raw_tokens s.plain }

-- A token ends the sequence: what was plain before it is flushed first.
unfoldable pub emit : Scan → Token → Scan
emit s t = record {
  state = ground;
  seq = [];
  plain = [];
  out = (s.out ++ raw_tokens s.plain) ++ t ∷ [];
}

-- The sequence is given up: its bytes, and `more`, are plain.
unfoldable pub give_up : Scan → Bytes → Scan
give_up s more = record s { state = ground; seq = []; plain = s.plain ++ (s.seq ++ more) }

-- The sequence is given up, and an escape begins a new one.
unfoldable pub restart : Scan → Scan
restart s = record s { state = esc; seq = 0x1b ∷ []; plain = s.plain ++ s.seq }

abbrev pub push : Scan → State → ℕ → Scan
push s state b = record s { state = state; seq = s.seq ++ b ∷ [] }

abbrev pub osc_5522 : Bytes
osc_5522 = 0x1b ∷ b']' ∷ b'5' ∷ b'5' ∷ b'2' ∷ b'2' ∷ b';' ∷ []

unfoldable pub osc_limit : Bytes → ℕ
unfolding list_eq
osc_limit seq = if list_eq (take 7 seq) osc_5522 then max_metadata else max_osc

unfoldable pub step_ground : Scan → ℕ → Scan
step_ground s b =
    if b == 0x1b
    then record s { state = esc; seq = 0x1b ∷ [] }
    else record s { plain = s.plain ++ b ∷ [] }

unfoldable pub step_esc : Scan → ℕ → Scan
step_esc s b =
    if b == b'c'
    then emit s ris
    else if b == b'['
    then push s State.csi b
    else if b == b']'
    then push s State.osc b
    else if b == 0x1b
    then restart s
    else give_up s (b ∷ [])

unfoldable pub step_csi : Scan → ℕ → Scan
step_csi s b =
    if within 0x40 0x7e b
    then emit s (Token.csi (parse_csi (s.seq ++ b ∷ [])))
    else if b == 0x1b
    then restart s
    else if b == 0x18 || b == 0x1a
    then give_up s (b ∷ [])
    else if ltb max_csi (length (s.seq ++ b ∷ []))
    then give_up s (b ∷ [])
    else push s State.csi b

unfoldable pub step_osc : Scan → ℕ → Scan
step_osc s b =
    if b == 0x07
    then emit s (Token.osc (make_osc (s.seq ++ b ∷ []) bel))
    else if b == 0x1b
    then push s osc_esc b
    else if b == 0x18 || b == 0x1a
    then give_up s (b ∷ [])
    else if ltb (osc_limit (s.seq ++ b ∷ []) + 2) (length (s.seq ++ b ∷ []))
    then give_up s (b ∷ [])
    else push s State.osc b

-- Without a `\` the escape that the sequence ends in begins a new one, which takes `b` at once:
-- the source goes one byte back and round its loop.
unfoldable pub step_osc_esc : Scan → ℕ → Scan
step_osc_esc s b =
    if b == b'\\'
    then emit s (Token.osc (make_osc (s.seq ++ b ∷ []) st))
    else step_esc (restart (record s { seq = init s.seq })) b

unfoldable pub step_in : State → Scan → ℕ → Scan
step_in ground s b = step_ground s b
step_in esc s b = step_esc s b
step_in State.csi s b = step_csi s b
step_in State.osc s b = step_osc s b
step_in osc_esc s b = step_osc_esc s b

abbrev pub step : Scan → ℕ → Scan
step s b = step_in s.state s b

unfoldable pub scan : Scan → Bytes → Scan
scan s [] = s
scan s (b ∷ bs) = scan (step s b) bs

abbrev pub start : OutputScanner → Scan
start s = record { state = s.state; seq = s.seq; plain = []; out = [] }

-- `OutputScanner::feed`: the tokens of a chunk, and the scanner behind it.
unfoldable pub feed : OutputScanner → Bytes → List Token × OutputScanner
unfolding flush_raw
feed s chunk =
    let end = scan (start s) chunk in
    ((flush_raw end).out, record { state = end.state; seq = end.seq })

-- A token of `strip_terminal_queries` that is left out.
unfoldable pub is_query : Token → Bool
is_query (Token.raw b) = false
is_query ris = false
is_query (Token.csi c) = is_stripped_query c
is_query (Token.osc o) = elim (color_query o) [ none ↦ false | some pairs ↦ true ]

unfoldable pub kept_bytes : List Token → Bytes
unfolding is_query token_bytes
kept_bytes [] = []
kept_bytes (t ∷ ts) = (if is_query t then [] else token_bytes t) ++ kept_bytes ts

unfoldable pub strip_terminal_queries : Bytes → Bytes
unfolding kept_bytes pending new_scanner
strip_terminal_queries bytes =
    let (tokens, scanner) = feed new_scanner bytes in kept_bytes tokens ++ pending scanner
