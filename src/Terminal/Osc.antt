-- ===== src/Terminal/Osc.antt =====
-- `Osc`, `make_osc` and the colour queries of crates/pty-terminal/src/strip.rs.
use pty.Base.{
  ℕ, ◌+◌, ◌-◌, ◌*◌, Bool, true, false, not, ◌&&◌, ◌||◌, List, [], ◌∷◌, Option, none, some, ltb, leb,
  ◌==◌, if◌then◌else◌, length, drop, Bytes,
}
use pty.Terminal.Csi.{list_eq, is_digit, within, split_at, is_empty, init}

pub data Terminator : Type 0 where
  bel st : Terminator

pub record Osc : Type 0 where
  pub raw : Bytes
  pub payload : Bytes
  pub terminator : Terminator

-- The bytes before and behind the first `;`; without one, all and none.
unfoldable pub split_semicolon : Bytes → Bytes × Bytes
split_semicolon [] = ([], [])
split_semicolon (b ∷ bs) =
    if b == b';' then ([], bs) else (b ∷ (split_semicolon bs).0, (split_semicolon bs).1)

-- `str::parse::<u32>`: at least one digit, no sign but `+`, no other byte, and no overflow.
unfoldable pub parse_digits : ℕ → Bytes → Option ℕ
parse_digits v [] = some v
parse_digits v (d ∷ ds) =
    let w = v * 10 + (d - b'0') in
    let rest = parse_digits w ds in if is_digit d && ltb w 4294967296 then rest else none

unfoldable pub parse_u32 : Bytes → Option ℕ
unfolding parse_digits
parse_u32 [] = none
parse_u32 (b ∷ bs) =
    if b == b'+' then (if is_empty bs then none else parse_digits 0 bs) else parse_digits 0 (b ∷ bs)

-- `Osc::split`. An identifier that is not UTF-8 is no number either.
unfoldable pub split : Osc → Option ℕ × Bytes
unfolding split_semicolon parse_u32
split o = let (id, rest) = split_semicolon o.payload in (parse_u32 id, rest)

unfoldable pub ends_in_query : Bytes → Option Bytes
ends_in_query [] = none
ends_in_query (b ∷ []) = none
ends_in_query (b ∷ c ∷ []) = if b == b';' && c == b'?' then some [] else none
ends_in_query (b ∷ c ∷ d ∷ rest) = elim (ends_in_query (c ∷ d ∷ rest)) [
  | none ↦ none
  | some s ↦ some (b ∷ s)
]

unfoldable pub all_alphanumeric : Bytes → Bool
all_alphanumeric [] = true
all_alphanumeric (b ∷ bs) =
    (is_digit b || within b'a' b'z' b || within b'A' b'Z' b) && all_alphanumeric bs

abbrev id_is : Option ℕ → ℕ → Bool
id_is none n = false
id_is (some m) n = m == n

unfoldable pub clipboard_read_selection : Osc → Option Bytes
unfolding split ends_in_query all_alphanumeric
clipboard_read_selection o =
    let (id, rest) = split o in
    elim (ends_in_query rest) [
      | none ↦ none
      | some selection ↦
          if id_is id 52
            && not (is_empty selection)
            && leb (length selection) 16
            && all_alphanumeric selection
          then some selection
          else none
    ]

unfoldable pub contains : ℕ → Bytes → Bool
contains a [] = false
contains a (b ∷ bs) = a == b || contains a bs

-- The valid `index;?` pairs; a last field without a partner is left out.
unfoldable pub palette_pairs : List Bytes → List (ℕ × Option ℕ)
unfolding list_eq parse_u32
palette_pairs [] = []
palette_pairs (index ∷ []) = []
palette_pairs (index ∷ query ∷ rest) =
    if list_eq query (b'?' ∷ [])
    then elim (parse_u32 index) [
      | none ↦ palette_pairs rest
      | some i ↦ (4, some i) ∷ palette_pairs rest
    ]
    else palette_pairs rest

unfoldable pub color_query : Osc → Option (List (ℕ × Option ℕ))
unfolding split contains palette_pairs split_at list_eq
color_query o =
    let (id, rest) = split o in
    elim id [
      | none ↦ none
      | some n ↦
          if (n == 10 || n == 11) && list_eq rest (b'?' ∷ [])
          then some ((n, none) ∷ [])
          else if n == 4 && contains b'?' rest
          then some (palette_pairs (split_at b';' rest))
          else none
    ]

-- `seq` is `ESC ] payload` and the terminator, of one byte or two.
unfoldable pub make_osc : Bytes → Terminator → Osc
make_osc seq bel = record { raw = seq; payload = drop 2 (init seq); terminator = bel }
make_osc seq st = record { raw = seq; payload = drop 2 (init (init seq)); terminator = st }
