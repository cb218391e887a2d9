-- ===== src/Terminal/Csi.antt =====
-- `Csi`, its queries and `parse_csi` of crates/pty-terminal/src/strip.rs.
use pty.Base.{
  ℕ, suc, ◌+◌, ◌-◌, ◌*◌, min, Bool, true, false, not, ◌&&◌, ◌||◌, List, [], ◌∷◌, Option, none, some,
  leb, ◌==◌, if◌then◌else◌, get_elem?, take, drop, Bytes,
}

pub record Csi : Type 0 where
  pub raw : Bytes
  pub prefix : Option ℕ
  pub intermediates : Bytes
  pub params : List ℕ
  pub final_byte : ℕ

-- `==` on an optional byte, and on lists of numbers.
abbrev pub prefix_is : Option ℕ → ℕ → Bool
prefix_is none b = false
prefix_is (some a) b = a == b

abbrev pub is_none : Option ℕ → Bool
is_none none = true
is_none (some a) = false

unfoldable pub list_eq : List ℕ → List ℕ → Bool
list_eq [] [] = true
list_eq (x ∷ xs) (y ∷ ys) = x == y && list_eq xs ys
list_eq _ _ = false

abbrev pub is_empty : List ℕ → Bool
is_empty [] = true
is_empty (x ∷ xs) = false

-- First parameter, or `default` when the sequence has none.
unfoldable pub param : Csi → ℕ → ℕ → ℕ
param c i default = elim (get_elem? c.params i) [ none ↦ default | some v ↦ v ]

abbrev first_is_zero : List ℕ → Bool
first_is_zero [] = true
first_is_zero (p ∷ ps) = p == 0

unfoldable pub is_da1_query : Csi → Bool
is_da1_query c =
    c.final_byte == b'c' && is_none c.prefix && is_empty c.intermediates && first_is_zero c.params

unfoldable pub is_da2_query : Csi → Bool
is_da2_query c = c.final_byte == b'c' && prefix_is c.prefix b'>' && is_empty c.intermediates

unfoldable pub is_dsr_query : Csi → Bool
unfolding list_eq
is_dsr_query c =
    c.final_byte == b'n'
    && is_none c.prefix
    && is_empty c.intermediates
    && list_eq c.params (6 ∷ [])

unfoldable pub is_xtversion_query : Csi → Bool
is_xtversion_query c = c.final_byte == b'q' && prefix_is c.prefix b'>' && is_empty c.intermediates

abbrev size_param : List ℕ → Option ℕ
size_param [] = none
size_param (p ∷ []) = if p == 14 || p == 16 || p == 18 || p == 19 then some p else none
size_param (p ∷ q ∷ rest) = none

unfoldable pub size_query : Csi → Option ℕ
size_query c =
    if c.final_byte == b't' && is_none c.prefix && is_empty c.intermediates
    then size_param c.params
    else none

-- The queries that the session terminal answers itself.
unfoldable pub is_stripped_query : Csi → Bool
unfolding list_eq is_da1_query is_da2_query is_dsr_query is_xtversion_query size_query
is_stripped_query c =
    (prefix_is c.prefix b'?'
      && c.final_byte == b'm'
      && is_empty c.intermediates
      && list_eq c.params (4 ∷ []))
    || is_da1_query c
    || is_da2_query c
    || is_dsr_query c
    || is_xtversion_query c
    || (c.final_byte == b'n'
        && is_none c.prefix
        && is_empty c.intermediates
        && list_eq c.params (5 ∷ []))
    || (c.final_byte == b'p'
        && prefix_is c.prefix b'?'
        && list_eq c.intermediates (b'$' ∷ [])
        && not (is_empty c.params))
    || (c.final_byte == b'u'
        && prefix_is c.prefix b'?'
        && is_empty c.intermediates
        && is_empty c.params)
    || not (is_none (size_query c))

unfoldable pub is_mode_query : Csi → ℕ → Bool
unfolding list_eq
is_mode_query c mode =
    c.final_byte == b'p'
    && prefix_is c.prefix b'?'
    && list_eq c.intermediates (b'$' ∷ [])
    && list_eq c.params (mode ∷ [])

unfoldable pub kitty_push : Csi → Option ℕ
unfolding param
kitty_push c =
    if c.final_byte == b'u' && prefix_is c.prefix b'>' && is_empty c.intermediates
    then some (min (param c 0 0) 255)
    else none

unfoldable pub is_kitty_pop : Csi → Bool
is_kitty_pop c = c.final_byte == b'u' && prefix_is c.prefix b'<' && is_empty c.intermediates

unfoldable pub dec_modes : Csi → Option (List ℕ × Bool)
dec_modes c =
    if prefix_is c.prefix b'?' && is_empty c.intermediates
    then (if c.final_byte == b'h'
        then some (c.params, true)
        else if c.final_byte == b'l'
        then some (c.params, false)
        else none)
    else none

abbrev pub within : ℕ → ℕ → ℕ → Bool
within lo hi b = leb lo b && leb b hi

abbrev pub is_digit : ℕ → Bool
is_digit b = within b'0' b'9' b

-- `slice.split(|b| b == at)`: the parts between the separators, one more than there are.
unfoldable pub split_at : ℕ → Bytes → List Bytes
split_at at [] = [] ∷ []
split_at at (b ∷ bs) = elim (split_at at bs) [
  | [] ↦ [] ∷ []
  | part ∷ parts ↦ if b == at then [] ∷ part ∷ parts else (b ∷ part) ∷ parts
]

-- What stands before the first `:`.
unfoldable pub before_colon : Bytes → Bytes
before_colon [] = []
before_colon (b ∷ bs) = if b == b':' then [] else b ∷ before_colon bs

-- The value of the digits, held at `u16::MAX`; other bytes are skipped.
unfoldable pub number_from : ℕ → Bytes → ℕ
number_from v [] = v
number_from v (d ∷ ds) = number_from (if is_digit d then min (v * 10 + (d - b'0')) 65535 else v) ds

unfoldable pub numbers : List Bytes → List ℕ
unfolding before_colon number_from
numbers [] = []
numbers (part ∷ parts) = number_from 0 (before_colon part) ∷ numbers parts

unfoldable pub parse_params : Bytes → List ℕ
unfolding split_at numbers
parse_params [] = []
parse_params (b ∷ bs) = numbers (split_at b';' (b ∷ bs))

-- Where the intermediates begin: the first byte of 0x20 to 0x2f, or the end.
unfoldable pub inter_start : Bytes → ℕ
inter_start [] = 0
inter_start (b ∷ bs) = if within 0x20 0x2f b then 0 else suc (inter_start bs)

-- `body.split_last`: the bytes before the final one.
abbrev pub init : Bytes → Bytes
init [] = []
init (b ∷ []) = []
init (b ∷ c ∷ rest) = b ∷ init (c ∷ rest)

abbrev pub last : Bytes → ℕ
last [] = 0
last (b ∷ []) = b
last (b ∷ c ∷ rest) = last (c ∷ rest)

abbrev private_marker : Bytes → Option ℕ
private_marker [] = none
private_marker (first ∷ rest) = if within 0x3c 0x3f first then some first else none

abbrev after_marker : Bytes → Bytes
after_marker [] = []
after_marker (first ∷ rest) = if within 0x3c 0x3f first then rest else first ∷ rest

-- `seq` is `ESC [ body final`; the scanner calls it with no shorter one.
unfoldable pub parse_csi : Bytes → Csi
unfolding parse_params inter_start
parse_csi seq =
    let body = init (drop 2 seq) in
    let params_bytes = after_marker body in
    let start = inter_start params_bytes in
    record {
      raw = seq;
      prefix = private_marker body;
      intermediates = drop start params_bytes;
      params = parse_params (take start params_bytes);
      final_byte = last seq;
    }
