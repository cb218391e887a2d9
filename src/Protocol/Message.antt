-- ===== src/Protocol/Message.antt =====
-- `MessageType` and `Packet` of crates/pty-core/src/protocol.rs.
use pty.Base.{ℕ, ◌≡◌, refl, arith, ◌==◌, if◌then◌else◌, Bytes, ◌≤◌}

pub data MessageType : Type 0 where
  data_message attach detach resize exit screen peek status : MessageType
  accepted_socket_ownership lifecycle_cas geometry reset_input_modes : MessageType
  connection_error history : MessageType
  unknown : ℕ → MessageType

unfoldable pub from_u8 : ℕ → MessageType
from_u8 b =
    if b == 0
    then data_message
    else if b == 1
    then attach
    else if b == 2
    then detach
    else if b == 3
    then resize
    else if b == 4
    then exit
    else if b == 5
    then screen
    else if b == 6
    then peek
    else if b == 7
    then status
    else if b == 10
    then geometry
    else if b == 11
    then reset_input_modes
    else if b == 12
    then connection_error
    else if b == 13
    then history
    else if b == 8
    then accepted_socket_ownership
    else if b == 9
    then lifecycle_cas
    else unknown b

unfoldable pub as_u8 : MessageType → ℕ
as_u8 data_message = 0
as_u8 attach = 1
as_u8 detach = 2
as_u8 resize = 3
as_u8 exit = 4
as_u8 screen = 5
as_u8 peek = 6
as_u8 status = 7
as_u8 accepted_socket_ownership = 8
as_u8 lifecycle_cas = 9
as_u8 geometry = 10
as_u8 reset_input_modes = 11
as_u8 connection_error = 12
as_u8 history = 13
as_u8 (unknown b) = b

pub record Packet : Type 0 where
  pub type_ : MessageType
  pub payload : Bytes

-- A type that some wire byte stands for: `unknown` holds only bytes that name nothing else.
abbrev pub IsCanonical : MessageType → Type 0
IsCanonical t = from_u8 (as_u8 t) ≡ t

-- Every byte passes through the framing unharmed: writing a read type gives the same byte.
as_u8-from_u8 : (b : ℕ) → as_u8 (from_u8 b) ≡ b
unfolding as_u8 from_u8
as_u8-from_u8 b = ground arith

-- A type is read back as itself: each named one, and `unknown b` exactly for the bytes above 13.
pub named_canonical : (t : MessageType) → ((b : ℕ) → t ≡ unknown b → 14 ≤ b) → IsCanonical t
unfolding as_u8 from_u8
named_canonical (unknown b) h = let k : 14 ≤ b = h b refl in ground arith
named_canonical _ h = refl
