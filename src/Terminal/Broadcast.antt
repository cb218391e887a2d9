-- ===== src/Terminal/Broadcast.antt =====
-- What `TerminalActor::write` of crates/pty-terminal/src/actor.rs hands on to the clients of the
-- bytes that the child prints. What it feeds to the terminal, its replies and its modes are left
-- out; none of them decides what is handed on, but for whether a client can answer a clipboard
-- read.
pub mod Queries
use pty.Base.{
  Bool, ◌==◌, not, ◌&&◌, ◌||◌, List, [], ◌∷◌, ◌++◌, Option, none, some, if◌then◌else◌, Bytes,
  is_some,
}
use pty.Terminal.Csi.{
  Csi, prefix_is, is_empty, list_eq, is_mode_query, size_query, is_stripped_query,
}
use pty.Terminal.Osc.{Osc, clipboard_read_selection, color_query}
use pty.Terminal.Scanner.{OutputScanner, Token, ris, feed}

-- The query for the state of modifyOtherKeys.
unfoldable pub is_keys_query : Csi → Bool
unfolding list_eq
is_keys_query c =
    prefix_is c.prefix b'?'
    && c.final_byte == b'm'
    && is_empty c.intermediates
    && list_eq c.params (4 ∷ [])

-- A sequence that the terminal is fed.
unfoldable pub fed_broadcast : Csi → Bytes
unfolding is_stripped_query
fed_broadcast c = if not (is_stripped_query c) then c.raw else []

-- The sequences that are answered here come first.
unfoldable pub csi_broadcast : Csi → Bytes
unfolding is_keys_query is_mode_query size_query fed_broadcast
csi_broadcast c =
    if is_keys_query c
    then []
    else if is_mode_query c 5522
    then []
    else if is_some (size_query c)
    then []
    else fed_broadcast c

unfoldable pub osc_broadcast : Bool → Osc → Bytes
unfolding clipboard_read_selection color_query
osc_broadcast clipboard_client o =
    if is_some (clipboard_read_selection o) && not clipboard_client
    then []
    else if is_some (color_query o)
    then []
    else o.raw

unfoldable pub token_broadcast : Bool → Token → Bytes
unfolding csi_broadcast osc_broadcast
token_broadcast clipboard_client (Token.raw b) = b
token_broadcast clipboard_client ris = 0x1b ∷ b'c' ∷ []
token_broadcast clipboard_client (Token.csi c) = csi_broadcast c
token_broadcast clipboard_client (Token.osc o) = osc_broadcast clipboard_client o

unfoldable pub broadcast_all : Bool → List Token → Bytes
unfolding token_broadcast
broadcast_all clipboard_client [] = []
broadcast_all clipboard_client (t ∷ ts) =
    token_broadcast clipboard_client t ++ broadcast_all clipboard_client ts

-- The bytes handed on, and the scanner for the next write.
unfoldable pub write : Bool → OutputScanner → Bytes → Bytes × OutputScanner
unfolding broadcast_all feed
write clipboard_client scanner bytes =
    let (tokens, next) = feed scanner bytes in (broadcast_all clipboard_client tokens, next)
