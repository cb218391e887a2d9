-- ===== src/Daemon/Clients.antt =====
-- The clients of the daemon: `Client` of crates/pty/src/daemon/clients.rs, the map of the clients,
-- and the size negotiation of crates/pty/src/daemon/geometry.rs. The terminal is an interface, since
-- a library renders it. The packets handed to `send` are a list, whose way to the socket is in
-- Outbound. What is written into the registry is left out, and so are `pid` and `tty` of an ATTACH.
pub mod Negotiate
pub mod Handlers
pub mod Cuts
pub mod Serves
mod Keeps
pub mod Current
pub mod Same
pub mod Promises
use pty.Base.{
  ℕ, zero, suc, ◌+◌, ◌-◌, ◌*◌, Bool, true, false, not, ◌&&◌, ◌||◌, List, [], ◌∷◌, ◌++◌, Option,
  none, some, ltb, leb, ◌==◌, if◌then◌else◌, length, min, Bytes, ℤ,
}
use pty.Protocol.Encode.{
  encode_geometry, encode_screen, encode_exit, decode_size, decode_cell, decode_peek,
}

pub data Role : Type 0 where
  command writable readonly : Role

-- `Attach { size_matched }` and `Peek { plain, full }`.
pub data CutKind : Type 0 where
  attach_cut : Bool → CutKind
  peek_cut : Bool → Bool → CutKind

-- `Settling` has its deadline, its generation and its kind.
pub data Phase : Type 0 where
  live : Phase
  settling : ℕ → ℕ → CutKind → Phase

pub record Client : Type 0 where
  pub role : Role
  pub rows : ℕ
  pub cols : ℕ
  pub attach_seq : ℕ
  pub generation : ℕ
  pub phase : Phase
  pub sent : List Bytes

abbrev pub new_client : ℕ → ℕ → Client
new_client rows cols = record {
  role = command;
  rows = rows;
  cols = cols;
  attach_seq = 0;
  generation = 0;
  phase = live;
  sent = [];
}

abbrev pub hand : Bytes → Client → Client
hand packet c = record c { sent = c.sent ++ packet ∷ [] }

abbrev is_writable : Role → Bool
is_writable command = false
is_writable writable = true
is_writable readonly = false

abbrev is_readonly : Role → Bool
is_readonly command = false
is_readonly writable = false
is_readonly readonly = true

unfoldable pub is_settling : Client → Bool
is_settling c = elim c.phase [ live ↦ false | settling d g k ↦ true ]

unfoldable pub gets_geometry : Client → Bool
gets_geometry c = ltb 0 c.attach_seq || is_readonly c.role

unfoldable pub constrains_size : Client → Bool
constrains_size c = is_writable c.role && ltb 0 c.attach_seq

-- What the handlers use of the terminal: `TerminalActor` of crates/pty-terminal/src/actor.rs, which
-- stands on a library. Nothing is assumed of the operations.
pub record Terminal (T : Type 0) : Type 0 where
  pub rows_of : T → ℕ
  pub cols_of : T → ℕ
  pub cell_of : T → ℕ × ℕ
  pub resize : ℕ → ℕ → T → T
  pub set_cell : ℕ → ℕ → T → T
  pub take_replies : T → Bytes × T
  pub serialize : CutKind → T → Bytes

-- A size of the pty: rows, columns, and the width and height in pixels.
pub record PtySize : Type 0 where
  pub size_rows : ℕ
  pub size_cols : ℕ
  pub pixel_width : ℕ
  pub pixel_height : ℕ

-- The clients by their id, in its order; the sizes set on the pty, and the input written to it.
pub record Daemon (T : Type 0) : Type 0 where
  pub clients : List (ℕ × Client)
  pub attach_counter : ℕ
  pub actor : T
  pub exited : Bool
  pub exit_code : ℤ
  pub last_resize : Option ℕ
  pub settle : ℕ
  pub pty_sizes : List PtySize
  pub pty_input : List Bytes

unfoldable pub find_client : ℕ → List (ℕ × Client) → Option Client
find_client id [] = none
find_client id ((i, c) ∷ cs) = if i == id then some c else find_client id cs

-- A change of each client that a test picks.
unfoldable pub change :
    (ℕ → Client → Bool) → (Client → Client) → List (ℕ × Client) → List (ℕ × Client)
change test f [] = []
change test f ((i, c) ∷ cs) = (i, if test i c then f c else c) ∷ change test f cs

-- `get_mut` of one client.
unfoldable pub change_client : ℕ → (Client → Client) → List (ℕ × Client) → List (ℕ × Client)
unfolding change
change_client id f cs = change (λ i c. i == id) f cs

unfoldable pub remove_client : ℕ → List (ℕ × Client) → List (ℕ × Client)
remove_client id [] = []
remove_client id ((i, c) ∷ cs) =
    if i == id then remove_client id cs else (i, c) ∷ remove_client id cs

-- `insert` of a map that is ordered by its keys.
unfoldable pub insert_client : ℕ → Client → List (ℕ × Client) → List (ℕ × Client)
insert_client id client [] = (id, client) ∷ []
insert_client id client ((i, c) ∷ cs) =
    if i == id
    then (id, client) ∷ cs
    else if ltb id i
    then (id, client) ∷ (i, c) ∷ cs
    else (i, c) ∷ insert_client id client cs

-- One round of the loop on one axis.
unfoldable pub narrow : ℕ → ℕ → ℕ
narrow least n = if least == 0 then n else min least n

-- The loop over the clients that constrain the size.
unfoldable pub negotiated : List (ℕ × Client) → ℕ × ℕ → ℕ × ℕ
negotiated [] size = size
negotiated ((i, c) ∷ cs) size =
    negotiated cs (if constrains_size c then (narrow size.0 c.rows, narrow size.1 c.cols) else size)

-- A size that is refused: none, or one that is too large to draw.
unfoldable pub is_refused : ℕ → ℕ → Bool
is_refused rows cols =
    (rows == 0 || cols == 0) || (ltb 4096 rows || ltb 4096 cols || ltb 250000 (rows * cols))

-- `saturating_mul` on `u32`, and the cut to a `u16`.
unfoldable pub pixels : ℕ → ℕ → ℕ
pixels cells extent = min (min (cells * extent) 4294967295) 65535

module _ {T : Type 0} (term : Terminal T) where
  unfoldable pub resize_pty : ℕ → ℕ → Daemon T → Daemon T
  resize_pty rows cols d = record d {
    pty_sizes =
        d.pty_sizes
        ++ record {
          size_rows = rows;
          size_cols = cols;
          pixel_width = pixels cols (term.cell_of d.actor).0;
          pixel_height = pixels rows (term.cell_of d.actor).1;
        }
          ∷ [];
  }

  unfoldable pub broadcast_geometry : ℕ → ℕ → Daemon T → Daemon T
  broadcast_geometry rows cols d = record d {
    clients = change (λ i c. gets_geometry c) (hand (encode_geometry rows cols)) d.clients;
  }

  abbrev send_replies : Daemon T → Daemon T
  send_replies d = record d {
    actor = (term.take_replies d.actor).1;
    pty_input = d.pty_input ++ (term.take_replies d.actor).0 ∷ [];
  }

  -- `negotiate_size` behind its guards.
  unfoldable pub resize_all : ℕ → ℕ → ℕ → Daemon T → Daemon T
  unfolding resize_pty broadcast_geometry
  resize_all now rows cols d =
      record (send_replies (
        resize_pty rows cols
          (broadcast_geometry rows cols (record d { actor = term.resize cols rows d.actor })))) {
            last_resize = some now;
          }

  -- Whether the size changed, and the daemon after.
  unfoldable pub negotiate_size : ℕ → Daemon T → Bool × Daemon T
  negotiate_size now d =
      let (rows, cols) = negotiated d.clients (0, 0) in
      if is_refused rows cols || (rows == term.rows_of d.actor && cols == term.cols_of d.actor)
      then (false, d)
      else (true, resize_all now rows cols d)

  unfoldable pub nudge_redraw : Daemon T → Daemon T
  unfolding resize_pty
  nudge_redraw d =
      let rows = term.rows_of d.actor in
      let cols = term.cols_of d.actor in
      if ltb cols 2
      then d
      else let narrower = resize_pty rows (cols - 1) d in
        let between =
          resize_pty rows cols
            (record narrower { actor = term.resize (cols - 1) rows narrower.actor }) in
        record between { actor = term.resize cols rows between.actor }
