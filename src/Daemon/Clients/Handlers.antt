-- ===== src/Daemon/Clients/Handlers.antt =====
-- The handlers of crates/pty/src/daemon/clients.rs for ATTACH, PEEK, RESIZE and a closed socket,
-- the SCREEN cuts and the broadcast. The clock is read once for each message.
use pty.Base.{
  ℕ, suc, ◌+◌, ◌-◌, Bool, true, false, not, ◌&&◌, ◌||◌, List, [], ◌∷◌, ◌++◌, Option, none, some,
  ltb, leb, ◌==◌, if◌then◌else◌, length, Bytes, ℤ,
}
use pty.Protocol.Encode.{
  encode_geometry, encode_screen, encode_exit, decode_size, decode_cell, decode_peek,
}
use pty.Daemon.Clients.{
  writable, readonly, CutKind, attach_cut, peek_cut, Phase, live, settling, Client, hand,
  is_settling, constrains_size, Terminal, Daemon, find_client, change, change_client, insert_client,
  new_client, remove_client, resize_pty, negotiate_size, nudge_redraw,
}

-- The SCREEN for a client, which is live again, and the EXIT behind it.
abbrev pub shown : Bytes → Bool → ℤ → Client → Client
shown screen exited exit_code c = record c {
  phase = live;
  sent =
      if exited
      then (c.sent ++ encode_screen screen ∷ []) ++ encode_exit exit_code ∷ []
      else c.sent ++ encode_screen screen ∷ [];
}

-- The last resize is less than the settle time ago.
abbrev is_recent : ℕ → ℕ → Option ℕ → Bool
is_recent now settle none = false
is_recent now settle (some at) = ltb (now - at) settle

-- How long the cut of an ATTACH waits.
abbrev settle_left : ℕ → ℕ → Option ℕ → Option ℕ
settle_left now settle none = none
settle_left now settle (some at) =
    if ltb (now - at) settle then some (settle - (now - at)) else none

abbrev pub attached : ℕ → ℕ → ℕ → Client → Client
attached rows cols seq c = record c {
  role = writable;
  rows = rows;
  cols = cols;
  attach_seq = seq;
  generation = suc c.generation;
}

abbrev pub peeking : Client → Client
peeking c = record c { role = readonly; generation = suc c.generation }

-- The ids of the clients whose deadline has passed.
abbrev pub is_due : ℕ → Phase → Bool
is_due now live = false
is_due now (settling deadline generation kind) = leb deadline now

unfoldable pub due : ℕ → List (ℕ × Client) → List ℕ
due now [] = []
due now ((i, c) ∷ cs) = if is_due now c.phase then i ∷ due now cs else due now cs

module _ {T : Type 0} (term : Terminal T) where
  -- `adopt_cell_size`: whether the cell size changed.
  unfoldable pub adopt_cell_size : Bytes → Daemon T → Bool × Daemon T
  adopt_cell_size payload d = elim (decode_cell payload) [
    | none ↦ (false, d)
    | some cell ↦
        if (term.cell_of d.actor).0 == cell.0 && (term.cell_of d.actor).1 == cell.1
        then (false, d)
        else (true, record d { actor = term.set_cell cell.0 cell.1 d.actor })
  ]

  abbrev pub needs_nudge : ℕ → CutKind → Daemon T → Bool
  needs_nudge now (attach_cut size_matched) d =
      not d.exited && not size_matched && is_recent now d.settle d.last_resize
  needs_nudge now (peek_cut plain full) d = false

  -- `cut` on a client that settles on its current generation.
  unfoldable pub cut_now : ℕ → ℕ → CutKind → Daemon T → Daemon T
  unfolding nudge_redraw change_client
  cut_now now id kind d =
      let cut_done = record d {
        clients =
            change_client id (shown (term.serialize kind d.actor) d.exited d.exit_code) d.clients;
      } in
      if needs_nudge now kind d then nudge_redraw term cut_done else cut_done

  -- The client's phase decides whether it is cut.
  abbrev pub cut_client : ℕ → ℕ → Client → Phase → Daemon T → Daemon T
  cut_client now id c live d = d
  cut_client now id c (settling deadline generation kind) d =
      if generation == c.generation then cut_now now id kind d else d

  unfoldable pub cut : ℕ → ℕ → Daemon T → Daemon T
  unfolding find_client
  cut now id d = elim (find_client id d.clients) [
    | none ↦ d
    | some c ↦ cut_client now id c c.phase d
  ]

  unfoldable pub schedule_cut : ℕ → ℕ → ℕ → CutKind → Option ℕ → Daemon T → Daemon T
  unfolding cut change_client
  schedule_cut now id generation kind none d = cut now id (record d {
    clients = change_client id (λ c. record c { phase = settling now generation kind }) d.clients;
  })
  schedule_cut now id generation kind (some delay) d = record d {
    clients =
        change_client id (λ c. record c { phase = settling (now + delay) generation kind })
          d.clients;
  }

  -- The part of ATTACH and RESIZE behind the negotiation: a new cell size alone sets the pty.
  abbrev pub pixels_only : Bool → Bool → Daemon T → Daemon T
  pixels_only cell_changed resized d =
      if cell_changed && not resized
      then resize_pty term (term.rows_of d.actor) (term.cols_of d.actor) d
      else d

  abbrev pub tell_geometry : ℕ → Bool → Daemon T → Daemon T
  tell_geometry id resized d = if resized then d else record d {
    clients =
        change_client id (hand (encode_geometry (term.rows_of d.actor) (term.cols_of d.actor)))
          d.clients;
  }

  unfoldable pub attach_delay : ℕ → Bool → Daemon T → Option ℕ
  attach_delay now resized d =
      if d.exited
      then none
      else if resized
      then some d.settle
      else settle_left now d.settle d.last_resize

  unfoldable pub attach_known : ℕ → ℕ → Bytes → Client → Daemon T → Daemon T
  unfolding adopt_cell_size negotiate_size resize_pty schedule_cut attach_delay change_client
  attach_known now id payload c d =
      let (rows, cols) = decode_size payload in
      let (cell_changed, d1) = adopt_cell_size payload d in
      let size_matched = (rows == term.rows_of d1.actor) && (cols == term.cols_of d1.actor) in
      let seq = suc d1.attach_counter in
      let d2 = record d1 {
        attach_counter = seq;
        clients = change_client id (attached rows cols seq) d1.clients;
      } in
      let (resized, d3) = negotiate_size term now d2 in
      let d4 = tell_geometry id resized (pixels_only cell_changed resized d3) in
      schedule_cut now id (suc c.generation) (attach_cut size_matched) (attach_delay now resized d4)
        d4

  unfoldable pub on_attach : ℕ → ℕ → Bytes → Daemon T → Daemon T
  unfolding attach_known find_client
  on_attach now id payload d =
      if ltb (length payload) 4
      then d
      else elim (find_client id d.clients) [ none ↦ d | some c ↦ attach_known now id payload c d ]

  unfoldable pub peek_known : ℕ → ℕ → Bytes → Client → Daemon T → Daemon T
  unfolding negotiate_size schedule_cut change_client
  peek_known now id payload c d =
      let d1 = record d { clients = change_client id peeking d.clients } in
      let (resized, d2) = negotiate_size term now d1 in
      let d3 = tell_geometry id resized d2 in
      let (plain, full) = decode_peek payload in
      schedule_cut now id (suc c.generation) (peek_cut plain full) none d3

  unfoldable pub on_peek : ℕ → ℕ → Bytes → Daemon T → Daemon T
  unfolding peek_known find_client
  on_peek now id payload d = elim (find_client id d.clients) [
    | none ↦ d
    | some c ↦ peek_known now id payload c d
  ]

  unfoldable pub resize_known : ℕ → ℕ → Bytes → Daemon T → Daemon T
  unfolding adopt_cell_size negotiate_size resize_pty change_client
  resize_known now id payload d =
      let (rows, cols) = decode_size payload in
      let seq = suc d.attach_counter in
      let d1 = record d {
        attach_counter = seq;
        clients =
            change_client id (λ c. record c { rows = rows; cols = cols; attach_seq = seq })
              d.clients;
      } in
      let (cell_changed, d2) = adopt_cell_size payload d1 in
      let (resized, d3) = negotiate_size term now d2 in pixels_only cell_changed resized d3

  unfoldable pub on_resize : ℕ → ℕ → Bytes → Daemon T → Daemon T
  unfolding resize_known find_client constrains_size
  on_resize now id payload d = elim (find_client id d.clients) [
    | none ↦ d
    | some c ↦
        if not (constrains_size c) || ltb (length payload) 4
        then d
        else resize_known now id payload d
  ]

  unfoldable pub on_closed : ℕ → ℕ → Daemon T → Daemon T
  unfolding negotiate_size find_client remove_client
  on_closed now id d = elim (find_client id d.clients) [
    | none ↦ d
    | some c ↦ (negotiate_size term now (record d { clients = remove_client id d.clients })).1
  ]

  unfoldable pub cut_each : ℕ → List ℕ → Daemon T → Daemon T
  unfolding cut
  cut_each now [] d = d
  cut_each now (id ∷ ids) d = cut_each now ids (cut now id d)

  unfoldable pub service_cuts : ℕ → Daemon T → Daemon T
  unfolding due cut_each
  service_cuts now d = cut_each now (due now d.clients) d

  unfoldable pub broadcast : Bytes → Daemon T → Daemon T
  unfolding change
  broadcast packet d = record d {
    clients = change (λ i c. not (is_settling c)) (hand packet) d.clients;
  }

  unfoldable pub connect : ℕ → Daemon T → Daemon T
  unfolding insert_client
  connect id d = record d {
    clients = insert_client id (new_client (term.rows_of d.actor) (term.cols_of d.actor)) d.clients;
  }
