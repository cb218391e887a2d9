-- ===== src/Daemon/Clients/Promises.antt =====
-- An ATTACH or a PEEK is answered: it leaves its client either with its SCREEN, or waiting for it until
-- a moment that is no later than the settle time; and whoever waits is served then.
use pty.Base.{ℕ, ◌≤◌, ◌≡◌, Bool, ◌&&◌, List, ◌++◌, Option, none, some, ◌==◌, Bytes, ℤ}
use pty.Protocol.Encode.{decode_size}
use pty.Daemon.Clients.{CutKind, attach_cut, live, settling, Client, Terminal, Daemon}
use pty.Daemon.Clients.Handlers.{adopt_cell_size}
use pty.Daemon.Clients.Serves.{cut_packets}

module _ {T : Type 0} (term : Terminal T) where
  -- The client either waits for a cut of its current generation, which is due by then, or is live
  -- and was handed the packets of its cut at the end.
  pub data Answer (by : ℕ) (exited : Bool) (code : ℤ) (kind : CutKind) (c : Client) : Type 0 where
    pledged :
        (deadline : ℕ)
        → deadline ≤ by
        → c.phase ≡ settling deadline c.generation kind
        → Answer by exited code kind c
    handed :
        (before : List Bytes) (terminal : T)
        → c.phase ≡ live
        → c.sent ≡ before ++ cut_packets (term.serialize kind terminal) exited code
        → Answer by exited code kind c

  pub record Promised (by : ℕ) (exited : Bool) (code : ℤ) (kind : CutKind) (after : Option Client)
      : Type 0 where
    pub client : Client
    pub found : after ≡ some client
    pub answer : Answer by exited code kind client

  abbrev IsWithin : ℕ → Option ℕ → Type 0
  IsWithin bound none = Unit
  IsWithin bound (some delay) = delay ≤ bound

  abbrev settled : ℕ → ℕ → CutKind → Client → Client
  settled deadline g kind c = record c { phase = settling deadline g kind }

  abbrev pub attach_kind : Bytes → Daemon T → CutKind
  attach_kind payload d =
      let d1 = (adopt_cell_size term payload d).1 in
      attach_cut (
        ((decode_size payload).0 == term.rows_of d1.actor)
        && ((decode_size payload).1 == term.cols_of d1.actor))
