-- ===== src/Daemon/Clients/Negotiate.antt =====
-- What `negotiate_size` comes to: the smallest rows and columns that a client asked for, within
-- the limits, told to the clients and set on the pty.
use pty.Base.{
  ℕ, ◌*◌, ◌≤◌, ◌<◌, ◌≡◌, arith, Bool, true, false, List, [], ◌∷◌, ◌++◌, some, if◌then◌else◌, min,
  All, get_elem?, ◌⊎◌,
}
use pty.Protocol.Encode.{encode_geometry}
use pty.Daemon.Clients.{
  PtySize, Client, hand, gets_geometry, constrains_size, Terminal, Daemon, change, narrow,
}

-- What the clients that constrain the size ask for, on one axis.
abbrev pub asked : (Client → ℕ) → List (ℕ × Client) → List ℕ
asked axis [] = []
asked axis ((i, c) ∷ cs) = if constrains_size c then axis c ∷ asked axis cs else asked axis cs

-- The smallest entry.
pub record IsLeast (n : ℕ) (l : List ℕ) : Type 0 where
  pub below : All (λ x. n ≤ x) l
  pub at : ℕ
  pub among : get_elem? l at ≡ some n

abbrev narrow_all : ℕ → List ℕ → ℕ
narrow_all n [] = n
narrow_all n (x ∷ xs) = narrow_all (narrow n x) xs

-- The loop from a size on.
record Narrowed (n m : ℕ) (l : List ℕ) : Type 0 where
  under : m ≤ n
  each : All (λ x. m ≤ x) l
  taken : (m ≡ n) ⊎ ((i : ℕ) × (get_elem? l i ≡ some m))

All-le : (n m : ℕ) (l : List ℕ) → n ≤ m → All (λ x. m ≤ x) l → All (λ x. n ≤ x) l
All-le n m [] h a = tt
All-le n m (x ∷ l) h a = (omega (arith, a.0), All-le n m l h a.1)

-- Each client that constrains the size asked for a row and a column at least.
abbrev pub AskPositive : List (ℕ × Client) → Type 0
AskPositive cs =
    All (λ x. 0 < x) (asked (λ c. c.rows) cs) × All (λ x. 0 < x) (asked (λ c. c.cols) cs)

module _ {T : Type 0} (term : Terminal T) where
  -- A negotiation that resized: to the smallest rows and columns asked for, within the limits; each
  -- client that is told the geometry was handed it, and no other packet; the terminal was resized to
  -- it and its replies were written to the pty; and the pty was set to it once, with its pixels.
  pub record Resized (d d' : Daemon T) : Type 0 where
    pub to_rows : ℕ
    pub to_cols : ℕ
    pub rows_least : IsLeast to_rows (asked (λ c. c.rows) d.clients)
    pub cols_least : IsLeast to_cols (asked (λ c. c.cols) d.clients)
    pub rows_low : to_rows ≤ 4096
    pub cols_low : to_cols ≤ 4096
    pub cells_low : to_rows * to_cols ≤ 250000
    pub rows_some : 0 < to_rows
    pub cols_some : 0 < to_cols
    pub actor_resized : d'.actor ≡ (term.take_replies (term.resize to_cols to_rows d.actor)).1
    pub answered :
        d'.pty_input
        ≡ d.pty_input ++ (term.take_replies (term.resize to_cols to_rows d.actor)).0 ∷ []
    pub told :
        d'.clients
        ≡ change (λ i c. gets_geometry c) (hand (encode_geometry to_rows to_cols)) d.clients
    pub set_size : PtySize
    pub set_once : d'.pty_sizes ≡ d.pty_sizes ++ set_size ∷ []
    pub set_rows : set_size.size_rows ≡ to_rows
    pub set_cols : set_size.size_cols ≡ to_cols
    pub set_width :
        set_size.pixel_width
        ≡ min
            (min (to_cols * (term.cell_of (term.resize to_cols to_rows d.actor)).0) 4294967295)
            65535
    pub set_height :
        set_size.pixel_height
        ≡ min
            (min (to_rows * (term.cell_of (term.resize to_cols to_rows d.actor)).1) 4294967295)
            65535

  -- Why a negotiation may leave everything as it is: no client constrains the size; the smallest
  -- rows and columns asked for are too large; or they are the terminal's already.
  pub record Kept (d : Daemon T) : Type 0 where
    pub why :
        ((asked (λ c. c.rows) d.clients ≡ []) ⊎ (asked (λ c. c.cols) d.clients ≡ []))
        ⊎ ((rows : ℕ) × (cols : ℕ) × IsLeast rows (asked (λ c. c.rows) d.clients)
            × IsLeast cols (asked (λ c. c.cols) d.clients)
            × ((4096 < rows)
                ⊎ (4096 < cols)
                ⊎ (250000 < rows * cols)
                ⊎ ((rows ≡ term.rows_of d.actor) × (cols ≡ term.cols_of d.actor))))

  -- The two ends of a negotiation: it resized, or it changed nothing for one of three reasons.
  abbrev pub Negotiated : Daemon T → Bool × Daemon T → Type 0
  Negotiated d o = ((o.0 ≡ true) × Resized d o.1) ⊎ ((o.0 ≡ false) × (o.1 ≡ d) × Kept d)
