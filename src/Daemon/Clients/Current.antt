-- ===== src/Daemon/Clients/Current.antt =====
-- Every handler leaves each settling client on its current generation, so that no cut is lost.
use mathlib.Core.Path.{subst}
use pty.Base.{
  ℕ, suc, ◌+◌, ◌≡◌, refl, sym, ap, ◌∙◌, arith, Bool, true, false, not, ◌&&◌, ◌||◌, List, [], ◌∷◌,
  Option, none, some, ltb, ◌==◌, if_intro, option_intro, Bytes, length,
}
use pty.Protocol.Encode.{encode_geometry, decode_size, decode_cell, decode_peek}
use pty.Daemon.Clients.{
  CutKind, peek_cut, settling, Client, hand, is_settling, constrains_size, gets_geometry, Terminal,
  Daemon, find_client, change, change_client, remove_client, negotiate_size, resize_all, resize_pty,
  broadcast_geometry, negotiated, is_refused,
}
use pty.Daemon.Clients.Handlers.{
  peeking, adopt_cell_size, cut, schedule_cut, pixels_only, tell_geometry, attach_known, on_attach,
  peek_known, on_peek, resize_known, on_resize, on_closed, due, cut_each, service_cuts, broadcast,
  connect,
}
use pty.Daemon.Clients.Cuts.{IsCurrent, changed, find_client-change, cut-CutFact}
use pty.Daemon.Clients.Keeps.{
  view, AllCurrent, Keeps, Keeps-refl, Keeps-change, Keeps-AllCurrent, Ready, Ready-Keeps,
  change_client-Ready, remove_client-AllCurrent, insert_client-AllCurrent, generation_of,
}

module _ {T : Type 0} (term : Terminal T) where
  settling-IsCurrent :
      (deadline id g : ℕ) (kind : CutKind) (d : Daemon T) (i : ℕ)
      → Ready id g d.clients
      → IsCurrent (
          find_client i
            (change_client id (λ c. record c { phase = settling deadline g kind }) d.clients))
  settling-IsCurrent deadline id g kind d i r =
      subst IsCurrent
        (sym
          (find_client-change id i (λ c. record c { phase = settling deadline g kind }) d.clients))
        (by_test (i == id) (find_client i d.clients) refl refl)
    where
      by_test :
          (b : Bool) (o : Option Client)
          → (i == id) ≡ b
          → find_client i d.clients ≡ o
          → IsCurrent (changed b (λ c. record c { phase = settling deadline g kind }) o)
      by_test b none e f = tt
      by_test true (some c) e f =
          let same : i ≡ id = ground arith in
          sym (
            ap generation_of
              (sym (ap view f) ∙ ap (λ j. view (find_client j d.clients)) same ∙ r.mine))
      by_test false (some c) e f = subst IsCurrent f (r.others i e)

  schedule_cut-AllCurrent :
      (now id g : ℕ) (kind : CutKind) (delay : Option ℕ) (d : Daemon T)
      → Ready id g d.clients
      → AllCurrent (schedule_cut term now id g kind delay d).clients
  unfolding schedule_cut AllCurrent
  schedule_cut-AllCurrent now id g kind (some delay) d r i =
      settling-IsCurrent (now + delay) id g kind d i r
  schedule_cut-AllCurrent now id g kind none d r i =
      (cut-CutFact term now id i _ (settling-IsCurrent now id g kind d id r)).current
        (settling-IsCurrent now id g kind d i r)

  pub negotiate_size-Keeps :
      (now : ℕ) (d : Daemon T) → Keeps d.clients (negotiate_size term now d).1.clients
  unfolding negotiate_size resize_all broadcast_geometry resize_pty
  negotiate_size-Keeps now d =
      let s = negotiated d.clients (0, 0) in
      if_intro (λ (o : Bool × Daemon T). Keeps d.clients o.1.clients)
        (is_refused s.0 s.1 || (s.0 == term.rows_of d.actor && s.1 == term.cols_of d.actor))
        {x = (false, d)} {y = (true, resize_all term now s.0 s.1 d)} (λ e. Keeps-refl d.clients)
        (λ e.
          Keeps-change (λ i c. gets_geometry c) (hand (encode_geometry s.0 s.1)) d.clients
            (λ c. refl))

  pub tell_geometry-Keeps :
      (id : ℕ) (resized : Bool) (d : Daemon T)
      → Keeps d.clients (tell_geometry term id resized d).clients
  unfolding change_client
  tell_geometry-Keeps id true d = Keeps-refl d.clients
  tell_geometry-Keeps id false d = Keeps-change (λ i c. i == id) _ d.clients (λ c. refl)

  pub pixels_only-Keeps :
      (cell_changed resized : Bool) (d : Daemon T)
      → Keeps d.clients (pixels_only term cell_changed resized d).clients
  unfolding resize_pty
  pixels_only-Keeps true true d = Keeps-refl d.clients
  pixels_only-Keeps true false d = Keeps-refl d.clients
  pixels_only-Keeps false resized d = Keeps-refl d.clients

  pub adopt_cell_size-clients :
      (payload : Bytes) (d : Daemon T) → (adopt_cell_size term payload d).1.clients ≡ d.clients
  unfolding adopt_cell_size
  adopt_cell_size-clients payload d =
      option_intro (λ (o : Bool × Daemon T). o.1.clients ≡ d.clients) (decode_cell payload)
        (λ e. refl)
        (λ cell e.
          if_intro (λ (o : Bool × Daemon T). o.1.clients ≡ d.clients) _ (λ t. refl) (λ t. refl))

  -- The end of ATTACH and PEEK: the client was made ready, and its cut is scheduled.
  settled-AllCurrent :
      (now id g : ℕ) (kind : CutKind) (delay : Option ℕ) (cell_changed resized : Bool)
      (d : Daemon T)
      → Ready id g d.clients
      → AllCurrent
          (schedule_cut term now id g kind delay
            (tell_geometry term id resized (pixels_only term cell_changed resized d))).clients
  settled-AllCurrent now id g kind delay cell_changed resized d r =
      schedule_cut-AllCurrent now id g kind delay _ (
        Ready-Keeps id g _ _ (tell_geometry-Keeps id resized _)
          (Ready-Keeps id g _ _ (pixels_only-Keeps cell_changed resized d) r))

  attach_known-AllCurrent :
      (now id : ℕ) (payload : Bytes) (c : Client) (d : Daemon T)
      → find_client id d.clients ≡ some c
      → AllCurrent d.clients
      → AllCurrent (attach_known term now id payload c d).clients
  unfolding attach_known
  attach_known-AllCurrent now id payload c d f k =
      let same = adopt_cell_size-clients payload d in
      settled-AllCurrent now id (suc c.generation) _ _ _ _ _ (
        Ready-Keeps id (suc c.generation) _ _ (negotiate_size-Keeps now _) (
          change_client-Ready id (suc c.generation) _ c _ (ap (find_client id) same ∙ f) refl
            (subst AllCurrent (sym same) k)))

  on_attach-AllCurrent :
      (now id : ℕ) (payload : Bytes) (d : Daemon T)
      → AllCurrent d.clients
      → AllCurrent (on_attach term now id payload d).clients
  unfolding on_attach
  on_attach-AllCurrent now id payload d k =
      if_intro (λ (e : Daemon T). AllCurrent e.clients) (ltb (length payload) 4) (λ e. k)
        (λ e.
          option_intro (λ (x : Daemon T). AllCurrent x.clients) (find_client id d.clients) (λ f. k)
            (λ c f. attach_known-AllCurrent now id payload c d f k))

  peek_known-AllCurrent :
      (now id : ℕ) (payload : Bytes) (c : Client) (d : Daemon T)
      → find_client id d.clients ≡ some c
      → AllCurrent d.clients
      → AllCurrent (peek_known term now id payload c d).clients
  unfolding peek_known
  peek_known-AllCurrent now id payload c d f k =
      let g = suc c.generation in
      let d1 : Daemon T = record d { clients = change_client id peeking d.clients } in
      let n = negotiate_size term now d1 in
      let flags = decode_peek payload in
      schedule_cut-AllCurrent now id g (peek_cut flags.0 flags.1) none
        (tell_geometry term id n.0 n.1)
        (Ready-Keeps id g n.1.clients _ (tell_geometry-Keeps id n.0 n.1) (
          Ready-Keeps id g d1.clients _ (negotiate_size-Keeps now d1)
            (change_client-Ready id g peeking c d.clients f refl k)))

  on_peek-AllCurrent :
      (now id : ℕ) (payload : Bytes) (d : Daemon T)
      → AllCurrent d.clients
      → AllCurrent (on_peek term now id payload d).clients
  unfolding on_peek
  on_peek-AllCurrent now id payload d k =
      option_intro (λ (x : Daemon T). AllCurrent x.clients) (find_client id d.clients) (λ f. k)
        (λ c f. peek_known-AllCurrent now id payload c d f k)

  resize_known-AllCurrent :
      (now id : ℕ) (payload : Bytes) (d : Daemon T)
      → AllCurrent d.clients
      → AllCurrent (resize_known term now id payload d).clients
  unfolding resize_known change_client
  resize_known-AllCurrent now id payload d k =
      let sized : Client → Client = λ c. record c {
        rows = (decode_size payload).0;
        cols = (decode_size payload).1;
        attach_seq = suc d.attach_counter;
      } in
      let d1 : Daemon T = record d {
        attach_counter = suc d.attach_counter;
        clients = change (λ i c. i == id) sized d.clients;
      } in
      let k1 =
        Keeps-AllCurrent d.clients d1.clients
          (Keeps-change (λ i c. i == id) sized d.clients (λ c. refl)) k in
      let k2 = subst AllCurrent (sym (adopt_cell_size-clients payload d1)) k1 in
      let k3 =
        Keeps-AllCurrent _ _ (negotiate_size-Keeps now (adopt_cell_size term payload d1).1) k2 in
      Keeps-AllCurrent _ _
        (pixels_only-Keeps _ _ (negotiate_size term now (adopt_cell_size term payload d1).1).1) k3

  on_resize-AllCurrent :
      (now id : ℕ) (payload : Bytes) (d : Daemon T)
      → AllCurrent d.clients
      → AllCurrent (on_resize term now id payload d).clients
  unfolding on_resize
  on_resize-AllCurrent now id payload d k =
      option_intro (λ (x : Daemon T). AllCurrent x.clients) (find_client id d.clients) (λ f. k)
        (λ c f.
          if_intro (λ (x : Daemon T). AllCurrent x.clients)
            (not (constrains_size c) || ltb (length payload) 4) (λ e. k)
            (λ e. resize_known-AllCurrent now id payload d k))

  on_closed-AllCurrent :
      (now id : ℕ) (d : Daemon T)
      → AllCurrent d.clients
      → AllCurrent (on_closed term now id d).clients
  unfolding on_closed
  on_closed-AllCurrent now id d k =
      option_intro (λ (x : Daemon T). AllCurrent x.clients) (find_client id d.clients) (λ f. k)
        (λ c f.
          Keeps-AllCurrent (remove_client id d.clients) _ (negotiate_size-Keeps now _)
            (remove_client-AllCurrent id d.clients k))

  cut_each-AllCurrent :
      (now : ℕ) (ids : List ℕ) (d : Daemon T)
      → AllCurrent d.clients
      → AllCurrent (cut_each term now ids d).clients
  unfolding cut_each AllCurrent
  cut_each-AllCurrent now [] d k = k
  cut_each-AllCurrent now (id ∷ ids) d k =
      cut_each-AllCurrent now ids (cut term now id d)
        (λ i. (cut-CutFact term now id i d (k id)).current (k i))

  broadcast-AllCurrent :
      (packet : Bytes) (d : Daemon T)
      → AllCurrent d.clients
      → AllCurrent (broadcast term packet d).clients
  unfolding broadcast
  broadcast-AllCurrent packet d k =
      Keeps-AllCurrent d.clients _
        (Keeps-change (λ i c. not (is_settling c)) (hand packet) d.clients (λ c. refl)) k

-- The messages that change the clients, with the output of the child and the ticks of the clock. A
-- run is any sequence of their handlers; what the daemon does for its other messages changes
-- neither a client's phase nor its generation, and is left out.
pub data Message : Type 0 where
  connects : ℕ → Message
  attaches peeks resizes : ℕ → ℕ → Bytes → Message
  closes : ℕ → ℕ → Message
  prints : Bytes → Message
  ticks : ℕ → Message

none_current : AllCurrent []
unfolding AllCurrent find_client
none_current i = tt

pub all_current : (cs : List (ℕ × Client)) → AllCurrent cs → (i : ℕ) → IsCurrent (find_client i cs)
unfolding AllCurrent
all_current cs k i = k i

module _ {T : Type 0} (term : Terminal T) where
  abbrev pub handle : Message → Daemon T → Daemon T
  handle (connects id) d = connect term id d
  handle (attaches now id payload) d = on_attach term now id payload d
  handle (peeks now id payload) d = on_peek term now id payload d
  handle (resizes now id payload) d = on_resize term now id payload d
  handle (closes now id) d = on_closed term now id d
  handle (prints packet) d = broadcast term packet d
  handle (ticks now) d = service_cuts term now d

  unfoldable pub handle_all : List Message → Daemon T → Daemon T
  handle_all [] d = d
  handle_all (m ∷ ms) d = handle_all ms (handle m d)

  handle-AllCurrent :
      (m : Message) (d : Daemon T) → AllCurrent d.clients → AllCurrent (handle m d).clients
  unfolding connect service_cuts
  handle-AllCurrent (connects id) d k = insert_client-AllCurrent id _ d.clients tt k
  handle-AllCurrent (attaches now id payload) d k = on_attach-AllCurrent term now id payload d k
  handle-AllCurrent (peeks now id payload) d k = on_peek-AllCurrent term now id payload d k
  handle-AllCurrent (resizes now id payload) d k = on_resize-AllCurrent term now id payload d k
  handle-AllCurrent (closes now id) d k = on_closed-AllCurrent term now id d k
  handle-AllCurrent (prints packet) d k = broadcast-AllCurrent term packet d k
  handle-AllCurrent (ticks now) d k = cut_each-AllCurrent term now (due now d.clients) d k

  handle_all-AllCurrent :
      (ms : List Message) (d : Daemon T)
      → AllCurrent d.clients
      → AllCurrent (handle_all ms d).clients
  unfolding handle_all
  handle_all-AllCurrent [] d k = k
  handle_all-AllCurrent (m ∷ ms) d k =
      handle_all-AllCurrent ms (handle m d) (handle-AllCurrent m d k)

  pub handle_all-Current :
      (ms : List Message) (d : Daemon T) → d.clients ≡ [] → AllCurrent (handle_all ms d).clients
  handle_all-Current ms d h = handle_all-AllCurrent ms d (subst AllCurrent (sym h) none_current)
