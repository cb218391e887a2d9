-- ===== src/Daemon/Clients/Same.antt =====
-- What the handlers of crates/pty/src/daemon/clients.rs keep on the way to a cut: the settle time,
-- and whether the child has exited.
use pty.Base.{
  ℕ, ◌≡◌, refl, ◌∙◌, Bool, true, false, ◌&&◌, ◌||◌, List, ◌==◌, if_intro, option_intro, Bytes,
}
use pty.Protocol.Encode.{decode_cell}
use pty.Daemon.Clients.{
  Client, Terminal, Daemon, negotiate_size, resize_all, resize_pty, broadcast_geometry, negotiated,
  is_refused,
}
use pty.Daemon.Clients.Handlers.{adopt_cell_size, pixels_only, tell_geometry}

module _ {T : Type 0} (term : Terminal T) where
  -- What the handlers keep of the daemon until they schedule the cut.
  pub record IsSame (d d' : Daemon T) : Type 0 where
    pub same_settle : d'.settle ≡ d.settle
    pub same_exited : d'.exited ≡ d.exited
    pub same_code : d'.exit_code ≡ d.exit_code

  IsSame-refl : (d : Daemon T) → IsSame d d
  IsSame-refl d = record { same_settle = refl; same_exited = refl; same_code = refl }

  pub IsSame-trans : (a b c : Daemon T) → IsSame a b → IsSame b c → IsSame a c
  IsSame-trans a b c h k = record {
    same_settle = k.same_settle ∙ h.same_settle;
    same_exited = k.same_exited ∙ h.same_exited;
    same_code = k.same_code ∙ h.same_code;
  }

  pub negotiate_size-IsSame : (now : ℕ) (d : Daemon T) → IsSame d (negotiate_size term now d).1
  unfolding negotiate_size resize_all broadcast_geometry resize_pty
  negotiate_size-IsSame now d =
      let s = negotiated d.clients (0, 0) in
      if_intro (λ (o : Bool × Daemon T). IsSame d o.1)
        (is_refused s.0 s.1 || (s.0 == term.rows_of d.actor && s.1 == term.cols_of d.actor))
        {x = (false, d)} {y = (true, resize_all term now s.0 s.1 d)} (λ e. IsSame-refl d)
        (λ e. record { same_settle = refl; same_exited = refl; same_code = refl })

  pub tell_geometry-IsSame :
      (id : ℕ) (resized : Bool) (d : Daemon T) → IsSame d (tell_geometry term id resized d)
  tell_geometry-IsSame id true d = IsSame-refl d
  tell_geometry-IsSame id false d = record {
    same_settle = refl;
    same_exited = refl;
    same_code = refl;
  }

  pixels_only-IsSame :
      (cell_changed resized : Bool) (d : Daemon T)
      → IsSame d (pixels_only term cell_changed resized d)
  unfolding resize_pty
  pixels_only-IsSame true true d = IsSame-refl d
  pixels_only-IsSame true false d = record {
    same_settle = refl;
    same_exited = refl;
    same_code = refl;
  }
  pixels_only-IsSame false resized d = IsSame-refl d

  pub adopt_cell_size-IsSame :
      (payload : Bytes) (d : Daemon T) → IsSame d (adopt_cell_size term payload d).1
  unfolding adopt_cell_size
  adopt_cell_size-IsSame payload d =
      option_intro (λ (o : Bool × Daemon T). IsSame d o.1) (decode_cell payload)
        (λ e. IsSame-refl d)
        (λ cell e.
          if_intro (λ (o : Bool × Daemon T). IsSame d o.1)
            ((term.cell_of d.actor).0 == cell.0 && (term.cell_of d.actor).1 == cell.1)
            {x = (false, d)} {y = (true, record d { actor = term.set_cell cell.0 cell.1 d.actor })}
            (λ t. IsSame-refl d)
            (λ t. record { same_settle = refl; same_exited = refl; same_code = refl }))

  -- The way of an ATTACH from the client that it marks to where the cut is scheduled.
  pub attach_way :
      (now id n : ℕ) (cell_changed : Bool) (cs : List (ℕ × Client)) (d d1 : Daemon T)
      → IsSame d d1
      → (let r = negotiate_size term now (record d1 { attach_counter = n; clients = cs }) in
          IsSame d (tell_geometry term id r.0 (pixels_only term cell_changed r.0 r.1)))
  attach_way now id n cell_changed cs d d1 same =
      let d2 : Daemon T = record d1 { attach_counter = n; clients = cs } in
      let r = negotiate_size term now d2 in
      let d3 = pixels_only term cell_changed r.0 r.1 in
      let s = negotiate_size-IsSame now d2 in
      let marked : IsSame d d2 = record {
        same_settle = same.same_settle;
        same_exited = same.same_exited;
        same_code = same.same_code;
      } in
      IsSame-trans d r.1 (tell_geometry term id r.0 d3) (IsSame-trans d d2 r.1 marked s) (
        IsSame-trans r.1 d3 (tell_geometry term id r.0 d3) (pixels_only-IsSame cell_changed r.0 r.1)
          (tell_geometry-IsSame id r.0 d3))
