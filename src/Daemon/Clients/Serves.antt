-- ===== src/Daemon/Clients/Serves.antt =====
-- Whose deadline has passed is served: `service_cuts` hands it its SCREEN.
use mathlib.Core.Path.{subst}
use pty.Base.{
  ℕ, ◌≡◌, refl, sym, ap, ◌∙◌, arith, Bool, true, false, List, [], ◌∷◌, ◌++◌, append_assoc, Option,
  none, some, ◌==◌, inl, inr, ◌⊎◌, Bool-cases, if_intro, option_intro, Bytes, ℤ,
}
use pty.Protocol.Encode.{encode_screen, encode_exit}
use pty.Daemon.Clients.{
  CutKind, Phase, live, settling, Client, Terminal, Daemon, find_client, nudge_redraw, resize_pty,
}
use pty.Daemon.Clients.Handlers.{
  shown, needs_nudge, cut_now, cut_client, cut, due, cut_each, service_cuts,
}
use pty.Daemon.Clients.Cuts.{
  changed, find_client-change, waits, CurrentPhase, IsCurrent, has_id, due-has_id, cut_now-clients,
}

-- What a client is handed at its cut: the SCREEN, and the EXIT behind it if the child has exited.
abbrev pub cut_packets : Bytes → Bool → ℤ → List Bytes
cut_packets screen true code = encode_screen screen ∷ encode_exit code ∷ []
cut_packets screen false code = encode_screen screen ∷ []

module _ {T : Type 0} (term : Terminal T) where
  -- The client is served: it is live, and was handed just the packets of its cut, with the screen of
  -- the kind it waited for, as a terminal of that moment shows it.
  pub record Served (exited : Bool) (code : ℤ) (c : Client) (after : Option Client) : Type 0 where
    pub client : Client
    pub found : after ≡ some client
    pub is_live : client.phase ≡ live
    pub deadline : ℕ
    pub generation : ℕ
    pub kind : CutKind
    pub waited : c.phase ≡ settling deadline generation kind
    pub terminal : T
    pub handed : client.sent ≡ c.sent ++ cut_packets (term.serialize kind terminal) exited code

  shown-sent :
      (screen : Bytes) (exited : Bool) (code : ℤ) (c : Client)
      → (shown screen exited code c).sent ≡ c.sent ++ cut_packets screen exited code
  shown-sent screen true code c = append_assoc c.sent (encode_screen screen ∷ []) _
  shown-sent screen false code c = refl

  -- A cut keeps whether the child has exited.
  nudge_redraw-exit :
      (d : Daemon T)
      → ((nudge_redraw term d).exited ≡ d.exited) × ((nudge_redraw term d).exit_code ≡ d.exit_code)
  unfolding nudge_redraw resize_pty
  nudge_redraw-exit d =
      if_intro (λ (e : Daemon T). (e.exited ≡ d.exited) × (e.exit_code ≡ d.exit_code)) _
        (λ e. (refl, refl)) (λ e. (refl, refl))

  cut_now-exit :
      (now id : ℕ) (kind : CutKind) (d : Daemon T)
      → ((cut_now term now id kind d).exited ≡ d.exited)
        × ((cut_now term now id kind d).exit_code ≡ d.exit_code)
  unfolding cut_now
  cut_now-exit now id kind d =
      if_intro (λ (e : Daemon T). (e.exited ≡ d.exited) × (e.exit_code ≡ d.exit_code))
        (needs_nudge term now kind d) (λ e. nudge_redraw-exit _) (λ e. (refl, refl))

  cut_client-exit :
      (now id : ℕ) (c : Client) (p : Phase) (d : Daemon T)
      → ((cut_client term now id c p d).exited ≡ d.exited)
        × ((cut_client term now id c p d).exit_code ≡ d.exit_code)
  cut_client-exit now id c live d = (refl, refl)
  cut_client-exit now id c (settling deadline generation kind) d =
      if_intro (λ (e : Daemon T). (e.exited ≡ d.exited) × (e.exit_code ≡ d.exit_code))
        (generation == c.generation) (λ e. cut_now-exit now id kind d) (λ e. (refl, refl))

  cut-exit :
      (now id : ℕ) (d : Daemon T)
      → ((cut term now id d).exited ≡ d.exited) × ((cut term now id d).exit_code ≡ d.exit_code)
  unfolding cut
  cut-exit now id d =
      option_intro (λ (e : Daemon T). (e.exited ≡ d.exited) × (e.exit_code ≡ d.exit_code))
        (find_client id d.clients) (λ f. (refl, refl)) (λ c f. cut_client-exit now id c c.phase d)

  -- What a cut of `id` leaves of the client `at`: itself, or its being served.
  abbrev Passed : Daemon T → Client → Option Client → Type 0
  Passed d c after = (after ≡ some c) ⊎ Served d.exited d.exit_code c after

  cut_now-found :
      (now id at : ℕ) (kind : CutKind) (c : Client) (d : Daemon T)
      → find_client at d.clients ≡ some c
      → find_client at (cut_now term now id kind d).clients
        ≡ changed (at == id) (shown (term.serialize kind d.actor) d.exited d.exit_code) (some c)
  cut_now-found now id at kind c d f =
      ap (find_client at) (cut_now-clients term now id kind d)
      ∙ find_client-change id at (shown (term.serialize kind d.actor) d.exited d.exit_code)
          d.clients
      ∙ ap (changed (at == id) (shown (term.serialize kind d.actor) d.exited d.exit_code)) f

  -- The client of another id stays as it is, and so does one that is live.
  cut_client-other :
      (now id at : ℕ) (x c : Client) (p : Phase) (d : Daemon T)
      → find_client at d.clients ≡ some c
      → (at == id) ≡ false
      → find_client at (cut_client term now id x p d).clients ≡ some c
  cut_client-other now id at x c live d f e = f
  cut_client-other now id at x c (settling deadline generation kind) d f e =
      if_intro (λ (o : Daemon T). find_client at o.clients ≡ some c) (generation == x.generation)
        (λ g.
          cut_now-found now id at kind c d f
          ∙ ap (λ b. changed b (shown (term.serialize kind d.actor) d.exited d.exit_code) (some c))
              e)
        (λ g. f)

  cut-other :
      (now id at : ℕ) (c : Client) (d : Daemon T)
      → find_client at d.clients ≡ some c
      → (at == id) ≡ false
      → find_client at (cut term now id d).clients ≡ some c
  unfolding cut
  cut-other now id at c d f e =
      option_intro (λ (o : Daemon T). find_client at o.clients ≡ some c) (find_client id d.clients)
        (λ g. f) (λ x g. cut_client-other now id at x c x.phase d f e)

  cut_client-Served :
      (now id : ℕ) (c : Client) (p : Phase) (d : Daemon T)
      → find_client id d.clients ≡ some c
      → c.phase ≡ p
      → CurrentPhase c.generation p
      → waits now (some (record c { phase = p })) ≡ true
      → Served d.exited d.exit_code c (find_client id (cut_client term now id c p d).clients)
  cut_client-Served now id c live d f p k w = cc
  cut_client-Served now id c (settling deadline generation kind) d f p k w =
      if_intro (λ (o : Daemon T). Served d.exited d.exit_code c (find_client id o.clients))
        (generation == c.generation)
        (λ g.
          let self : (id == id) ≡ true = ground arith in
          record {
            client = shown (term.serialize kind d.actor) d.exited d.exit_code c;
            found =
                cut_now-found now id id kind c d f
                ∙ ap
                    (λ b.
                      changed b (shown (term.serialize kind d.actor) d.exited d.exit_code) (some c))
                    self;
            is_live = refl;
            deadline = deadline;
            generation = generation;
            kind = kind;
            waited = p;
            terminal = d.actor;
            handed = shown-sent (term.serialize kind d.actor) d.exited d.exit_code c;
          })
        (λ g. absurd (ground (arith, k)))

  pub cut-Served :
      (now id : ℕ) (c : Client) (d : Daemon T)
      → find_client id d.clients ≡ some c
      → IsCurrent (some c)
      → waits now (some c) ≡ true
      → Served d.exited d.exit_code c (find_client id (cut term now id d).clients)
  unfolding cut
  cut-Served now id c d f k w =
      subst
        (λ o. Served d.exited d.exit_code c (
          find_client id
            (elim o as (λ x. Daemon T) [
              | none ↦ d
              | some x ↦ cut_client term now id x x.phase d
            ]).clients))
        (sym f) (cut_client-Served now id c c.phase d f refl k w)

  cut-live :
      (now id at : ℕ) (c : Client) (d : Daemon T)
      → find_client at d.clients ≡ some c
      → c.phase ≡ live
      → find_client at (cut term now id d).clients ≡ some c
  cut-live now id at c d f p = elim (Bool-cases (at == id)) [
    | inr e ↦ cut-other now id at c d f e
    | inl e ↦
        let same : at ≡ id = ground arith in
        unfold cut in
        subst
          (λ o.
            find_client at
              (elim o as (λ x. Daemon T) [
                | none ↦ d
                | some x ↦ cut_client term now id x x.phase d
              ]).clients
            ≡ some c)
          (sym f ∙ ap (λ i. find_client i d.clients) same)
          (subst (λ q. find_client at (cut_client term now id c q d).clients ≡ some c) (sym p) f)
  ]

  cut_each-live :
      (now at : ℕ) (ids : List ℕ) (c : Client) (d : Daemon T)
      → find_client at d.clients ≡ some c
      → c.phase ≡ live
      → find_client at (cut_each term now ids d).clients ≡ some c
  unfolding cut_each
  cut_each-live now at [] c d f p = f
  cut_each-live now at (id ∷ ids) c d f p =
      cut_each-live now at ids c (cut term now id d) (cut-live now id at c d f p) p

  cut_each-kept :
      (now at id : ℕ) (ids : List ℕ) (c : Client) (d : Daemon T)
      → Served d.exited d.exit_code c (find_client at (cut term now id d).clients)
      → Served d.exited d.exit_code c
          (find_client at (cut_each term now ids (cut term now id d)).clients)
  cut_each-kept now at id ids c d s = record {
    client = s.client;
    found = cut_each-live now at ids s.client (cut term now id d) s.found s.is_live;
    is_live = s.is_live;
    deadline = s.deadline;
    generation = s.generation;
    kind = s.kind;
    waited = s.waited;
    terminal = s.terminal;
    handed = s.handed;
  }

  cut_each-Served :
      (now at : ℕ) (ids : List ℕ) (c : Client) (d : Daemon T)
      → find_client at d.clients ≡ some c
      → IsCurrent (some c)
      → waits now (some c) ≡ true
      → has_id at ids ≡ true
      → Served d.exited d.exit_code c (find_client at (cut_each term now ids d).clients)
  unfolding cut_each
  cut_each-Served now at [] c d f k w h = cc
  cut_each-Served now at (id ∷ ids) c d f k w h = elim (Bool-cases (at == id)) [
    | inl e ↦
        let same : at ≡ id = ground arith in
        cut_each-kept now at id ids c d (
          subst (λ i. Served d.exited d.exit_code c (find_client at (cut term now i d).clients))
            same (cut-Served now at c d f k w))
    | inr e ↦
        let rest : has_id at ids ≡ true = ground arith in
        let exit = cut-exit now id d in
        subst
          (λ b.
            Served b d.exit_code c
              (find_client at (cut_each term now ids (cut term now id d)).clients))
          exit.0
          (subst
            (λ n.
              Served (cut term now id d).exited n c
                (find_client at (cut_each term now ids (cut term now id d)).clients))
            exit.1
            (cut_each-Served now at ids c (cut term now id d) (cut-other now id at c d f e) k w
              rest))
  ]

  pub service_cuts-Served :
      (now id : ℕ) (c : Client) (d : Daemon T)
      → find_client id d.clients ≡ some c
      → IsCurrent (some c)
      → waits now (some c) ≡ true
      → Served d.exited d.exit_code c (find_client id (service_cuts term now d).clients)
  unfolding service_cuts
  service_cuts-Served now id c d f k w =
      cut_each-Served now id (due now d.clients) c d f k w
        (due-has_id now id d.clients (ap (waits now) f ∙ w))
