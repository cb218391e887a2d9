-- ===== src/Daemon/Clients/Cuts.antt =====
-- Whose deadline has passed is cut: `service_cuts` leaves no client waiting that is due.
use mathlib.Core.Path.{subst}
use pty.Base.{
  ℕ, ◌≡◌, refl, sym, ap, ◌∙◌, arith, Bool, true, false, ◌||◌, List, [], ◌∷◌, Option, none, some,
  ltb, ◌==◌, if◌then◌else◌, inl, inr, ◌⊎◌, Bool-cases, if_intro, option_intro, or_true, Bytes, ℤ,
}
use pty.Daemon.Clients.{
  CutKind, Phase, live, settling, Client, Terminal, Daemon, find_client, change, change_client,
  nudge_redraw, resize_pty,
}
use pty.Daemon.Clients.Handlers.{
  shown, needs_nudge, cut_now, cut_client, cut, is_due, due, cut_each, service_cuts,
}

abbrev pub changed : Bool → (Client → Client) → Option Client → Option Client
changed b f none = none
changed true f (some c) = some (f c)
changed false f (some c) = some c

changed-some :
    (b : Bool) (f : Client → Client) (c : Client)
    → some (if b then f c else c) ≡ changed b f (some c)
changed-some true f c = refl
changed-some false f c = refl

pub find_client-change :
    (id at : ℕ) (f : Client → Client) (cs : List (ℕ × Client))
    → find_client at (change_client id f cs) ≡ changed (at == id) f (find_client at cs)
unfolding find_client change_client change
find_client-change id at f [] = refl
find_client-change id at f ((i, c) ∷ cs) = elim (Bool-cases (i == at)) [
  | inl e ↦
      let same : (i == id) ≡ (at == id) = ground arith in rw (e, same) (changed-some (at == id) f c)
  | inr e ↦ rw (e) (find_client-change id at f cs)
]

-- The client waits for a cut that is due.
abbrev pub waits : ℕ → Option Client → Bool
waits now none = false
waits now (some c) = is_due now c.phase

abbrev pub CurrentPhase : ℕ → Phase → Type 0
CurrentPhase now live = Unit
CurrentPhase now (settling deadline generation kind) = generation ≡ now

-- A client that settles does so on its current generation.
abbrev pub IsCurrent : Option Client → Type 0
IsCurrent none = Unit
IsCurrent (some c) = CurrentPhase c.generation c.phase

abbrev pub has_id : ℕ → List ℕ → Bool
has_id id [] = false
has_id id (x ∷ xs) = x == id || has_id id xs

-- What a cut of `id` means for the client `at`.
pub record CutFact (now id at : ℕ) (before after : List (ℕ × Client)) : Type 0 where
  pub done : (at == id) ≡ true → waits now (find_client at after) ≡ false
  pub current : IsCurrent (find_client at before) → IsCurrent (find_client at after)
  pub quiet : waits now (find_client at before) ≡ false → waits now (find_client at after) ≡ false

unchanged :
    (now id at : ℕ) (cs : List (ℕ × Client))
    → waits now (find_client id cs) ≡ false
    → CutFact now id at cs cs
unchanged now id at cs h = record {
  done = λ e.
      let same : id ≡ at = ground arith in subst (λ i. waits now (find_client i cs) ≡ false) same h;
  current = λ c. c;
  quiet = λ q. q;
}

waits-changed :
    (now : ℕ) (screen : Bytes) (exited : Bool) (code : ℤ) (o : Option Client)
    → waits now (changed true (shown screen exited code) o) ≡ false
waits-changed now screen exited code none = refl
waits-changed now screen exited code (some c) = refl

quiet-changed :
    (now : ℕ) (b : Bool) (screen : Bytes) (exited : Bool) (code : ℤ) (o : Option Client)
    → waits now o ≡ false
    → waits now (changed b (shown screen exited code) o) ≡ false
quiet-changed now b screen exited code none h = refl
quiet-changed now true screen exited code (some c) h = refl
quiet-changed now false screen exited code (some c) h = h

changed-IsCurrent :
    (b : Bool) (screen : Bytes) (exited : Bool) (code : ℤ) (o : Option Client)
    → IsCurrent o
    → IsCurrent (changed b (shown screen exited code) o)
changed-IsCurrent b screen exited code none h = tt
changed-IsCurrent true screen exited code (some c) h = tt
changed-IsCurrent false screen exited code (some c) h = h

module _ {T : Type 0} (term : Terminal T) where
  nudge_redraw-clients : (d : Daemon T) → (nudge_redraw term d).clients ≡ d.clients
  unfolding nudge_redraw resize_pty
  nudge_redraw-clients d =
      if_intro (λ (e : Daemon T). e.clients ≡ d.clients) (ltb (term.cols_of d.actor) 2) (λ e. refl)
        (λ e. refl)

  pub cut_now-clients :
      (now id : ℕ) (kind : CutKind) (d : Daemon T)
      → (cut_now term now id kind d).clients
        ≡ change_client id (shown (term.serialize kind d.actor) d.exited d.exit_code) d.clients
  unfolding cut_now
  cut_now-clients now id kind d =
      if_intro
        (λ (e : Daemon T).
          e.clients
          ≡ change_client id (shown (term.serialize kind d.actor) d.exited d.exit_code) d.clients)
        (needs_nudge term now kind d) (λ e. nudge_redraw-clients _) (λ e. refl)

  cut_now-CutFact :
      (now id at : ℕ) (kind : CutKind) (d : Daemon T)
      → CutFact now id at d.clients (cut_now term now id kind d).clients
  cut_now-CutFact now id at kind d =
      let screen = term.serialize kind d.actor in
      let is =
        ap (find_client at) (cut_now-clients now id kind d)
        ∙ find_client-change id at (shown screen d.exited d.exit_code) d.clients in
      record {
        done = λ e.
            subst (λ o. waits now o ≡ false)
              (sym (
                is
                ∙ ap (λ b. changed b (shown screen d.exited d.exit_code) (find_client at d.clients))
                    e))
              (waits-changed now screen d.exited d.exit_code (find_client at d.clients));
        current = λ c.
            subst IsCurrent (sym is) (changed-IsCurrent (at == id) screen d.exited d.exit_code _ c);
        quiet = λ q.
            subst (λ o. waits now o ≡ false) (sym is)
              (quiet-changed now (at == id) screen d.exited d.exit_code _ q);
      }

  cut_client-CutFact :
      (now id at : ℕ) (c : Client) (p : Phase) (d : Daemon T)
      → find_client id d.clients ≡ some c
      → c.phase ≡ p
      → IsCurrent (find_client id d.clients)
      → CutFact now id at d.clients (cut_client term now id c p d).clients
  cut_client-CutFact now id at c live d f p k =
      unchanged now id at d.clients (ap (waits now) f ∙ ap (is_due now) p)
  cut_client-CutFact now id at c (settling deadline generation kind) d f p k =
      if_intro (λ (e : Daemon T). CutFact now id at d.clients e.clients)
        (generation == c.generation) (λ e. cut_now-CutFact now id at kind d)
        (λ e.
          let same : generation ≡ c.generation =
            subst (CurrentPhase c.generation) p (subst IsCurrent f k) in
          absurd (ground arith))

  pub cut-CutFact :
      (now id at : ℕ) (d : Daemon T)
      → IsCurrent (find_client id d.clients)
      → CutFact now id at d.clients (cut term now id d).clients
  unfolding cut
  cut-CutFact now id at d k =
      option_intro (λ (e : Daemon T). CutFact now id at d.clients e.clients)
        (find_client id d.clients) (λ f. unchanged now id at d.clients (ap (waits now) f))
        (λ c f. cut_client-CutFact now id at c c.phase d f refl k)

  cut_each-quiet :
      (now at : ℕ) (ids : List ℕ) (d : Daemon T)
      → ((i : ℕ) → IsCurrent (find_client i d.clients))
      → (has_id at ids ≡ true) ⊎ (waits now (find_client at d.clients) ≡ false)
      → waits now (find_client at (cut_each term now ids d).clients) ≡ false
  unfolding cut_each
  cut_each-quiet now at [] d k (inl h) = cc
  cut_each-quiet now at [] d k (inr h) = h
  cut_each-quiet now at (id ∷ ids) d k h =
      cut_each-quiet now at ids (cut term now id d)
        (λ i. (cut-CutFact now id i d (k id)).current (k i)) (next h)
    where
      in_rest :
          (at == id) ≡ false → ((id == at) ≡ true) ⊎ (has_id at ids ≡ true) → has_id at ids ≡ true
      in_rest e (inl s) = absurd (ground arith)
      in_rest e (inr s) = s

      next :
          (has_id at (id ∷ ids) ≡ true) ⊎ (waits now (find_client at d.clients) ≡ false)
          → (has_id at ids ≡ true)
            ⊎ (waits now (find_client at (cut term now id d).clients) ≡ false)
      next (inr q) = inr ((cut-CutFact now id at d (k id)).quiet q)
      next (inl m) = elim (Bool-cases (at == id)) [
        | inl e ↦ inr ((cut-CutFact now id at d (k id)).done e)
        | inr e ↦ inl (in_rest e (or_true (id == at) (has_id at ids) m))
      ]

pub due-has_id :
    (now at : ℕ) (cs : List (ℕ × Client))
    → waits now (find_client at cs) ≡ true
    → has_id at (due now cs) ≡ true
unfolding due find_client
due-has_id now at [] h = cc
due-has_id now at ((i, c) ∷ cs) h = elim (Bool-cases (i == at)) [
  | inl e ↦ elim (Bool-cases (is_due now c.phase)) [
    | inl w ↦ rw (w, e) refl
    | inr w ↦ absurd (contra e w)
  ]
  | inr e ↦
      let rest = due-has_id now at cs (skipped e) in
      if_intro (λ l. has_id at l ≡ true) (is_due now c.phase) (λ w. rw (e) rest) (λ w. rest)
]
  where
    skipped : (i == at) ≡ false → waits now (find_client at cs) ≡ true
    skipped e = rw (e) at h

    contra : (i == at) ≡ true → is_due now c.phase ≡ false → ⊥
    contra e w = let due_now : is_due now c.phase ≡ true = rw (e) at h in cc

module _ {T : Type 0} (term : Terminal T) where
  -- After the cuts of a moment no client waits for one that is due then, if each client that
  -- settles does so on its current generation.
  pub service_cuts-quiet :
      (now at : ℕ) (d : Daemon T)
      → ((i : ℕ) → IsCurrent (find_client i d.clients))
      → waits now (find_client at (service_cuts term now d).clients) ≡ false
  unfolding service_cuts
  service_cuts-quiet now at d k =
      cut_each-quiet term now at (due now d.clients) d k
        (elim (Bool-cases (waits now (find_client at d.clients))) [
          | inl w ↦ inl (due-has_id now at d.clients w)
          | inr w ↦ inr w
        ])
