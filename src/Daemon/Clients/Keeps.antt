-- ===== src/Daemon/Clients/Keeps.antt =====
-- Generations and phases of the clients: what the changes of the map keep of them.
use mathlib.Core.Path.{subst}
use pty.Base.{
  ℕ, ◌≡◌, refl, sym, ap, ◌∙◌, arith, Bool, true, false, List, [], ◌∷◌, Option, none, some, ltb,
  ◌==◌, if◌then◌else◌, inl, inr, Bool-cases, if_intro,
}
use pty.Daemon.Clients.{
  Phase, Client, find_client, change, change_client, remove_client, insert_client,
}
use pty.Daemon.Clients.Cuts.{CurrentPhase, IsCurrent, changed, find_client-change}

-- What decides whether a client is current.
abbrev pub view : Option Client → Option (ℕ × Phase)
view none = none
view (some c) = some (c.generation, c.phase)

abbrev ViewCurrent : Option (ℕ × Phase) → Type 0
ViewCurrent none = Unit
ViewCurrent (some v) = CurrentPhase v.0 v.1

view-IsCurrent : (a b : Option Client) → view a ≡ view b → IsCurrent a → IsCurrent b
view-IsCurrent a b e k = from b (subst ViewCurrent e (to a k))
  where
    to : (o : Option Client) → IsCurrent o → ViewCurrent (view o)
    to none k = tt
    to (some c) k = k

    from : (o : Option Client) → ViewCurrent (view o) → IsCurrent o
    from none k = tt
    from (some c) k = k

unfoldable pub AllCurrent : List (ℕ × Client) → Type 0
AllCurrent cs = (i : ℕ) → IsCurrent (find_client i cs)

-- Generations and phases stay as they are.
unfoldable pub Keeps : List (ℕ × Client) → List (ℕ × Client) → Type 0
Keeps cs cs' = (i : ℕ) → view (find_client i cs) ≡ view (find_client i cs')

pub Keeps-change :
    (test : ℕ → Client → Bool) (f : Client → Client) (cs : List (ℕ × Client))
    → ((c : Client) → view (some c) ≡ view (some (f c)))
    → Keeps cs (change test f cs)
unfolding Keeps find_client change
Keeps-change test f [] h i = refl
Keeps-change test f ((j, c) ∷ cs) h i = elim (Bool-cases (j == i)) [
  | inl e ↦ rw (e) (either (test j c))
  | inr e ↦ rw (e) (Keeps-change test f cs h i)
]
  where
    either : (b : Bool) → view (some c) ≡ view (some (if b then f c else c))
    either true = h c
    either false = refl

pub Keeps-AllCurrent : (cs cs' : List (ℕ × Client)) → Keeps cs cs' → AllCurrent cs → AllCurrent cs'
unfolding Keeps AllCurrent
Keeps-AllCurrent cs cs' h k i = view-IsCurrent (find_client i cs) (find_client i cs') (h i) (k i)

-- One client has this generation, and the others are current.
pub record Ready (id generation : ℕ) (cs : List (ℕ × Client)) : Type 0 where
  pub phase : Phase
  pub mine : view (find_client id cs) ≡ some (generation, phase)
  pub others : (i : ℕ) → (i == id) ≡ false → IsCurrent (find_client i cs)

pub Ready-Keeps :
    (id g : ℕ) (cs cs' : List (ℕ × Client)) → Keeps cs cs' → Ready id g cs → Ready id g cs'
unfolding Keeps
Ready-Keeps id g cs cs' h r = record {
  phase = r.phase;
  mine = sym (h id) ∙ r.mine;
  others = λ i e. view-IsCurrent (find_client i cs) (find_client i cs') (h i) (r.others i e);
}

-- A change that raises a client's generation makes it ready.
pub change_client-Ready :
    (id g : ℕ) (f : Client → Client) (c : Client) (cs : List (ℕ × Client))
    → find_client id cs ≡ some c
    → (f c).generation ≡ g
    → AllCurrent cs
    → Ready id g (change_client id f cs)
unfolding AllCurrent
change_client-Ready id g f c cs h e k = record {
  phase = (f c).phase;
  mine =
      ap view (
        find_client-change id id f cs
        ∙ ap (changed (id == id) f) h
        ∙ ap (λ b. changed b f (some c)) (self id))
      ∙ ap (λ n. some (n, (f c).phase)) e;
  others = λ i n.
      subst IsCurrent
        (sym (
          find_client-change id i f cs
          ∙ ap (λ b. changed b f (find_client i cs)) n
          ∙ same (find_client i cs)))
        (k i);
}
  where
    self : (n : ℕ) → (n == n) ≡ true
    self n = ground arith

    same : (o : Option Client) → changed false f o ≡ o
    same none = refl
    same (some c) = refl

pub Keeps-refl : (cs : List (ℕ × Client)) → Keeps cs cs
unfolding Keeps
Keeps-refl cs i = refl

Keeps-trans : (a b c : List (ℕ × Client)) → Keeps a b → Keeps b c → Keeps a c
unfolding Keeps
Keeps-trans a b c h k i = h i ∙ k i

find_client-remove_client :
    (id at : ℕ) (cs : List (ℕ × Client))
    → find_client at (remove_client id cs) ≡ (if at == id then none else find_client at cs)
unfolding find_client remove_client
find_client-remove_client id at [] = elim (Bool-cases (at == id)) [
  | inl e ↦ rw (e) refl
  | inr e ↦ rw (e) refl
]
find_client-remove_client id at ((j, c) ∷ cs) = elim (Bool-cases (j == id)) [
  | inl e ↦ elim (Bool-cases (at == id)) [
    | inl s ↦ rw (e, s) (find_client-remove_client id at cs ∙ gone s (find_client at cs))
    | inr s ↦
        let other : (j == at) ≡ false = ground arith in
        rw (e, s, other) (find_client-remove_client id at cs ∙ kept s (find_client at cs))
  ]
  | inr e ↦ elim (Bool-cases (j == at)) [
    | inl s ↦ let other : (at == id) ≡ false = ground arith in rw (e, s, other) refl
    | inr s ↦ rw (e, s) (find_client-remove_client id at cs)
  ]
]
  where
    gone : (at == id) ≡ true → (o : Option Client) → (if at == id then none else o) ≡ none
    gone s o = rw (s) refl

    kept : (at == id) ≡ false → (o : Option Client) → (if at == id then none else o) ≡ o
    kept s o = rw (s) refl

pub remove_client-AllCurrent :
    (id : ℕ) (cs : List (ℕ × Client)) → AllCurrent cs → AllCurrent (remove_client id cs)
unfolding AllCurrent
remove_client-AllCurrent id cs k at =
    subst IsCurrent (sym (find_client-remove_client id at cs))
      (if_intro IsCurrent (at == id) (λ e. tt) (λ e. k at))

insert_client-IsCurrent :
    (id at : ℕ) (c : Client) (cs : List (ℕ × Client))
    → IsCurrent (some c)
    → IsCurrent (find_client at cs)
    → IsCurrent (find_client at (insert_client id c cs))
unfolding find_client insert_client
insert_client-IsCurrent id at c [] h k = if_intro IsCurrent (id == at) (λ e. h) (λ e. tt)
insert_client-IsCurrent id at c ((j, x) ∷ cs) h k =
    if_intro (λ l. IsCurrent (find_client at l)) (j == id)
      (λ e.
        if_intro IsCurrent (id == at) (λ s. h)
          (λ s. let other : (j == at) ≡ false = ground arith in rw (other) at k))
      (λ e.
        if_intro (λ l. IsCurrent (find_client at l)) (ltb id j)
          (λ s. if_intro IsCurrent (id == at) (λ s. h) (λ s. k))
          (λ s. elim (Bool-cases (j == at)) [
            | inl q ↦ rw (q) (rw (q) at k)
            | inr q ↦ rw (q) (insert_client-IsCurrent id at c cs h (rw (q) at k))
          ]))

pub insert_client-AllCurrent :
    (id : ℕ) (c : Client) (cs : List (ℕ × Client))
    → IsCurrent (some c)
    → AllCurrent cs
    → AllCurrent (insert_client id c cs)
unfolding AllCurrent
insert_client-AllCurrent id c cs h k at = insert_client-IsCurrent id at c cs h (k at)

abbrev pub generation_of : Option (ℕ × Phase) → ℕ
generation_of none = 0
generation_of (some v) = v.0
