-- ===== src/Process/Snapshot/StillLive.antt =====
-- Which of the observed identities a later table still shows live.
use pty.Base.{
  ◌≡◌, ◌≢◌, refl, ap, ◌∙◌, arith, true, false, List, [], ◌∷◌, Option, none, some, Bytes, int_eq,
  bytes_eq, int_eq_iff, bytes_eq_iff, and_true, or_true, inl, inr, ◌⊎◌, Bool-cases, All,
}
use pty.Process.Table.{Answer, known, not_present, unknown, Row, is_zombie, ProcTable, row}
use pty.Process.Snapshot.{
  ProcessIdentity, live_identity, Live, live, unreadable_pid, keep_live, check_identity, check_row,
  sorted_live, live_of, still_live_identities, sort_identities, same_process, holds, shows_stopped,
  each_stopped,
}
use pty.Process.Snapshot.Sort.{holds-sort_identities, sort_identities-All, or_left, or_right}

-- The table shows the same process, live.
abbrev pub IsShown : ProcTable → ProcessIdentity → Type 0
IsShown t x = live_identity (row t x.pid) ≡ some x.identity

-- How one identity is treated: passed over, or kept when the answer shows it live.
abbrev Treated : ProcessIdentity → Answer Row → Live → List ProcessIdentity → Type 0
Treated x a rest l =
    ((rest ≡ live l) × (live_identity a ≢ some x.identity))
    ⊎ ((l' : List ProcessIdentity) × (l ≡ x ∷ l')
        × (rest ≡ live l')
        × (live_identity a ≡ some x.identity))

keep_live_lem :
    (x : ProcessIdentity) (rest : Live) (l : List ProcessIdentity)
    → keep_live x rest ≡ live l
    → (l' : List ProcessIdentity) × (l ≡ x ∷ l') × (rest ≡ live l')
keep_live_lem x (live l') l h = (l', ground arith, refl)
keep_live_lem x (unreadable_pid p) l h = cc

check_identity_lem :
    (x : ProcessIdentity) (o : Option Bytes) (rest : Live) (l : List ProcessIdentity)
    → check_identity x o rest ≡ live l
    → ((rest ≡ live l) × (o ≢ some x.identity))
      ⊎ ((l' : List ProcessIdentity) × (l ≡ x ∷ l') × (rest ≡ live l') × (o ≡ some x.identity))
check_identity_lem x none rest l h = cc
check_identity_lem x (some current) rest l h = elim (Bool-cases (bytes_eq current x.identity)) [
  | inl e ↦
      let (l', is, k) = keep_live_lem x rest l (rw e at h) in
      inr (l', is, k, ap some ((bytes_eq_iff current x.identity).0 e))
  | inr e ↦ inl (rw e at h, λ same. other e same)
]
  where
    other : bytes_eq current x.identity ≡ false → some current ≢ some x.identity
    other e same = ground (arith, (bytes_eq_iff current x.identity).1)

check_row_lem :
    (x : ProcessIdentity) (a : Answer Row) (rest : Live) (l : List ProcessIdentity)
    → check_row x a rest ≡ live l
    → Treated x a rest l
check_row_lem x (known r) rest l h = elim (Bool-cases (is_zombie r)) [
  | inl z ↦ rw z (inl (rw z at h, λ same. cc))
  | inr z ↦ rw z (check_identity_lem x r.identity rest l (rw z at h))
]
check_row_lem x not_present rest l h = inl (h, λ same. cc)
check_row_lem x (unknown u) rest l h = cc

live_of-IsShown :
    (t : ProcTable) (observed l : List ProcessIdentity)
    → live_of observed t ≡ live l
    → All (IsShown t) l
unfolding live_of
live_of-IsShown t [] l h = ground arith
live_of-IsShown t (x ∷ xs) l h = elim (check_row_lem x (row t x.pid) (live_of xs t) l h) [
  | inl (k, other) ↦ live_of-IsShown t xs l k
  | inr (l', is, k, shown) ↦ rw is (shown, live_of-IsShown t xs l' k)
]

live_of_keeps :
    (t : ProcTable) (observed l : List ProcessIdentity) (c : ProcessIdentity)
    → live_of observed t ≡ live l
    → holds c observed ≡ true
    → IsShown t c
    → holds c l ≡ true
unfolding live_of holds
live_of_keeps t [] l c h k s = cc
live_of_keeps t (x ∷ xs) l c h k s = elim (check_row_lem x (row t x.pid) (live_of xs t) l h) [
  | inl (rest, other) ↦ elim (or_true (same_process x c) (holds c xs) k) [
    | inl e ↦ absurd (other (shown_too e))
    | inr e ↦ live_of_keeps t xs l c rest e s
  ]
  | inr (l', is, rest, shown) ↦ rw is (elim (or_true (same_process x c) (holds c xs) k) [
    | inl e ↦ or_left _ (holds c l') e
    | inr e ↦ or_right (same_process x c) _ (live_of_keeps t xs l' c rest e s)
  ])
]
  where
    shown_too : same_process x c ≡ true → live_identity (row t x.pid) ≡ some x.identity
    shown_too e =
        let (p, i) = and_true (int_eq x.pid c.pid) (bytes_eq x.identity c.identity) e in
        rw ((int_eq_iff x.pid c.pid).0 p, (bytes_eq_iff x.identity c.identity).0 i) s

-- Both halves of what is still live.
pub still_live_identities_facts :
    (t : ProcTable) (observed l : List ProcessIdentity)
    → still_live_identities observed t ≡ live l
    → All (IsShown t) l
      × ((c : ProcessIdentity) → holds c observed ≡ true → IsShown t c → holds c l ≡ true)
unfolding still_live_identities
still_live_identities_facts t observed l h = by_live (live_of observed t) refl h
  where
    by_live :
        (o : Live)
        → live_of observed t ≡ o
        → sorted_live o ≡ live l
        → All (IsShown t) l
          × ((c : ProcessIdentity) → holds c observed ≡ true → IsShown t c → holds c l ≡ true)
    by_live (unreadable_pid p) e k = cc
    by_live (live l') e k =
        let is : sort_identities l' ≡ l = ground arith in
        rw (← is) (
          sort_identities-All (IsShown t) l' (live_of-IsShown t observed l' e),
          λ c m s. holds-sort_identities c l' ∙ live_of_keeps t observed l' c e m s,
        )

-- All of them are shown stopped.
pub each_stopped_lem :
    (t : ProcTable) (ids : List ProcessIdentity)
    → each_stopped ids t ≡ true
    → All (λ x. shows_stopped (row t x.pid) ≡ true) ids
unfolding each_stopped
each_stopped_lem t [] h = tt
each_stopped_lem t (x ∷ xs) h =
    let (a, b) = and_true (shows_stopped (row t x.pid)) (each_stopped xs t) h in
    (a, each_stopped_lem t xs b)
