-- ===== src/Process/Sweep/Signals.antt =====
-- Which groups a sweep signals, with what, and what its answer rests on.
use pty.Base.{
  Bool, true, false, not, ℕ, suc, ◌≡◌, ◌≢◌, arith, ◌&&◌, List, [], ◌∷◌, ◌++◌, ℤ, pos, int_eq,
  int_lt, int_eq_iff, All, ◌⊎◌, inl, inr, Bool-cases, and_true,
}
use pty.Process.Sweep.Waits.{Waited, Polled}
use pty.Process.Sweep.{
  Terminated, Signal, sigterm, sigkill, targets_of, send_all, no_pids, Swept, sweep_groups,
}

-- A group that may be signalled: not group 1, none below, and not the sweeper's own.
abbrev pub MaySignal : ℤ → ℤ → Type 0
MaySignal own g = (int_lt (pos 1) g ≡ true) × (g ≢ own)

targets_of-MaySignal : (groups : List ℤ) (own : ℤ) → All (MaySignal own) (targets_of groups own)
unfolding targets_of
targets_of-MaySignal [] own = tt
targets_of-MaySignal (g ∷ gs) own = elim (Bool-cases (int_lt (pos 1) g && not (int_eq g own))) [
  | inr e ↦ rw (e, targets_of) (targets_of-MaySignal gs own)
  | inl e ↦
      rw (e, targets_of)
        (
          (
            (and_true (int_lt (pos 1) g) (not (int_eq g own)) e).0,
            λ same.
                other (and_true (int_lt (pos 1) g) (not (int_eq g own)) e).1
                  ((int_eq_iff g own).1 same),
          ),
          targets_of-MaySignal gs own,
        )
]
  where
    other : not (int_eq g own) ≡ true → int_eq g own ≡ true → ⊥
    other k h = cc (rw h at k)

send_all-All :
    (own : ℤ) (s : Signal) (gs : List ℤ)
    → All (MaySignal own) gs
    → All (λ e. MaySignal own e.0) (send_all s gs)
send_all-All own s [] h = tt
send_all-All own s (g ∷ gs) h = (h.0, send_all-All own s gs h.1)

All-append :
    (own : ℤ) (xs ys : List (ℤ × Signal))
    → All (λ e. MaySignal own e.0) xs
    → All (λ e. MaySignal own e.0) ys
    → All (λ e. MaySignal own e.0) (xs ++ ys)
All-append own [] ys hx hy = hy
All-append own (x ∷ xs) ys hx hy = (hx.0, All-append own xs ys hx.1 hy)

-- Whatever groups are handed in and whatever the readings show, a sweep never signals its own
-- group, group 1, or a number below.
pub sweep_groups_safe :
    (live : ℕ → List ℤ → List ℤ) (groups : List ℤ) (own : ℤ) (term_polls kill_polls : ℕ)
    → All (λ e. MaySignal own e.0) (sweep_groups live groups own term_polls kill_polls).signals
unfolding sweep_groups
sweep_groups_safe live groups own term_polls kill_polls =
    let may = targets_of-MaySignal groups own in
    let term = send_all-All own sigterm (targets_of groups own) may in
    let kill = send_all-All own sigkill (targets_of groups own) may in
    let both = All-append own _ _ term kill in ground (arith, term, both)

-- How a sweep may answer: with nothing signalled and a reading of the groups handed in; with TERM
-- alone, when the wait behind it ends on an empty reading of the targets; or with TERM and then
-- KILL, when that wait ends on one that is not empty, with the answer of a second wait whose
-- readings all come later.
abbrev pub SweepAnswer : (ℕ → List ℤ → List ℤ) → List ℤ → List ℤ → ℕ → ℕ → Swept → Type 0
SweepAnswer live groups targets term_polls kill_polls s =
    ((targets ≡ []) × (s.signals ≡ []) × (s.remaining ≡ live 0 groups))
    ⊎ ((targets ≢ [])
        × (s.signals ≡ send_all sigterm targets)
        × (s.remaining ≡ [])
        × Waited live targets 0 term_polls [])
    ⊎ ((targets ≢ [])
        × (s.signals ≡ send_all sigterm targets ++ send_all sigkill targets)
        × ((left : List ℤ) × (no_pids left ≡ false)
            × ((w : Waited live targets 0 term_polls left) × Waited live targets (suc w.last)
                  kill_polls s.remaining)))

-- How a group's termination may have gone: no signal, to a group that does not exist; TERM, when
-- the question behind the polls says that the group is gone; or TERM and KILL, when it says that
-- the group still exists, with the answer of the question behind the second polls.
abbrev pub TerminateAnswer : (ℕ → Bool) → ℕ → ℕ → Terminated → Type 0
TerminateAnswer exists term_polls kill_polls r =
    ((exists 0 ≡ false) × (r ≡ record { gone = true; sent = [] }))
    ⊎ ((exists 0 ≡ true)
        × ((n : ℕ) × (Polled exists 1 term_polls n) × (exists n ≡ false))
        × (r ≡ record { gone = true; sent = sigterm ∷ [] }))
    ⊎ ((exists 0 ≡ true)
        × ((n : ℕ) × (Polled exists 1 term_polls n)
            × (exists n ≡ true)
            × ((m : ℕ) × (Polled exists (suc n) kill_polls m)
                × (r ≡ record { gone = not (exists m); sent = sigterm ∷ sigkill ∷ [] }))))
