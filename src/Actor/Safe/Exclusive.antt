-- ===== src/Actor/Safe/Exclusive.antt =====
-- What a whole run of the operation actor of crates/pty/src/daemon/operation.rs keeps.
use mathlib.Core.Path.{subst}
use pty.Base.{
  ◌≡◌, ◌⊎◌, refl, inl, inr, Bool, true, false, List, [], ◌∷◌, Option, none, some, if_intro, Bytes,
  ap, sym, All,
}
use pty.Operation.Liveness.{ProcessId}
use pty.Operation.Record.{OperationRecord, State, daemon_gated}
use pty.Operation.Store.{Disk}
use pty.Actor.{
  Actor, Env, Effect, release_gate, shut_gate, before_decision, decide, Pending, accepted,
  send_frame,
}
use pty.Actor.Outcome.{
  Outcome, undecided, refused, launched, retiring, retired, transferred, unreadable, ◌⟶◌, refuse,
  launch, request, conclude, hand_over, ◌⟶*◌, here, onward, view, outcome_of, IsJustified,
}
use pty.Actor.Safe.{IsChain, IsQuiet, IsSafe}
use pty.Actor.Events.Owner.{in_held_phase}
use pty.Actor.Safe.Steps.Runs.{run_events-IsSafe, begin_sync-IsSafe}
use pty.Actor.Events.{ActorEvent, new_actor, run}

-- The effect is in the log.
abbrev pub IsLogged : Effect → List (Effect × Disk) → Type 0
IsLogged e [] = ⊥
IsLogged e ((e', d) ∷ log) = (e' ≡ e) ⊎ IsLogged e log

joined : {o p q : Outcome} → o ⟶* p → p ⟶* q → o ⟶* q
joined first here = first
joined first (onward second edge) = onward (joined first second) edge

abbrev on_release : Outcome → Bool
on_release transferred = true
on_release _ = false

abbrev on_retirement : Outcome → Bool
on_retirement retiring = true
on_retirement retired = true
on_retirement _ = false

edge_keeps_release : {o p : Outcome} → o ⟶ p → on_release o ≡ true → on_release p ≡ true
edge_keeps_release refuse h = cc
edge_keeps_release launch h = cc
edge_keeps_release request h = cc
edge_keeps_release conclude h = cc
edge_keeps_release hand_over h = cc

edge_keeps_retirement : {o p : Outcome} → o ⟶ p → on_retirement o ≡ true → on_retirement p ≡ true
edge_keeps_retirement refuse h = cc
edge_keeps_retirement launch h = cc
edge_keeps_retirement request h = cc
edge_keeps_retirement conclude h = refl
edge_keeps_retirement hand_over h = cc

keeps_release : {o p : Outcome} → o ⟶* p → on_release o ≡ true → on_release p ≡ true
keeps_release here h = h
keeps_release (onward path edge) h = edge_keeps_release edge (keeps_release path h)

keeps_retirement : {o p : Outcome} → o ⟶* p → on_retirement o ≡ true → on_retirement p ≡ true
keeps_retirement here h = h
keeps_retirement (onward path edge) h = edge_keeps_retirement edge (keeps_retirement path h)

-- What one entry of a justified chain was justified by, and its way to the end.
logged_way :
    (e : Effect) (o : Outcome) (log : List (Effect × Disk))
    → IsChain o log
    → All (λ x. IsJustified x.0 x.1) log
    → IsLogged e log
    → (d : Disk) × IsJustified e d × (view d ⟶* o)
logged_way e o [] c j h = absurd h
logged_way e o ((e', d) ∷ log) (way, c) (j, js) (inl k) = (d, subst (λ x. IsJustified x d) k j, way)
logged_way e o ((e', d) ∷ log) (way, c) (j, js) (inr h) =
    let (d', j', way') = logged_way e (view d) log c js h in (d', j', joined way' way)

not_both : (o : Outcome) → on_release o ≡ true → on_retirement o ≡ true → ⊥
not_both transferred h k = cc
not_both undecided h k = cc
not_both refused h k = cc
not_both launched h k = cc
not_both retiring h k = cc
not_both retired h k = cc
not_both unreadable h k = cc

safe-exclusive : (a : Actor) → IsSafe a → IsLogged release_gate a.log → ¬ IsLogged shut_gate a.log
safe-exclusive a h r s =
    let (d, j, way) = logged_way release_gate _ a.log h.traced.path h.traced.justified r in
    let (d', j', way') = logged_way shut_gate _ a.log h.traced.path h.traced.justified s in
    not_both (view a.disk) (keeps_release way (ap on_release j))
      (keeps_retirement way' (ap on_retirement j'))

module _ (env : Env) (events : List (Env × ActorEvent)) (r : OperationRecord) (me : ProcessId)
    (expected : Option Bytes) (runtime_id : Bytes) where
  opened : Option Pending → Actor
  opened p = record (send_frame accepted (new_actor r me expected runtime_id)) { pending = p }

  opened-IsSafe :
      (p : Option Pending)
      → IsQuiet p
      → r.state ≡ State.pending
      → r.phase ≡ daemon_gated
      → r.retirement ≡ none
      → IsSafe (opened p)
  unfolding opened new_actor
  opened-IsSafe p q s g t = record {
    traced = record {
      justified = (tt, tt);
      path = (here, subst (λ o. undecided ⟶* o) (sym starts) here);
    };
    live = record {
      synced = refl;
      undecided = starts;
      fresh = t;
      steady = refl;
      ticketless = refl;
      early = ap in_held_phase g;
      calm = q;
    };
  }
    where
      starts : outcome_of r.state r.retirement ≡ undecided
      starts = ap (λ x. outcome_of x r.retirement) s

  run-IsSafe :
      r.state ≡ State.pending
      → r.phase ≡ daemon_gated
      → r.retirement ≡ none
      → IsSafe (run env events (new_actor r me expected runtime_id))
  unfolding run new_actor opened
  run-IsSafe s g t = run_events-IsSafe events _ (
      if_intro IsSafe (env.armed before_decision) (λ e. opened-IsSafe (some decide) tt s g t)
        (λ e. begin_sync-IsSafe _ (opened-IsSafe none tt s g t)))

  -- From a pending record at its daemon's gate that has no retirement, after any events, with any
  -- answers of the machine and any write failing: every effect in the log was justified by what
  -- was on the disk when it happened. The worker was told to publish, fork or reach its ready
  -- point, and `held` and `ready` were told, while the launch was on the disk and no retirement;
  -- a decision or the end of a retirement was told once the disk held just the record told of; the
  -- gate was shut and the publication unwound under a requested retirement; and the gate was
  -- released, the session's marker set, the transfer told, also to the daemon, and a kill passed on
  -- to it, with the transfer on the disk. Of other effects, such as a rejection, nothing is said.
  pub run-IsJustified :
      r.state ≡ State.pending
      → r.phase ≡ daemon_gated
      → r.retirement ≡ none
      → All (λ x. IsJustified x.0 x.1) (run env events (new_actor r me expected runtime_id)).log
  run-IsJustified s g t = (run-IsSafe s g t).traced.justified

  -- Under the same conditions the run refines the contract of outcomes: from undecided to what the
  -- disk held at each entry of the log in turn, and to what it holds at the end, there is only the
  -- way from undecided to refused or launched, from launched to retiring or transferred, and from
  -- retiring to retired.
  pub run-IsChain :
      r.state ≡ State.pending
      → r.phase ≡ daemon_gated
      → r.retirement ≡ none
      → IsChain
          (view (run env events (new_actor r me expected runtime_id)).disk)
          (run env events (new_actor r me expected runtime_id)).log
  run-IsChain s g t = (run-IsSafe s g t).traced.path

  -- Under the same conditions a run that releases the held child's gate never shuts it, neither
  -- before nor after.
  pub run_releases_or_shuts :
      r.state ≡ State.pending
      → r.phase ≡ daemon_gated
      → r.retirement ≡ none
      → IsLogged release_gate (run env events (new_actor r me expected runtime_id)).log
      → ¬ IsLogged shut_gate (run env events (new_actor r me expected runtime_id)).log
  run_releases_or_shuts s g t released = safe-exclusive _ (run-IsSafe s g t) released
