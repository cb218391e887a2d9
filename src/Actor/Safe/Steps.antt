-- ===== src/Actor/Safe/Steps.antt =====
-- Facts on a live operation actor that the events share.
pub mod Startup
pub mod Held
pub mod Owned
pub mod Runs
use mathlib.Core.Path.{subst}
use pty.Base.{
  All, arith, ◌≡◌, ◌⊎◌, refl, inl, inr, Bool, true, false, not, ◌&&◌, ◌||◌, List, [], ◌∷◌, Option,
  none, some, if_intro, Bytes, ap, ◌∙◌, sym, ℕ,
}
use pty.Operation.Record.{
  OperationRecord, State, Retirement, RetirementPhase, requested, verified, incomplete, Phase,
  is_consistent, check,
}
use pty.Operation.Store.{Disk, stored}
use pty.Actor.{
  Actor, Env, Pending, decide, transfer_commit, transfer_release, transfer_ack, Ticket, find_ticket,
  mark_ticket, TicketState, Stage, deciding, starting, held, ready, done, in_transferred,
  committed_in_flight,
}
use pty.Actor.Events.Owner.{in_held_phase}
use pty.Actor.Outcome.{
  undecided, ◌⟶*◌, IsJustified, view, Outcome, undecided, launched, retiring, transferred, outcome,
  outcome_of, view,
}
use pty.Actor.Safe.{
  IsChain, IsTraced, IsSafe, IsLive, IsSynced, IsReady, IsLate, IsAfter, IsQuiet, IsUnreleased,
  IsEarly, IsCalm,
}
use pty.Actor.Handlers.{is_done}
use pty.Actor.Safe.Retires.{late-IsAfter, IsRetiring, complete_retirement-IsSafe}
use pty.Actor.Handlers.{complete_retirement}
use pty.Actor.Events.{resume, set_phase}

-- Two actors that differ in nothing that matters here.
pub record IsSimilar (a b : Actor) : Type 0 where
  pub disks : b.disk ≡ a.disk
  pub records : b.op_record ≡ a.op_record
  pub retirings : b.retiring ≡ a.retiring
  pub pendings : b.pending ≡ a.pending
  pub ticketless : a.tickets ≡ [] → b.tickets ≡ []

module _ (a b : Actor) (m : IsSimilar a b) where
  similar-IsSynced : IsSynced a → IsSynced b
  similar-IsSynced h = m.disks ∙ h ∙ ap (λ r. some (stored r)) (sym m.records)

  similar-IsAfter : (s : Stage) → IsAfter s a → IsAfter s b
  similar-IsAfter s (inl (r, o, q)) =
      inl (m.retirings ∙ r, ap outcome m.records ∙ o, subst IsQuiet (sym m.pendings) q)
  similar-IsAfter s (inr (inl (r, o, q))) =
      inr (inl (m.retirings ∙ r, ap outcome m.records ∙ o, subst IsUnreleased (sym m.pendings) q))
  similar-IsAfter s (inr (inr (r, o, y))) = inr (inr (m.retirings ∙ r, ap outcome m.records ∙ o, y))

  pub similar-IsLive : (s : Stage) → IsLive s a → IsLive s b
  similar-IsLive done h = tt
  similar-IsLive deciding h = record {
    synced = similar-IsSynced h.synced;
    undecided = ap outcome m.records ∙ h.undecided;
    fresh = ap (λ r. r.retirement) m.records ∙ h.fresh;
    steady = m.retirings ∙ h.steady;
    ticketless = m.ticketless h.ticketless;
    early = subst (λ r. IsEarly deciding r.phase) (sym m.records) h.early;
    calm = subst IsQuiet (sym m.pendings) h.calm;
  }
  similar-IsLive starting h = record {
    synced = similar-IsSynced h.synced;
    after = similar-IsAfter starting h.after;
    early = subst (λ r. IsEarly starting r.phase) (sym m.records) h.early;
    calm = subst IsQuiet (sym m.pendings) h.calm;
  }
  similar-IsLive held h = record {
    synced = similar-IsSynced h.synced;
    after = similar-IsAfter held h.after;
    early = tt;
    calm = subst IsQuiet (sym m.pendings) h.calm;
  }
  similar-IsLive ready h = record {
    synced = similar-IsSynced h.synced;
    after = similar-IsAfter ready h.after;
    early = tt;
    calm = tt;
  }

pub similar-IsSafe :
    (a b : Actor) → b.stage ≡ a.stage → IsSimilar a b → b.log ≡ a.log → IsSafe a → IsSafe b
similar-IsSafe a b e m l h = record {
  traced = record {
    justified = subst (λ log. All (λ x. IsJustified x.0 x.1) log) (sym l) h.traced.justified;
    path =
        subst (λ d. IsChain (view d) b.log) (sym m.disks)
          (subst (λ log. IsChain (view a.disk) log) (sym l) h.traced.path);
  };
  live = subst (λ s. IsLive s b) (sym e) (similar-IsLive a b m a.stage h.live);
}

-- The record moves on within its outcome, to a phase that is not the last.
pub moved-IsLive :
    (s : Stage) (a b : Actor)
    → IsLate s
    → IsLive s a
    → IsSynced b
    → outcome b.op_record ≡ outcome a.op_record
    → b.retiring ≡ a.retiring
    → b.pending ≡ a.pending
    → in_held_phase b.op_record.phase ≡ false
    → IsLive s b
moved-IsLive s a b l h y o r p e = by_stage s l (late-IsAfter s a l h)
  where
    after : (s : Stage) → IsAfter s a → IsAfter s b
    after s (inl (r', o', q)) = inl (r ∙ r', o ∙ o', subst IsQuiet (sym p) q)
    after s (inr (inl (r', o', q))) = inr (inl (r ∙ r', o ∙ o', subst IsUnreleased (sym p) q))
    after s (inr (inr (r', o', z))) = inr (inr (r ∙ r', o ∙ o', z))

    by_stage : (s : Stage) → IsLate s → IsSynced a × IsAfter s a × IsCalm s a.pending → IsLive s b
    by_stage starting l (x, f, c) = record {
      synced = y;
      after = after starting f;
      early = e;
      calm = subst IsQuiet (sym p) c;
    }
    by_stage held l (x, f, c) = record {
      synced = y;
      after = after held f;
      early = tt;
      calm = subst IsQuiet (sym p) c;
    }
    by_stage ready l (x, f, c) = record { synced = y; after = after ready f; early = tt; calm = tt }
    by_stage deciding l x = absurd l
    by_stage done l x = absurd l

pub live-IsSynced : (s : Stage) (a : Actor) → is_done s ≡ false → IsLive s a → IsSynced a
live-IsSynced deciding a d h = h.synced
live-IsSynced starting a d h = h.synced
live-IsSynced held a d h = h.synced
live-IsSynced ready a d h = h.synced
live-IsSynced done a d h = cc

-- There are no tickets before the decision.
pub found-IsLate :
    (s : Stage) (a : Actor) (id : ℕ) (t : Ticket)
    → is_done s ≡ false
    → IsLive s a
    → find_ticket id a.tickets ≡ some t
    → IsLate s
found-IsLate deciding a id t d h e =
    absurd (ground (arith, sym e ∙ ap (find_ticket id) h.ticketless))
found-IsLate starting a id t d h e = tt
found-IsLate held a id t d h e = tt
found-IsLate ready a id t d h e = tt
found-IsLate done a id t d h e = cc

done-IsSafe :
    (env : Env) (a : Actor) → is_done a.stage ≡ true → IsSafe a → IsSafe (complete_retirement env a)
unfolding complete_retirement
done-IsSafe env a d h =
    if_intro IsSafe (not a.retiring || is_done a.stage) (λ e. h)
      (λ e. absurd (ground (arith, d, e)))

resuming-IsSafe :
    (env : Env) (a : Actor) (s : Stage)
    → a.stage ≡ s
    → IsLive s a
    → IsSafe a
    → (a.retiring && not (committed_in_flight a)) ≡ true
    → IsSafe (complete_retirement env a)
resuming-IsSafe env a deciding k l h e = absurd (ground (arith, l.steady, e))
resuming-IsSafe env a done k l h e = done-IsSafe env a (ap is_done k) h
resuming-IsSafe env a s k l h e =
    complete_retirement-IsSafe env a h (by_case (late-IsAfter s a tt l))
  where
    by_case : IsSynced a × IsAfter s a × IsCalm s a.pending → IsRetiring a
    by_case (s, inl (r, o, q), c) = (s, o)
    by_case (s, inr (inl (r, o, q)), c) = absurd (ground (arith, r, e))
    by_case (s, inr (inr (r, o, q)), c) = absurd (ground (arith, r, e))

pub resume-IsSafe : (env : Env) (a : Actor) → IsSafe a → IsSafe (resume env a)
resume-IsSafe env a h =
    if_intro IsSafe (a.retiring && not (committed_in_flight a))
      (λ e. resuming-IsSafe env a a.stage refl h.live h e) (λ e. h)

pub forking-consistent :
    (r : OperationRecord)
    → is_consistent (set_phase Phase.child_forking r) ≡ true
    → in_transferred r.state ≡ true
    → ⊥
unfolding is_consistent check
forking-consistent r c e = ground arith
