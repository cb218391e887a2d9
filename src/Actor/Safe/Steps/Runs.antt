-- ===== src/Actor/Safe/Steps/Runs.antt =====
-- Every event, and every run, keeps the operation actor safe.
use mathlib.Core.Path.{subst}
use pty.Base.{
  arith, ◌≡◌, refl, inl, inr, true, false, ◌&&◌, List, [], ◌∷◌, Option, none, some, if_intro, Bytes,
  ap, ◌∙◌, sym, codes, if◌then◌else◌,
}
use pty.Operation.Record.{
  State, refused, Retirement, RetirementPhase, requested, verified, incomplete,
}
use pty.Actor.{
  Actor, Env, Stage, deciding, starting, held, ready, done, Pending, decide, transfer_commit,
  transfer_release, transfer_ack, Barrier, before_decision, transfer_before_commit,
  transfer_committed_before_release, released_before_ack, message, external_kill, sync, find_ticket,
}
use pty.Actor.Outcome.{Outcome, undecided, transferred, outcome, outcome_of, view}
use pty.Actor.Safe.{
  IsSafe, IsLive, IsLate, IsReady, IsAfter, IsSynced, IsQuiet, IsUnreleased, emit-IsSafe,
}
use pty.Actor.Handlers.{is_done, decide_launch}
use pty.Actor.Safe.Decides.{cancel_before_launch-IsSafe, decide_launch-IsSafe}
use pty.Actor.Safe.Retires.{retire-IsSafe}
use pty.Actor.Safe.Hands.{commit_transfer-IsSafe, release_transfer-IsSafe, finish_transfer-IsSafe}
use pty.Actor.Safe.Steps.{similar-IsSafe, live-IsSynced}
use pty.Actor.Safe.Steps.Startup.{on_completed-IsSafe, commit_ticket-IsSafe}
use pty.Actor.Safe.Steps.Held.{on_ack-IsSafe, on_ready_asked-IsSafe}
use pty.Actor.Safe.Steps.Owned.{on_owner-IsSafe, deciding-stage}
use pty.Actor.Events.{
  ActorEvent, owner, synced, child_exited, shutdown, ready_asked, commit, completed, child_ack,
  released, begin_sync, on_shutdown, on_child_exited, on_parked, on_event, run_events,
}
use pty.Actor.Events.Owner.{is_deciding}

-- A launched record is not undecided.
launched-decided : (t : Option Retirement) → outcome_of State.launched t ≡ undecided → ⊥
launched-decided none h = cc
launched-decided (some t) h = by_phase t.phase h
  where
    by_phase :
        (p : RetirementPhase)
        → elim p as (λ x. Outcome) [ requested ↦ Outcome.retiring | _ ↦ Outcome.retired ]
          ≡ undecided
        → ⊥
    by_phase requested h = cc
    by_phase verified h = cc
    by_phase incomplete h = cc

launched-IsLate :
    (s : Stage) (a : Actor)
    → is_done s ≡ false
    → IsLive s a
    → a.op_record.state ≡ State.launched
    → IsLate s
launched-IsLate deciding a d h e = absurd (
    launched-decided a.op_record.retirement
      (sym (ap (λ x. outcome_of x a.op_record.retirement) e) ∙ h.undecided))
launched-IsLate starting a d h e = tt
launched-IsLate held a d h e = tt
launched-IsLate ready a d h e = tt
launched-IsLate done a d h e = cc

committing-IsReady :
    (s : Stage) (a : Actor) (id : Bytes)
    → is_done s ≡ false
    → IsLive s a
    → a.pending ≡ some (transfer_commit id)
    → IsReady s
committing-IsReady ready a id d h e = tt
committing-IsReady deciding a id d h e = absurd (subst IsQuiet e h.calm)
committing-IsReady starting a id d h e = absurd (subst IsQuiet e h.calm)
committing-IsReady held a id d h e = absurd (subst IsQuiet e h.calm)
committing-IsReady done a id d h e = cc

-- A release that is parked has its transfer on the disk.
parked-IsHanded :
    (s : Stage) (a : Actor) (p : Pending)
    → (IsUnreleased (some p) → ⊥)
    → (IsQuiet (some p) → ⊥)
    → is_done s ≡ false
    → IsLive s a
    → a.pending ≡ some p
    → IsSynced a × (outcome a.op_record ≡ transferred) × (a.retiring ≡ false) × IsReady s
parked-IsHanded ready a p u q d h e = by_case h.after
  where
    by_case :
        IsAfter ready a
        → IsSynced a × (outcome a.op_record ≡ transferred) × (a.retiring ≡ false) × IsReady ready
    by_case (inl (r, o, x)) = absurd (q (subst IsQuiet e x))
    by_case (inr (inl (r, o, x))) = absurd (u (subst IsUnreleased e x))
    by_case (inr (inr (r, o, x))) = (h.synced, o, r, tt)
parked-IsHanded deciding a p u q d h e = absurd (q (subst IsQuiet e h.calm))
parked-IsHanded starting a p u q d h e = absurd (q (subst IsQuiet e h.calm))
parked-IsHanded held a p u q d h e = absurd (q (subst IsQuiet e h.calm))
parked-IsHanded done a p u q d h e = cc

unparked-IsAfter : (s : Stage) (a : Actor) → IsAfter s a → IsAfter s (record a { pending = none })
unparked-IsAfter s a (inl (r, o, q)) = inl (r, o, tt)
unparked-IsAfter s a (inr (inl (r, o, q))) = inr (inl (r, o, tt))
unparked-IsAfter s a (inr (inr (r, o, y))) = inr (inr (r, o, y))

unparked-IsLive : (s : Stage) (a : Actor) → IsLive s a → IsLive s (record a { pending = none })
unparked-IsLive deciding a h = record {
  synced = h.synced;
  undecided = h.undecided;
  fresh = h.fresh;
  steady = h.steady;
  ticketless = h.ticketless;
  early = h.early;
  calm = tt;
}
unparked-IsLive starting a h = record {
  synced = h.synced;
  after = unparked-IsAfter starting a h.after;
  early = h.early;
  calm = tt;
}
unparked-IsLive held a h = record {
  synced = h.synced;
  after = unparked-IsAfter held a h.after;
  early = tt;
  calm = tt;
}
unparked-IsLive ready a h = record {
  synced = h.synced;
  after = unparked-IsAfter ready a h.after;
  early = tt;
  calm = tt;
}
unparked-IsLive done a h = tt

unparked-IsSafe : (a : Actor) → IsSafe a → IsSafe (record a { pending = none })
unparked-IsSafe a h = record {
  traced = record { justified = h.traced.justified; path = h.traced.path };
  live = unparked-IsLive a.stage a h.live;
}

pub begin_sync-IsSafe : (a : Actor) → IsSafe a → IsSafe (begin_sync a)
begin_sync-IsSafe a h =
    emit-IsSafe sync (record a { syncing = true }) tt
      (similar-IsSafe a (record a { syncing = true }) refl
        (record {
          disks = refl;
          records = refl;
          retirings = refl;
          pendings = refl;
          ticketless = λ x. x;
        })
        refl h)

module _ (env : Env) (a : Actor) (h : IsSafe a) (running : is_done a.stage ≡ false) where
  parked-IsSafe : (b : Barrier) (p : Option Pending) → a.pending ≡ p → IsSafe (on_parked env b p a)
  parked-IsSafe before_decision (some decide) e =
      if_intro IsSafe (is_deciding a.stage) (λ d. begin_sync-IsSafe _ (unparked-IsSafe a h))
        (λ d. h)
  parked-IsSafe transfer_before_commit (some (transfer_commit id)) e =
      commit_transfer-IsSafe env id _ (unparked-IsSafe a h)
        (committing-IsReady a.stage a id running h.live e)
  parked-IsSafe transfer_committed_before_release (some transfer_release) e =
      let (s, o, r, y) =
        parked-IsHanded a.stage a transfer_release (λ x. x) (λ x. x) running h.live e in
      release_transfer-IsSafe env _ (unparked-IsSafe a h).traced
        (record { synced = s; handed = o; steady = r; at_ready = y })
  parked-IsSafe released_before_ack (some (transfer_ack sent)) e =
      let (s, o, r, y) =
        parked-IsHanded a.stage a (transfer_ack sent) (λ x. x) (λ x. x) running h.live e in
      finish_transfer-IsSafe env sent _ (unparked-IsSafe a h).traced s o
  parked-IsSafe _ _ e = h

  child_exited-IsSafe : (s : State) → a.op_record.state ≡ s → IsSafe (on_child_exited env s a)
  child_exited-IsSafe State.launched e =
      retire-IsSafe env none (codes "producer:child-exited") a h
        (launched-IsLate a.stage a running h.live e)
  child_exited-IsSafe _ e = h

  shutdown-IsSafe : (s : State) → a.op_record.state ≡ s → IsSafe (on_shutdown env s a)
  unfolding on_shutdown
  shutdown-IsSafe State.launched e =
      retire-IsSafe env none (codes "producer:terminated") a h
        (launched-IsLate a.stage a running h.live e)
  shutdown-IsSafe State.pending e =
      if_intro IsSafe (is_deciding a.stage)
        (λ d.
          cancel_before_launch-IsSafe env refused none (some (codes "producer:terminated")) a
            h.traced (subst (λ x. IsLive x a) (deciding-stage a.stage d) h.live))
        (λ d. h)
  shutdown-IsSafe State.transferred e =
      emit-IsSafe (message external_kill) a
        (ap view (live-IsSynced a.stage a running h.live)
          ∙ ap (λ x. outcome_of x a.op_record.retirement) e)
        h
  shutdown-IsSafe _ e = h

  synced-IsSafe : IsSafe (
      if is_deciding a.stage && a.syncing
      then decide_launch env (record a { syncing = false })
      else a)
  synced-IsSafe =
      if_intro IsSafe (is_deciding a.stage && a.syncing)
        (λ e. by_stage e (
          similar-IsSafe a (record a { syncing = false }) refl
            (record {
              disks = refl;
              records = refl;
              retirings = refl;
              pendings = refl;
              ticketless = λ x. x;
            })
            refl h))
        (λ e. h)
    where
      by_stage :
          (is_deciding a.stage && a.syncing) ≡ true
          → IsSafe (record a { syncing = false })
          → IsSafe (decide_launch env (record a { syncing = false }))
      by_stage e g = decide_launch-IsSafe env _ g.traced (
          subst (λ x. IsLive x (record a { syncing = false }))
            (deciding-stage a.stage (ground (arith, e))) g.live)

  pub on_event-IsSafe : (event : ActorEvent) → IsSafe (on_event env event a)
  unfolding on_event
  on_event-IsSafe synced = synced-IsSafe
  on_event-IsSafe (released b) = parked-IsSafe b a.pending refl
  on_event-IsSafe (commit ticket) =
      commit_ticket-IsSafe env a h running (find_ticket ticket a.tickets)
  on_event-IsSafe (completed ticket result) = on_completed-IsSafe env a h running ticket result
  on_event-IsSafe (child_ack ack) = on_ack-IsSafe env ack a h
  on_event-IsSafe ready_asked = on_ready_asked-IsSafe env a h
  on_event-IsSafe child_exited = child_exited-IsSafe a.op_record.state refl
  on_event-IsSafe shutdown = shutdown-IsSafe a.op_record.state refl
  on_event-IsSafe (owner input) = on_owner-IsSafe env input a h running

pub run_events-IsSafe :
    (events : List (Env × ActorEvent)) (a : Actor) → IsSafe a → IsSafe (run_events events a)
run_events-IsSafe [] a h = h
run_events-IsSafe ((env, event) ∷ events) a h =
    run_events-IsSafe events _
      (if_intro IsSafe (is_done a.stage) (λ e. h) (λ e. on_event-IsSafe env a h e event))
