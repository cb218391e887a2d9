-- ===== src/Actor/Safe/Steps/Startup.antt =====
-- The startup events of the operation actor keep it safe.
use pty.Base.{
  arith, ◌≡◌, refl, inl, inr, Bool, true, false, Option, none, some, if_intro, if◌then◌else◌, Bytes,
  ap, ℕ, Result, ok, err, codes,
}
use pty.Operation.Liveness.{ProcessId}
use pty.Operation.Record.{Phase, is_consistent}
use pty.Actor.{
  Actor, Env, Label, Ticket, TicketKind, publish, fork_child, find_ticket, mark_ticket, TicketState,
  revoked, issued, emit, reply, worker, WorkerCmd, release_creation_lock, issue, next_ticket,
}
use pty.Actor.Outcome.{here, launched, outcome, outcome-transferred}
use pty.Actor.Safe.{IsSafe, IsLate, IsAfter, write-IsSafe, abandon-IsSafe, saved, emit-IsSafe}
use pty.Actor.Handlers.{is_done, retire}
use pty.Actor.Safe.Retires.{late-IsAfter, retire-IsSafe}
use pty.Actor.Safe.Steps.{
  similar-IsSafe, moved-IsLive, found-IsLate, resume-IsSafe, forking-consistent,
}
use pty.Actor.Events.{
  Completion, published, forked, set_phase, fork_next, preparing_record, child_known,
  outcome as conclude_ticket, on_ticket, on_completed, commit_ticket, resume,
}

launched-now :
    (a : Actor)
    → IsAfter a.stage a
    → a.retiring ≡ false
    → is_consistent (set_phase Phase.child_forking a.op_record) ≡ true
    → outcome a.op_record ≡ launched
launched-now a (inl (r, o, q)) e c = absurd (ground (arith, r, e))
launched-now a (inr (inl (r, o, q))) e c = o
launched-now a (inr (inr (r, o, y))) e c = absurd (
    forking-consistent a.op_record c
      (outcome-transferred a.op_record.state a.op_record.retirement o))

fork_next-IsSafe :
    (env : Env) (a : Actor)
    → IsSafe a
    → IsLate a.stage
    → a.retiring ≡ false
    → IsSafe (fork_next env a)
fork_next-IsSafe env a h late r =
    let (s, f, c) = late-IsAfter a.stage a late h.live in
    let next = set_phase Phase.child_forking a.op_record in
    write-IsSafe env next (issue fork_child a)
      (record { justified = h.traced.justified; path = h.traced.path }) s (inl refl) _ _
      Label.child_forking
      (λ k w.
        resume-IsSafe env
          (emit (worker (WorkerCmd.fork_child (next_ticket a)))
            (saved env.now next (issue fork_child a)))
          (record {
            traced = record {
              justified = (launched-now a f r k, w.justified);
              path = (here, w.path);
            };
            live = moved-IsLive a.stage a _ late h.live refl refl refl refl refl;
          }))
      (λ d w v. abandon-IsSafe _ w)

child_known-IsSafe :
    (env : Env) (id : Option ProcessId) (a : Actor)
    → IsSafe a
    → IsLate a.stage
    → IsSafe (child_known env id a)
child_known-IsSafe env none a h late =
    retire-IsSafe env none (codes "producer:child-exited") a h late
child_known-IsSafe env (some id) a h late =
    write-IsSafe env (preparing_record id a.op_record) a h.traced
      (late-IsAfter a.stage a late h.live).0 (inl refl) _ _ Label.child_preparing
      (λ k w. resume-IsSafe env _ (record {
        traced = w;
        live = moved-IsLive a.stage a _ late h.live refl refl refl refl refl;
      }))
      (λ d w v. abandon-IsSafe _ w)

abbrev with_child : Actor → ℕ → Option ProcessId → Actor
with_child a pid id = record a { child = some (record { id = id; pid = pid }) }

module _ (env : Env) (a : Actor) (h : IsSafe a) (late : IsLate a.stage) where
  published-IsSafe : IsSafe (
      if a.retiring
      then resume env (emit release_creation_lock a)
      else fork_next env (emit release_creation_lock a))
  published-IsSafe =
      if_intro IsSafe a.retiring
        (λ e. resume-IsSafe env _ (emit-IsSafe release_creation_lock a tt h))
        (λ e. fork_next-IsSafe env _ (emit-IsSafe release_creation_lock a tt h) late e)

  with_child-IsSafe : (pid : ℕ) (id : Option ProcessId) → IsSafe (with_child a pid id)
  with_child-IsSafe pid id =
      similar-IsSafe a (with_child a pid id) refl
        (record {
          disks = refl;
          records = refl;
          retirings = refl;
          pendings = refl;
          ticketless = λ e. e;
        })
        refl h

  forked-IsSafe :
      (pid : ℕ) (id : Option ProcessId)
      → IsSafe (
          if a.retiring
          then resume env (with_child a pid id)
          else child_known env id (with_child a pid id))
  forked-IsSafe pid id =
      if_intro IsSafe a.retiring (λ e. resume-IsSafe env _ (with_child-IsSafe pid id))
        (λ e. child_known-IsSafe env id _ (with_child-IsSafe pid id) late)

  failed-IsSafe :
      IsSafe
        (resume env (if a.retiring then a else retire env none (codes "producer:startup-failed") a))
  failed-IsSafe = resume-IsSafe env _ (
      if_intro IsSafe a.retiring (λ e. h)
        (λ e. retire-IsSafe env none (codes "producer:startup-failed") a h late))

  outcome-IsSafe :
      (kind : TicketKind) (result : Result Completion Bytes)
      → IsSafe (conclude_ticket env kind result a)
  outcome-IsSafe publish (ok c) = published-IsSafe
  outcome-IsSafe fork_child (ok (forked pid id)) = forked-IsSafe pid id
  outcome-IsSafe fork_child (ok published) = resume-IsSafe env a h
  outcome-IsSafe publish (err text) = failed-IsSafe
  outcome-IsSafe fork_child (err text) = failed-IsSafe

marked-IsSafe :
    (a : Actor) (id : ℕ) (s : TicketState) (p : Bool)
    → IsSafe a
    → IsSafe (record a { tickets = mark_ticket id s a.tickets; published = p })
marked-IsSafe a id s p h =
    similar-IsSafe a _ refl
      (record {
        disks = refl;
        records = refl;
        retirings = refl;
        pendings = refl;
        ticketless = λ e. ap (mark_ticket id s) e;
      })
      refl h

module _ (env : Env) (a : Actor) (h : IsSafe a) (running : is_done a.stage ≡ false) where
  pub on_completed-IsSafe :
      (id : ℕ) (result : Result Completion Bytes) → IsSafe (on_completed env id result a)
  unfolding on_completed
  on_completed-IsSafe id result = by_ticket (find_ticket id a.tickets) refl
    where
      by_ticket :
          (o : Option Ticket) → find_ticket id a.tickets ≡ o → IsSafe (on_ticket env o result a)
      by_ticket none e = h
      by_ticket (some t) e =
          outcome-IsSafe env _ (marked-IsSafe a t.id TicketState.completed a.published h)
            (found-IsLate a.stage a id t running h.live e) t.kind result

  pub commit_ticket-IsSafe : (o : Option Ticket) → IsSafe (commit_ticket o a)
  commit_ticket-IsSafe none = emit-IsSafe (reply false) a tt h
  commit_ticket-IsSafe (some t) =
      if_intro IsSafe (elim t.state as (λ x. Bool) [ issued ↦ true | _ ↦ false ])
        (λ e.
          if_intro IsSafe a.retiring
            (λ r. emit-IsSafe (reply false) _ tt (marked-IsSafe a t.id revoked a.published h))
            (λ r. emit-IsSafe (reply true) _ tt (marked-IsSafe a t.id TicketState.committed _ h)))
        (λ e. emit-IsSafe (reply false) a tt h)
