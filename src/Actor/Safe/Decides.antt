-- ===== src/Actor/Safe/Decides.antt =====
-- The decision of the operation actor keeps it safe.
use pty.Base.{◌≡◌, refl, inl, inr, Option, none, some, if_intro, Bytes, codes, Result, ok, err, ap}
use pty.Operation.Record.{OperationRecord, Cause, refused, State}
use pty.Operation.Occupancy.{occupancy_rule}
use pty.Actor.{
  release_creation_lock, send_frame, emit, FrameKind, Actor, Env, Label, issue, TicketKind,
}
use pty.Actor.Outcome.{here, Outcome, refuse, launch, outcome, outcome_of, along}
use pty.Actor.Safe.{
  IsTraced, IsSafe, IsUndecided, write-IsSafe, finish-IsSafe, abandon-IsSafe, saved,
  IsQuiet-IsUnreleased,
}
use pty.Actor.Handlers.{
  cancel_before_launch, cancelled_record, launched_record, launch_with, decided, decide_launch,
}

pub cancel_before_launch-IsSafe :
    (env : Env) (cause : Cause) (id observed : Option Bytes) (a : Actor)
    → IsTraced a
    → IsUndecided a
    → IsSafe (cancel_before_launch env cause id observed a)
unfolding cancel_before_launch
cancel_before_launch-IsSafe env cause id observed a t u =
    write-IsSafe env next a t u.synced (along u.undecided refl refuse) _ _ Label.decision
      (λ c w.
        finish-IsSafe 3
          (emit release_creation_lock
            (send_frame (FrameKind.decision next.decision) (saved env.now next a)))
          (record {
            justified = (tt, ((refl, inl refl), w.justified));
            path = (here, (here, w.path));
          }))
      (λ d w v. abandon-IsSafe _ w)
  where
    next : OperationRecord
    next = cancelled_record env.now cause id observed a.op_record

launch_with-IsSafe :
    (env : Env) (predecessor : Option Bytes) (a : Actor)
    → IsTraced a
    → IsUndecided a
    → IsSafe (launch_with env predecessor a)
launch_with-IsSafe env predecessor a t u =
    write-IsSafe env (launched_record env predecessor a) (issue TicketKind.publish a)
      (record { justified = t.justified; path = t.path }) u.synced
      (along u.undecided launches launch) _ _ Label.decision
      (λ c w. record {
        traced = record {
          justified = (launches, ((refl, inr (inl launches)), w.justified));
          path = (here, (here, w.path));
        };
        live = record {
          synced = refl;
          after = inr (inl (u.steady, launches, IsQuiet-IsUnreleased a.pending u.calm));
          early = u.early;
          calm = u.calm;
        };
      })
      (λ d w v. abandon-IsSafe _ w)
  where
    launches : outcome (launched_record env predecessor a) ≡ Outcome.launched
    launches = ap (outcome_of State.launched) u.fresh

decided-IsSafe :
    (env : Env) (a : Actor) (r : Result (Option Bytes) (Cause × Bytes))
    → IsTraced a
    → IsUndecided a
    → IsSafe (decided env a r)
decided-IsSafe env a (ok predecessor) t u = launch_with-IsSafe env predecessor a t u
decided-IsSafe env a (err (cause, observed)) t u =
    cancel_before_launch-IsSafe env cause none (some observed) a t u

pub decide_launch-IsSafe :
    (env : Env) (a : Actor) → IsTraced a → IsUndecided a → IsSafe (decide_launch env a)
unfolding decide_launch
decide_launch-IsSafe env a t u =
    if_intro IsSafe env.holds_creation_lock
      (λ e. decided-IsSafe env a (occupancy_rule env.occupancy a.expected) t u)
      (λ e.
        cancel_before_launch-IsSafe env refused none (some (codes "creation-lock-not-delegated")) a
          t u)
