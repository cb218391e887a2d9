-- ===== src/Actor/Safe/Steps/Held.antt =====
-- The events that hold the child, and the ready point, keep the operation actor safe.
use mathlib.Core.Path.{subst}
use pty.Base.{
  arith, ◌≡◌, refl, inl, inr, true, false, not, ◌&&◌, ◌||◌, Option, none, some, if_intro, Bytes,
  sym, codes, ◌++◌,
}
use pty.Operation.Record.{Phase}
use pty.Actor.{
  Actor, Env, Label, Stage, deciding, starting, held, ready, done, emit, reply, FrameKind,
  send_frame,
}
use pty.Actor.Outcome.{here, launched, outcome}
use pty.Actor.Safe.{
  IsSafe, IsLive, IsLaunched, IsLate, IsAfter, IsQuiet-IsUnreleased, IsReady, write-IsSafe,
  abandon-IsSafe, emit-IsSafe,
}
use pty.Actor.Safe.Retires.{retire-IsSafe}
use pty.Actor.Safe.Hands.{start_transfer-IsSafe}
use pty.Actor.Safe.Steps.{similar-IsSafe}
use pty.Actor.Events.{
  Ack, prepared, failed, lost, set_phase, is_starting, on_starting_ack, on_ack, start_deferred,
  on_ready_asked,
}
use pty.Actor.Events.Owner.{is_held}

starting-stage : (s : Stage) → is_starting s ≡ true → s ≡ starting
starting-stage starting h = refl
starting-stage deciding h = cc
starting-stage held h = cc
starting-stage ready h = cc
starting-stage done h = cc

held-stage : (s : Stage) → is_held s ≡ true → s ≡ held
held-stage held h = refl
held-stage deciding h = cc
held-stage starting h = cc
held-stage ready h = cc
held-stage done h = cc

-- A child is held, or ready is told, only while launched.
starting-launched :
    (a : Actor) → IsLaunched starting a → a.retiring ≡ false → outcome a.op_record ≡ launched
starting-launched a h r = by_case h.after
  where
    by_case : IsAfter starting a → outcome a.op_record ≡ launched
    by_case (inl (r', o, q)) = absurd (ground (arith, r, r'))
    by_case (inr (inl (r', o, u))) = o
    by_case (inr (inr (r', o, y))) = absurd y

held-launched :
    (a : Actor) → IsLaunched held a → a.retiring ≡ false → outcome a.op_record ≡ launched
held-launched a h r = by_case h.after
  where
    by_case : IsAfter held a → outcome a.op_record ≡ launched
    by_case (inl (r', o, q)) = absurd (ground (arith, r, r'))
    by_case (inr (inl (r', o, u))) = o
    by_case (inr (inr (r', o, y))) = absurd y

starting_ack-IsSafe :
    (env : Env) (ack : Ack) (a : Actor)
    → IsSafe a
    → a.stage ≡ starting
    → a.retiring ≡ false
    → IsSafe (on_starting_ack env ack a)
starting_ack-IsSafe env (failed step) a h s r =
    retire-IsSafe env none (codes "producer:prepare-" ++ step) a h (subst IsLate (sym s) tt)
starting_ack-IsSafe env lost a h s r =
    retire-IsSafe env none (codes "producer:child-lost") a h (subst IsLate (sym s) tt)
starting_ack-IsSafe env prepared a h s r =
    let live = subst (λ x. IsLive x a) s h.live in
    let next = set_phase Phase.held a.op_record in
    let o = starting-launched a live r in
    write-IsSafe env next a h.traced live.synced (inl refl) _ _ Label.held
      (λ k w. record {
        traced = record {
          justified = (o, ((refl, o), w.justified));
          path = (here, (here, w.path));
        };
        live = record {
          synced = refl;
          after = inr (inl (r, o, IsQuiet-IsUnreleased a.pending live.calm));
          early = tt;
          calm = live.calm;
        };
      })
      (λ d w v. abandon-IsSafe _ w)

pub on_ack-IsSafe : (env : Env) (ack : Ack) (a : Actor) → IsSafe a → IsSafe (on_ack env ack a)
unfolding on_ack
on_ack-IsSafe env ack a h =
    if_intro IsSafe (a.retiring || not (is_starting a.stage)) (λ e. h)
      (λ e.
        starting_ack-IsSafe env ack a h (starting-stage a.stage (ground (arith, e)))
          (ground (arith, e)))

told_ready : Actor → Actor
told_ready a =
    emit (reply true) (send_frame FrameKind.ready (record a { stage = ready; serving = true }))

told_ready-IsSafe :
    (a : Actor) → IsSafe a → a.stage ≡ held → a.retiring ≡ false → IsSafe (told_ready a)
unfolding told_ready
told_ready-IsSafe a h s r =
    let live = subst (λ x. IsLive x a) s h.live in
    let o = held-launched a live r in
    record {
      traced = record {
        justified = (tt, ((live.synced, o), h.traced.justified));
        path = (here, (here, h.traced.path));
      };
      live = record {
        synced = live.synced;
        after = inr (inl (r, o, IsQuiet-IsUnreleased a.pending live.calm));
        early = tt;
        calm = tt;
      };
    }

deferred-IsSafe :
    (env : Env) (d : Option Bytes) (a : Actor)
    → IsSafe a
    → IsReady a.stage
    → a.retiring ≡ false
    → IsSafe (start_deferred env d a)
deferred-IsSafe env none a h y r = h
deferred-IsSafe env (some id) a h y r =
    start_transfer-IsSafe env id (record a { deferred_transfer = none })
      (similar-IsSafe a _ refl
        (record {
          disks = refl;
          records = refl;
          retirings = refl;
          pendings = refl;
          ticketless = λ e. e;
        })
        refl h)
      y r

pub on_ready_asked-IsSafe : (env : Env) (a : Actor) → IsSafe a → IsSafe (on_ready_asked env a)
unfolding on_ready_asked told_ready
on_ready_asked-IsSafe env a h =
    if_intro IsSafe (is_held a.stage && not a.retiring)
      (λ e.
        deferred-IsSafe env a.deferred_transfer (told_ready a)
          (told_ready-IsSafe a h (held-stage a.stage (ground (arith, e))) (ground (arith, e))) tt
          (ground (arith, e)))
      (λ e. emit-IsSafe (reply false) a tt h)
