-- ===== src/Actor/Safe/Retires.antt =====
-- A retirement by the operation actor keeps it safe.
use mathlib.Core.Path.{subst}
use pty.Base.{
  List, arith, All, ◌≡◌, refl, inl, inr, Bool, true, false, not, ◌||◌, Option, none, some, if_intro,
  Bytes, codes, ap, ◌∙◌, sym,
}
use pty.Operation.Liveness.{ProcessId}
use pty.Operation.Record.{Cause, requested, OperationRecord}
use pty.Actor.{
  Effect, Actor, Env, Label, Pending, decide, transfer_commit, transfer_release, transfer_ack,
  ChildRecord, Stage, deciding, starting, held, ready, done, is_transferred, shut_gate, kill_child,
  unwind_publication, release_creation_lock, committed_in_flight, FrameKind, send_frame,
}
use pty.Actor.Outcome.{
  here, Outcome, retiring, launched, request, conclude, outcome, view, along, outcome-transferred,
  IsJustified, outcome-requested, outcome-ended,
}
use pty.Operation.Store.{Disk}
use pty.Actor.Safe.{
  IsChain, IsTraced, IsSafe, IsLive, IsSynced, IsLate, IsAfter, IsEarly, IsCalm, IsQuiet,
  write-IsSafe, finish-IsSafe, abandon-IsSafe, saved, emit-IsTraced, emit-IsLive,
}
use pty.Actor.Handlers.{
  is_done, terminal_record, conclude as conclude_with, conclude_row, conclude_child, end_child,
  kill_staying, unwind_row, complete_retirement, refuse_commit, refuse_deferred, without_transfer,
  retiring_record, tell_cause, revoke_all, complete_if_idle, request_retirement, retire,
}

-- On the disk the retirement is requested.
abbrev pub IsRetiring : Actor → Type 0
IsRetiring a = IsSynced a × (outcome a.op_record ≡ retiring)

viewed : (a : Actor) → IsRetiring a → view a.disk ≡ retiring
viewed a (s, o) = ap view s ∙ o

conclude_with-IsSafe :
    (env : Env) (good : Bool) (a : Actor)
    → IsTraced a
    → IsRetiring a
    → IsSafe (conclude_with env good a)
conclude_with-IsSafe env good a t (s, o) =
    write-IsSafe env next a t s (along o ends conclude) _ _ Label.retirement_terminal
      (λ c w.
        finish-IsSafe 0 (send_frame (FrameKind.retirement next.retirement) (saved env.now next a))
          (record { justified = ((refl, ends), w.justified); path = (here, w.path) }))
      (λ d w v. abandon-IsSafe _ w)
  where
    next : OperationRecord
    next = terminal_record env good a.op_record

    ends : outcome next ≡ Outcome.retired
    ends = outcome-ended a.op_record.state a.op_record.retirement good _ _ o

conclude_row-IsSafe :
    (env : Env) (good published : Bool) (a : Actor)
    → IsTraced a
    → IsRetiring a
    → IsSafe (conclude_row env good (unwind_row env published a))
conclude_row-IsSafe env good false a t r = conclude_with-IsSafe env _ a t r
conclude_row-IsSafe env good true a t r =
    conclude_with-IsSafe env _ _ (emit-IsTraced unwind_publication a (viewed a r) t) r

kill_staying-kept :
    (env : Env) (id : Option ProcessId) (a : Actor)
    → IsTraced a
    → IsRetiring a
    → IsTraced (kill_staying env id a) × IsRetiring (kill_staying env id a)
kill_staying-kept env none a t r = (t, r)
kill_staying-kept env (some id) a t r =
    if_intro (λ b. IsTraced b × IsRetiring b) (env.child_stays id)
      (λ e. (emit-IsTraced kill_child a (viewed a r) t, r)) (λ e. (t, r))

conclude_child-IsSafe :
    (env : Env) (child : Option ChildRecord) (a : Actor)
    → IsTraced a
    → IsRetiring a
    → IsSafe (conclude_child env (end_child env child a))
conclude_child-IsSafe env none a t r =
    conclude_row-IsSafe env (end_child env none a).1 a.published _
      (emit-IsTraced release_creation_lock a tt t) r
conclude_child-IsSafe env (some c) a t r =
    let k = kill_staying-kept env c.id _ (emit-IsTraced shut_gate a (viewed a r) t) r in
    conclude_row-IsSafe env (end_child env (some c) a).1 _ _
      (emit-IsTraced release_creation_lock _ tt k.0) k.1

pub complete_retirement-IsSafe :
    (env : Env) (a : Actor) → IsSafe a → IsRetiring a → IsSafe (complete_retirement env a)
unfolding complete_retirement
complete_retirement-IsSafe env a h r =
    if_intro IsSafe (not a.retiring || is_done a.stage) (λ e. h)
      (λ e. conclude_child-IsSafe env a.child a h.traced r)

-- A retiring actor of a late stage is live.
retiring-IsLive :
    (s : Stage) (a b : Actor)
    → IsLate s
    → IsLive s a
    → IsRetiring b
    → b.retiring ≡ true
    → IsQuiet b.pending
    → b.op_record.phase ≡ a.op_record.phase
    → IsLive s b
retiring-IsLive starting a b l h (s, o) r q e = record {
  synced = s;
  after = inl (r, o, q);
  early = subst (IsEarly starting) (sym e) h.early;
  calm = q;
}
retiring-IsLive held a b l h (s, o) r q e = record {
  synced = s;
  after = inl (r, o, q);
  early = tt;
  calm = q;
}
retiring-IsLive ready a b l h (s, o) r q e = record {
  synced = s;
  after = inl (r, o, q);
  early = tt;
  calm = tt;
}
retiring-IsLive deciding a b l h r e q k = absurd l
retiring-IsLive done a b l h r e q k = tt

complete_if_idle-IsSafe :
    (env : Env) (a : Actor) → IsSafe a → IsRetiring a → IsSafe (complete_if_idle env a)
complete_if_idle-IsSafe env a h r =
    if_intro IsSafe (committed_in_flight a) (λ e. h) (λ e. complete_retirement-IsSafe env a h r)

told-IsSafe :
    (env : Env) (cause : Option Cause) (id : Bytes) (a : Actor)
    → IsTraced a
    → IsRetiring a
    → IsLive a.stage (record a { retiring = true })
    → IsSafe (complete_if_idle env (record (tell_cause env cause id a) { retiring = true }))
told-IsSafe env none id a t r live =
    complete_if_idle-IsSafe env (record a { retiring = true })
      (record { traced = record { justified = t.justified; path = t.path }; live = live }) r
told-IsSafe env (some cause) id a t (s, o) live =
    complete_if_idle-IsSafe env _
      (record {
        traced = record {
          justified = ((s, inr (inr (inl o))), t.justified);
          path = (here, t.path);
        };
        live = emit-IsLive a.stage _ (record a { retiring = true }) live;
      })
      (s, o)

request_retirement-IsSafe :
    (env : Env) (cause : Option Cause) (id : Bytes) (old a : Actor)
    → IsTraced a
    → IsSynced a
    → outcome a.op_record ≡ launched
    → IsLate a.stage
    → IsLive a.stage old
    → IsQuiet a.pending
    → a.op_record.phase ≡ old.op_record.phase
    → IsSafe (request_retirement env cause id a)
request_retirement-IsSafe env cause id old a t s o late live q e =
    write-IsSafe env next a t s (along o asked request) _ _ Label.retirement_requested
      (λ c w.
        told-IsSafe env cause id (saved env.now next a) w (refl, asked)
          (retiring-IsLive a.stage old _ late live (refl, asked) refl q e))
      (λ d w v. abandon-IsSafe _ w)
  where
    next : OperationRecord
    next = retiring_record id (codes "{}") requested a.op_record

    asked : outcome next ≡ retiring
    asked = outcome-requested a.op_record.state a.op_record.retirement _ _ o

refused-justified :
    (p : Option Pending) (d : Option Bytes) (a : Actor)
    → IsTraced a
    → IsTraced (record a {
      pending = none;
      deferred_transfer = none;
      tickets = revoke_all a.tickets;
      log = refuse_deferred d a (refuse_commit p a a.log);
    })
refused-justified p d a t = record { justified = (both p d).0; path = (both p d).1 }
  where
    Good : List (Effect × Disk) → Type 0
    Good log = All (λ e. IsJustified e.0 e.1) log × IsChain (view a.disk) log

    first : (p : Option Pending) → Good (refuse_commit p a a.log)
    first none = (t.justified, t.path)
    first (some decide) = (t.justified, t.path)
    first (some (transfer_commit id)) = ((tt, t.justified), (here, t.path))
    first (some transfer_release) = (t.justified, t.path)
    first (some (transfer_ack sent)) = (t.justified, t.path)

    both :
        (p : Option Pending) (d : Option Bytes)
        → Good (refuse_deferred d a (refuse_commit p a a.log))
    both p none = first p
    both p (some id) = ((tt, (first p).0), (here, (first p).1))

-- What every late stage has.
pub late-IsAfter :
    (s : Stage) (a : Actor) → IsLate s → IsLive s a → IsSynced a × IsAfter s a × IsCalm s a.pending
late-IsAfter starting a l h = (h.synced, h.after, h.calm)
late-IsAfter held a l h = (h.synced, h.after, h.calm)
late-IsAfter ready a l h = (h.synced, h.after, h.calm)
late-IsAfter deciding a l h = absurd l
late-IsAfter done a l h = absurd l

pub retire-IsSafe :
    (env : Env) (cause : Option Cause) (id : Bytes) (a : Actor)
    → IsSafe a
    → IsLate a.stage
    → IsSafe (retire env cause id a)
unfolding retire
retire-IsSafe env cause id a h late =
    if_intro IsSafe (a.retiring || is_done a.stage || is_transferred a) (λ e. h)
      (λ e. by_case e ((late-IsAfter a.stage a late h.live).1))
  where
    by_case :
        (a.retiring || is_done a.stage || is_transferred a) ≡ false
        → IsAfter a.stage a
        → IsSafe (request_retirement env cause id (without_transfer a))
    by_case e (inl (r, o, q)) = absurd (ground (arith, r, e))
    by_case e (inr (inl (r, o, u))) =
        request_retirement-IsSafe env cause id a (without_transfer a)
          (refused-justified a.pending a.deferred_transfer a h.traced)
          (late-IsAfter a.stage a late h.live).0 o late h.live tt refl
    by_case e (inr (inr (r, o, y))) =
        absurd (ground (arith, e, outcome-transferred a.op_record.state a.op_record.retirement o))
