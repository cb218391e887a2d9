-- ===== src/Actor/Safe/Hands.antt =====
-- A transfer by the operation actor keeps it safe.
use pty.Base.{
  arith, ◌≡◌, ◌⊎◌, refl, inl, inr, Bool, false, ◌||◌, Option, none, some, if_intro, Bytes, ap, ◌∙◌,
}
use pty.Operation.Record.{OperationRecord}
use pty.Operation.Store.{Disk}
use pty.Actor.{
  Actor, Env, Label, transfer_commit, ChildRecord, Stage, deciding, starting, held, ready, done,
  emit, mark_transferred, message, operation_transferred, transfer_before_commit, frame, not_held,
  command_rejected, transfer_committed_before_release, released_before_ack,
}
use pty.Actor.Outcome.{here, transferred, hand_over, Follows, outcome, view, along}
use pty.Actor.Safe.{
  IsTraced, IsSafe, IsLive, IsSynced, IsReady, IsLate, IsAfter, write-IsSafe, abandon-IsSafe, saved,
  emit-IsTraced, emit-IsSafe,
}
use pty.Actor.Handlers.{is_done}
use pty.Actor.Safe.Retires.{late-IsAfter}
use pty.Actor.Transfers.{
  released_record, close_transfer, finish_transfer, take_child, acknowledge, release_transfer,
  committed_record, commit_now, commit_transfer, start_transfer,
}

-- The transfer is committed on the disk.
pub record IsHanded (a : Actor) : Type 0 where
  pub synced : IsSynced a
  pub handed : outcome a.op_record ≡ transferred
  pub steady : a.retiring ≡ false
  pub at_ready : IsReady a.stage

handed-IsLive :
    (s : Stage) (a : Actor)
    → IsReady s
    → IsSynced a
    → outcome a.op_record ≡ transferred
    → a.retiring ≡ false
    → IsLive s a
handed-IsLive ready a y s o r = record {
  synced = s;
  after = inr (inr (r, o, tt));
  early = tt;
  calm = tt;
}
handed-IsLive starting a y s o r = absurd y
handed-IsLive held a y s o r = absurd y
handed-IsLive deciding a y s o r = absurd y
handed-IsLive done a y s o r = absurd y

close_transfer-IsSafe :
    (a : Actor) → IsTraced a → view a.disk ≡ transferred → IsSafe (close_transfer a)
close_transfer-IsSafe a t v = record {
  traced = record { justified = (tt, (v, t.justified)); path = (here, (here, t.path)) };
  live = tt;
}

seen : (a : Actor) → IsSynced a → outcome a.op_record ≡ transferred → view a.disk ≡ transferred
seen a s o = ap view s ∙ o

pub finish_transfer-IsSafe :
    (env : Env) (sent : Bool) (a : Actor)
    → IsTraced a
    → IsSynced a
    → outcome a.op_record ≡ transferred
    → IsSafe (finish_transfer env sent a)
unfolding finish_transfer
finish_transfer-IsSafe env sent a t s o =
    write-IsSafe env (released_record sent a.op_record) (emit mark_transferred a)
      (emit-IsTraced mark_transferred a (seen a s o) t) s (inl refl) _ _ Label.transfer_released
      (λ c w. close_transfer-IsSafe _ w o) (λ d w v. close_transfer-IsSafe _ w (still d v))
  where
    still :
        (d : Disk)
        → (d ≡ a.disk) ⊎ (view d ≡ outcome (released_record sent a.op_record))
        → view d ≡ transferred
    still d (inl e) = ap view e ∙ seen a s o
    still d (inr e) = e ∙ o

acknowledge-IsSafe :
    (env : Env) (child : Option ChildRecord) (a : Actor)
    → IsTraced a
    → IsHanded a
    → IsSafe (acknowledge env (take_child env child a))
acknowledge-IsSafe env none a t h =
    if_intro IsSafe (env.armed released_before_ack)
      (λ e. record {
        traced = record { justified = t.justified; path = t.path };
        live = handed-IsLive a.stage _ h.at_ready h.synced h.handed h.steady;
      })
      (λ e. finish_transfer-IsSafe env false a t h.synced h.handed)
acknowledge-IsSafe env (some c) a t h =
    if_intro IsSafe (env.armed released_before_ack)
      (λ e. record {
        traced = record {
          justified = (seen a h.synced h.handed, t.justified);
          path = (here, t.path);
        };
        live = handed-IsLive a.stage _ h.at_ready h.synced h.handed h.steady;
      })
      (λ e.
        finish_transfer-IsSafe env env.gate_released _
          (record { justified = (seen a h.synced h.handed, t.justified); path = (here, t.path) })
          h.synced h.handed)

pub release_transfer-IsSafe :
    (env : Env) (a : Actor) → IsTraced a → IsHanded a → IsSafe (release_transfer env a)
unfolding release_transfer
release_transfer-IsSafe env a t h = acknowledge-IsSafe env a.child a t h

commit_now-IsSafe :
    (env : Env) (id : Bytes) (a : Actor)
    → IsTraced a
    → IsSynced a
    → Follows (outcome a.op_record) transferred
    → a.retiring ≡ false
    → IsReady a.stage
    → IsSafe (commit_now env id a)
commit_now-IsSafe env id a t s f r y =
    write-IsSafe env next a t s f _ _ Label.transfer_commit
      (λ c w.
        if_intro IsSafe (env.armed transfer_committed_before_release)
          (λ e. record {
            traced = record { justified = (refl, w.justified); path = (here, w.path) };
            live = handed-IsLive a.stage _ y refl refl r;
          })
          (λ e.
            release_transfer-IsSafe env
              (emit (message operation_transferred) (saved env.now next a))
              (record { justified = (refl, w.justified); path = (here, w.path) })
              (record { synced = refl; handed = refl; steady = r; at_ready = y })))
      (λ d w v. abandon-IsSafe _ (record { justified = (tt, w.justified); path = (here, w.path) }))
  where
    next : OperationRecord
    next = committed_record env.now id a.op_record

pub ready-IsLate : (s : Stage) → IsReady s → IsLate s
ready-IsLate ready y = tt
ready-IsLate starting y = absurd y
ready-IsLate held y = absurd y
ready-IsLate deciding y = absurd y
ready-IsLate done y = absurd y

ready-IsAfter : (a : Actor) → IsSafe a → IsReady a.stage → IsSynced a × IsAfter a.stage a
ready-IsAfter a h y =
    let (s, x, c) = late-IsAfter a.stage a (ready-IsLate a.stage y) h.live in (s, x)

pub commit_transfer-IsSafe :
    (env : Env) (id : Bytes) (a : Actor)
    → IsSafe a
    → IsReady a.stage
    → IsSafe (commit_transfer env id a)
unfolding commit_transfer
commit_transfer-IsSafe env id a h y =
    if_intro IsSafe (a.retiring || is_done a.stage)
      (λ e. emit-IsSafe (frame (command_rejected not_held (some id)) a.op_record) a tt h)
      (λ e. by_case e (ready-IsAfter a h y))
  where
    by_case :
        (a.retiring || is_done a.stage) ≡ false
        → IsSynced a × IsAfter a.stage a
        → IsSafe (commit_now env id a)
    by_case e (s, inl (r, o, q)) = absurd (ground (arith, r, e))
    by_case e (s, inr (inl (r, o, u))) =
        commit_now-IsSafe env id a h.traced s (along o refl hand_over) r y
    by_case e (s, inr (inr (r, o, z))) = commit_now-IsSafe env id a h.traced s (inl o) r y

parked-IsLive :
    (s : Stage) (id : Bytes) (a : Actor)
    → IsReady s
    → IsSynced a
    → a.retiring ≡ false
    → IsAfter s a
    → IsLive s (record a { pending = some (transfer_commit id) })
parked-IsLive ready id a y s r (inl (r', o, q)) = absurd (ground (arith, r, r'))
parked-IsLive ready id a y s r (inr (inl (r', o, u))) = record {
  synced = s;
  after = inr (inl (r, o, tt));
  early = tt;
  calm = tt;
}
parked-IsLive ready id a y s r (inr (inr (r', o, z))) = record {
  synced = s;
  after = inr (inr (r, o, tt));
  early = tt;
  calm = tt;
}
parked-IsLive starting id a y s r x = absurd y
parked-IsLive held id a y s r x = absurd y
parked-IsLive deciding id a y s r x = absurd y
parked-IsLive done id a y s r x = absurd y

pub start_transfer-IsSafe :
    (env : Env) (id : Bytes) (a : Actor)
    → IsSafe a
    → IsReady a.stage
    → a.retiring ≡ false
    → IsSafe (start_transfer env id a)
unfolding start_transfer
start_transfer-IsSafe env id a h y r =
    if_intro IsSafe (env.armed transfer_before_commit)
      (λ e. record {
        traced = record { justified = h.traced.justified; path = h.traced.path };
        live = parked-IsLive a.stage id a y (ready-IsAfter a h y).0 r (ready-IsAfter a h y).1;
      })
      (λ e. commit_transfer-IsSafe env id a h y)
