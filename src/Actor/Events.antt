-- ===== src/Actor/Events.antt =====
-- The event loop of the operation actor of crates/pty/src/daemon/operation.rs: `on_event`,
-- `on_released`, `on_owner`, `on_completed`, `on_ack` and `run`.
pub mod Owner
use pty.Base.{
  ℕ, Bool, true, false, not, ◌&&◌, ◌||◌, List, [], ◌∷◌, ◌++◌, Option, none, some, if◌then◌else◌,
  Bytes, codes, bytes_eq, Result, ok, err,
}
use pty.Operation.Liveness.{ProcessId}
use pty.Operation.Record.{
  OperationRecord, State, Phase, launched, pending, transferred, Cause, refused, Incarnation,
  Participants,
}
use pty.Actor.{
  Actor, Env, Effect, WorkerCmd, ready_point, Stage, deciding, starting, held, ready, done, Pending,
  decide, transfer_commit, transfer_release, transfer_ack, Ticket, TicketKind, publish, fork_child,
  TicketState, issued, revoked, ChildRecord, FrameKind, Label, Barrier, before_decision,
  transfer_before_commit, transfer_committed_before_release, released_before_ack, external_kill,
  emit, send_frame, write, branch, abandon, hold, issue, next_ticket, find_ticket, mark_ticket,
  committed_in_flight, message, worker, sync, reply, release_creation_lock,
}
use pty.Operation.Store.{stored}
use pty.Actor.Handlers.{is_done, cancel_before_launch, decide_launch, complete_retirement, retire}
use pty.Actor.Transfers.{commit_transfer, release_transfer, finish_transfer, start_transfer}
use pty.Actor.Events.Owner.{OwnerInput, on_owner, is_deciding, is_held}

pub data Completion : Type 0 where
  published : Completion
  forked : ℕ → Option ProcessId → Completion

pub data Ack : Type 0 where
  prepared lost : Ack
  failed : Bytes → Ack

pub data ActorEvent : Type 0 where
  owner : OwnerInput → ActorEvent
  synced child_exited shutdown ready_asked : ActorEvent
  commit : ℕ → ActorEvent
  completed : ℕ → Result Completion Bytes → ActorEvent
  child_ack : Ack → ActorEvent
  released : Barrier → ActorEvent

abbrev pub begin_sync : Actor → Actor
begin_sync a = emit sync (record a { syncing = true })

abbrev pub set_phase : Phase → OperationRecord → OperationRecord
set_phase phase r = record r { phase = phase }

abbrev pub resume : Env → Actor → Actor
resume env a = if a.retiring && not (committed_in_flight a) then complete_retirement env a else a

abbrev pub fork_next : Env → Actor → Actor
fork_next env a =
    branch
      (write env (set_phase Phase.child_forking a.op_record) Label.child_forking
        (issue fork_child a))
      (λ b. resume env (emit (worker (WorkerCmd.fork_child (next_ticket a))) b)) abandon

abbrev child_of : ProcessId → Option Incarnation → Option Incarnation
child_of id none = none
child_of id (some i) = some (record i { child = some id })

abbrev pub preparing_record : ProcessId → OperationRecord → OperationRecord
preparing_record id r = record r {
  phase = Phase.child_preparing;
  participants = record r.participants { child = some id };
  incarnation = child_of id r.incarnation;
}

abbrev pub child_known : Env → Option ProcessId → Actor → Actor
child_known env none a = retire env none (codes "producer:child-exited") a
child_known env (some id) a =
    branch (write env (preparing_record id a.op_record) Label.child_preparing a) (resume env)
      abandon

abbrev pub outcome : Env → TicketKind → Result Completion Bytes → Actor → Actor
outcome env publish (ok c) a =
    let b = emit release_creation_lock a in if b.retiring then resume env b else fork_next env b
outcome env fork_child (ok (forked pid id)) a =
    let b = record a { child = some (record { id = id; pid = pid }) } in
    if b.retiring then resume env b else child_known env id b
outcome env fork_child (ok published) a = resume env a
outcome env kind (err text) a =
    resume env (if a.retiring then a else retire env none (codes "producer:startup-failed") a)

abbrev pub on_ticket : Env → Option Ticket → Result Completion Bytes → Actor → Actor
on_ticket env none result a = a
on_ticket env (some t) result a =
    outcome env t.kind result
      (record a { tickets = mark_ticket t.id TicketState.completed a.tickets })

unfoldable pub on_completed : Env → ℕ → Result Completion Bytes → Actor → Actor
on_completed env id result a = on_ticket env (find_ticket id a.tickets) result a

abbrev pub is_starting : Stage → Bool
is_starting starting = true
is_starting _ = false

abbrev pub on_starting_ack : Env → Ack → Actor → Actor
on_starting_ack env prepared a =
    branch (write env (set_phase Phase.held a.op_record) Label.held a)
      (λ b. emit (worker ready_point) (send_frame FrameKind.held (record b { stage = held })))
      abandon
on_starting_ack env (failed step) a = retire env none (codes "producer:prepare-" ++ step) a
on_starting_ack env lost a = retire env none (codes "producer:child-lost") a

unfoldable pub on_ack : Env → Ack → Actor → Actor
on_ack env ack a = if a.retiring || not (is_starting a.stage) then a else on_starting_ack env ack a

abbrev is_publish : TicketKind → Bool
is_publish publish = true
is_publish fork_child = false

abbrev is_issued : TicketState → Bool
is_issued issued = true
is_issued _ = false

-- The worker asks whether it may act on its ticket.
abbrev pub commit_ticket : Option Ticket → Actor → Actor
commit_ticket none a = emit (reply false) a
commit_ticket (some t) a =
    if is_issued t.state
    then if a.retiring
      then emit (reply false) (record a { tickets = mark_ticket t.id revoked a.tickets })
      else emit (reply true) (record a {
        tickets = mark_ticket t.id TicketState.committed a.tickets;
        published = is_publish t.kind || a.published;
      })
    else emit (reply false) a

abbrev pub start_deferred : Env → Option Bytes → Actor → Actor
start_deferred env none a = a
start_deferred env (some request_id) a =
    start_transfer env request_id (record a { deferred_transfer = none })

unfoldable pub on_ready_asked : Env → Actor → Actor
on_ready_asked env a =
    if is_held a.stage && not a.retiring
    then start_deferred env a.deferred_transfer (
        emit (reply true) (send_frame FrameKind.ready (record a { stage = ready; serving = true })))
    else emit (reply false) a

unfoldable pub on_shutdown : Env → State → Actor → Actor
on_shutdown env launched a = retire env none (codes "producer:terminated") a
on_shutdown env pending a =
    if is_deciding a.stage
    then cancel_before_launch env refused none (some (codes "producer:terminated")) a
    else a
on_shutdown env transferred a = emit (message external_kill) a
on_shutdown env _ a = a

abbrev pub on_child_exited : Env → State → Actor → Actor
on_child_exited env launched a = retire env none (codes "producer:child-exited") a
on_child_exited env _ a = a

-- A barrier that does not fit the parked step leaves it parked.
abbrev pub on_parked : Env → Barrier → Option Pending → Actor → Actor
on_parked env before_decision (some decide) a =
    if is_deciding a.stage then begin_sync (record a { pending = none }) else a
on_parked env transfer_before_commit (some (transfer_commit request_id)) a =
    commit_transfer env request_id (record a { pending = none })
on_parked env transfer_committed_before_release (some transfer_release) a =
    release_transfer env (record a { pending = none })
on_parked env released_before_ack (some (transfer_ack gone_out)) a =
    finish_transfer env gone_out (record a { pending = none })
on_parked env _ _ a = a

unfoldable pub on_event : Env → ActorEvent → Actor → Actor
on_event env synced a =
    if is_deciding a.stage && a.syncing then decide_launch env (record a { syncing = false }) else a
on_event env (released barrier) a = on_parked env barrier a.pending a
on_event env (commit ticket) a = commit_ticket (find_ticket ticket a.tickets) a
on_event env (completed ticket result) a = on_completed env ticket result a
on_event env (child_ack ack) a = on_ack env ack a
on_event env ready_asked a = on_ready_asked env a
on_event env child_exited a = on_child_exited env a.op_record.state a
on_event env shutdown a = on_shutdown env a.op_record.state a
on_event env (owner input) a = on_owner env input a

-- The loop of `run` ends when the actor is done, or with the events.
abbrev pub run_events : List (Env × ActorEvent) → Actor → Actor
run_events [] a = a
run_events ((env, event) ∷ events) a =
    run_events events (if is_done a.stage then a else on_event env event a)

-- The actor that `main` starts on the record it has read, with the operation's lock.
unfoldable pub new_actor : OperationRecord → ProcessId → Option Bytes → Bytes → Actor
new_actor r me expected runtime_id = record {
  disk = some (stored r);
  locked = true;
  op_record = r;
  me = me;
  expected = expected;
  runtime_id = runtime_id;
  tickets = [];
  stage = deciding;
  retiring = false;
  serving = false;
  published = false;
  child = none;
  generation = [];
  pending = none;
  deferred_transfer = none;
  syncing = false;
  log = [];
}

unfoldable pub run : Env → List (Env × ActorEvent) → Actor → Actor
run env events a =
    run_events events (hold env before_decision decide (send_frame FrameKind.accepted a) begin_sync)
