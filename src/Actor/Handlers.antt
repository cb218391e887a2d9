-- ===== src/Actor/Handlers.antt =====
-- What the operation actor of crates/pty/src/daemon/operation.rs does at a decision, a retirement
-- and a transfer: `decide`, `cancel_before_launch`, `retire`, `complete_retirement`,
-- `commit_transfer`, `release_transfer` and `finish_transfer`.
use pty.Base.{
  Bool, true, false, not, ◌&&◌, ◌||◌, List, [], ◌∷◌, ◌++◌, Option, none, some, if◌then◌else◌, Bytes,
  codes, decimal, bytes_eq, Result, ok, err,
}
use pty.Operation.Record.{
  OperationRecord, State, Cause, refused, cancel, launch, Retirement, RetirementPhase, requested,
  verified, incomplete, no_writer,
}
use pty.Operation.Liveness.{ProcessId}
use pty.Operation.Occupancy.{occupancy_rule}
use pty.Operation.Store.{Disk}
use pty.Actor.{
  Effect, frame, command_rejected, not_held, transfer_commit, Actor, Env, WorkerCmd, Stage,
  starting, done, Pending, transfer_commit, Ticket, TicketKind, issued, revoked, ChildRecord,
  FrameKind, not_held, Label, emit, send_frame, write, branch, finish, abandon, issue, next_ticket,
  committed_in_flight, is_transferred, worker, release_creation_lock, shut_gate, kill_child,
  unwind_publication,
}

abbrev pub is_done : Stage → Bool
is_done done = true
is_done _ = false

abbrev pub cancelled_record :
    Bytes → Cause → Option Bytes → Option Bytes → OperationRecord → OperationRecord
cancelled_record now cause request_id observed r = record r {
  state = State.cancelled;
  writer = no_writer;
  decision =
      some (record { cause = cause; at = now; request_id = request_id; observed = observed });
}

unfoldable pub cancel_before_launch : Env → Cause → Option Bytes → Option Bytes → Actor → Actor
cancel_before_launch env cause request_id observed a =
    branch
      (write env (cancelled_record env.now cause request_id observed a.op_record) Label.decision a)
      (λ b.
        finish 3
          (emit release_creation_lock (send_frame (FrameKind.decision b.op_record.decision) b)))
      abandon

abbrev pub launched_record : Env → Option Bytes → Actor → OperationRecord
launched_record env predecessor a = record a.op_record {
  state = State.launched;
  decision =
      some (record { cause = launch; at = env.now; request_id = none; observed = predecessor });
  incarnation = some (record {
    id = decimal a.me.pid ++ b':' ∷ env.now;
    runtime_id = a.runtime_id;
    generation = env.new_generation;
    daemon = a.me;
    child = none;
  });
}

abbrev pub launch_with : Env → Option Bytes → Actor → Actor
launch_with env predecessor a =
    branch
      (write env (launched_record env predecessor a) Label.decision (issue TicketKind.publish a))
      (λ b.
        emit (worker (WorkerCmd.publish (next_ticket a) env.new_generation env.now predecessor)) (
          send_frame (FrameKind.decision b.op_record.decision)
            (record b { generation = env.new_generation; stage = starting })))
      abandon

abbrev pub decided : Env → Actor → Result (Option Bytes) (Cause × Bytes) → Actor
decided env a (ok predecessor) = launch_with env predecessor a
decided env a (err (cause, observed)) = cancel_before_launch env cause none (some observed) a

unfoldable pub decide_launch : Env → Actor → Actor
decide_launch env a =
    if env.holds_creation_lock
    then decided env a (occupancy_rule env.occupancy a.expected)
    else cancel_before_launch env refused none (some (codes "creation-lock-not-delegated")) a

abbrev pub retiring_record : Bytes → Bytes → RetirementPhase → OperationRecord → OperationRecord
retiring_record request_id evidence phase r = record r {
  retirement = some (record { request_id = request_id; phase = phase; evidence = evidence });
}

abbrev pub request_id_of : Option Retirement → Bytes
request_id_of none = []
request_id_of (some t) = t.request_id

abbrev pub terminal_record : Env → Bool → OperationRecord → OperationRecord
terminal_record env good r =
    record (retiring_record (request_id_of r.retirement) env.evidence
      (if good then verified else incomplete) r) { writer = no_writer }

-- A child that stays, although its end was waited for, is killed.
abbrev pub kill_staying : Env → Option ProcessId → Actor → Actor
kill_staying env none a = a
kill_staying env (some id) a = if env.child_stays id then emit kill_child a else a

-- The child's gate is shut, and the outcome is that behind a kill.
abbrev pub end_child : Env → Option ChildRecord → Actor → Actor × Bool
end_child env none a = (a, true)
end_child env (some c) a = (
  kill_staying env c.id (emit shut_gate a),
  elim c.id [ none ↦ false | some id ↦ bytes_eq (env.child_outcome id) (codes "gone") ],
)

abbrev row_is_clear : Bytes → Bool
row_is_clear row =
    bytes_eq row (codes "removed")
    || bytes_eq row (codes "absent")
    || bytes_eq row (codes "other-generation")

abbrev pub unwind_row : Env → Bool → Actor → Actor × Bool
unwind_row env false a = (a, true)
unwind_row env true a = (emit unwind_publication a, row_is_clear env.row_outcome)

abbrev pub conclude : Env → Bool → Actor → Actor
conclude env good a =
    branch (write env (terminal_record env good a.op_record) Label.retirement_terminal a)
      (λ b. finish 0 (send_frame (FrameKind.retirement b.op_record.retirement) b)) abandon

abbrev pub conclude_row : Env → Bool → Actor × Bool → Actor
conclude_row env good (a, clear) = conclude env (good && clear) a

abbrev pub conclude_child : Env → Actor × Bool → Actor
conclude_child env (a, good) =
    let b = emit release_creation_lock a in conclude_row env good (unwind_row env b.published b)

unfoldable pub complete_retirement : Env → Actor → Actor
complete_retirement env a =
    if not a.retiring || is_done a.stage then a else conclude_child env (end_child env a.child a)

-- A transfer that has not committed is refused.
abbrev pub refused_entry : Bytes → Actor → Effect × Disk
refused_entry request_id a =
    (frame (command_rejected not_held (some request_id)) a.op_record, a.disk)

abbrev pub refuse_commit : Option Pending → Actor → List (Effect × Disk) → List (Effect × Disk)
refuse_commit (some (transfer_commit request_id)) a log = refused_entry request_id a ∷ log
refuse_commit _ a log = log

abbrev pub refuse_deferred : Option Bytes → Actor → List (Effect × Disk) → List (Effect × Disk)
refuse_deferred none a log = log
refuse_deferred (some request_id) a log = refused_entry request_id a ∷ log

abbrev pub revoke_issued : Ticket → Ticket
revoke_issued t = elim t.state [ issued ↦ record t { state = revoked } | _ ↦ t ]

abbrev pub revoke_all : List Ticket → List Ticket
revoke_all [] = []
revoke_all (t ∷ ts) = revoke_issued t ∷ revoke_all ts

-- Only a cancel carries the request's number.
abbrev pub cause_request : Cause → Bytes → Option Bytes
cause_request cancel request_id = some request_id
cause_request _ request_id = none

abbrev pub tell_cause : Env → Option Cause → Bytes → Actor → Actor
tell_cause env none request_id a = a
tell_cause env (some cause) request_id a =
    send_frame
      (FrameKind.decision (
        some (record {
          cause = cause;
          at = env.now;
          request_id = cause_request cause request_id;
          observed = none;
        })))
      a

abbrev pub complete_if_idle : Env → Actor → Actor
complete_if_idle env a = if committed_in_flight a then a else complete_retirement env a

abbrev pub request_retirement : Env → Option Cause → Bytes → Actor → Actor
request_retirement env cause request_id a =
    branch
      (write env (retiring_record request_id (codes "{}") requested a.op_record)
        Label.retirement_requested a)
      (λ b. complete_if_idle env (record (tell_cause env cause request_id b) { retiring = true }))
      abandon

-- `pending.take()`, `deferred_transfer.take()`, and the tickets that nobody committed.
abbrev pub without_transfer : Actor → Actor
without_transfer a = record a {
  pending = none;
  deferred_transfer = none;
  tickets = revoke_all a.tickets;
  log = refuse_deferred a.deferred_transfer a (refuse_commit a.pending a a.log);
}

unfoldable pub retire : Env → Option Cause → Bytes → Actor → Actor
retire env cause request_id a =
    if a.retiring || is_done a.stage || is_transferred a
    then a
    else request_retirement env cause request_id (without_transfer a)
