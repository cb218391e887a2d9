-- ===== src/Actor/Transfers.antt =====
-- The transfer of crates/pty/src/daemon/operation.rs: `start_transfer`, `commit_transfer`,
-- `release_transfer` and `finish_transfer`.
use pty.Base.{Bool, false, ◌||◌, Option, none, some, if◌then◌else◌, Bytes}
use pty.Operation.Record.{OperationRecord, State, Transfer, no_writer}
use pty.Actor.{
  Actor, Env, done, transfer_commit, transfer_release, transfer_ack, ChildRecord, FrameKind,
  not_held, Label, transfer_before_commit, transfer_committed_before_release, released_before_ack,
  operation_transferred, emit, send_frame, reject, write, branch, abandon, hold, message, close,
  release_gate, mark_transferred,
}
use pty.Actor.Handlers.{is_done}

abbrev set_released : Bool → Option Transfer → Option Transfer
set_released released none = none
set_released released (some t) = some (record t { released = some released })

abbrev pub released_record : Bool → OperationRecord → OperationRecord
released_record released r = record r {
  writer = no_writer;
  transfer = set_released released r.transfer;
}

-- Whether the second write lands or not, the frame tells the record as it stands.
abbrev pub close_transfer : Actor → Actor
close_transfer a = record (emit close (send_frame (FrameKind.transferred a.op_record.transfer) a)) {
  locked = false;
  stage = done;
}

unfoldable pub finish_transfer : Env → Bool → Actor → Actor
finish_transfer env released a =
    let b = emit mark_transferred a in
    branch (write env (released_record released b.op_record) Label.transfer_released b)
      close_transfer close_transfer

abbrev pub take_child : Env → Option ChildRecord → Actor → Actor × Bool
take_child env none a = (a, false)
take_child env (some c) a = (emit release_gate (record a { child = none }), env.gate_released)

abbrev pub acknowledge : Env → Actor × Bool → Actor
acknowledge env (a, released) =
    hold env released_before_ack (transfer_ack released) a (finish_transfer env released)

unfoldable pub release_transfer : Env → Actor → Actor
release_transfer env a = acknowledge env (take_child env a.child a)

abbrev pub committed_record : Bytes → Bytes → OperationRecord → OperationRecord
committed_record now request_id r = record r {
  state = State.transferred;
  transfer = some (record { request_id = request_id; committed_at = now; released = none });
}

abbrev pub commit_now : Env → Bytes → Actor → Actor
commit_now env request_id a =
    branch (write env (committed_record env.now request_id a.op_record) Label.transfer_commit a)
      (λ b.
        hold env transfer_committed_before_release transfer_release
          (emit (message operation_transferred) b) (release_transfer env))
      (λ b. abandon (reject not_held (some request_id) b))

unfoldable pub commit_transfer : Env → Bytes → Actor → Actor
commit_transfer env request_id a =
    if a.retiring || is_done a.stage
    then reject not_held (some request_id) a
    else commit_now env request_id a

unfoldable pub start_transfer : Env → Bytes → Actor → Actor
start_transfer env request_id a =
    hold env transfer_before_commit (transfer_commit request_id) a (commit_transfer env request_id)
