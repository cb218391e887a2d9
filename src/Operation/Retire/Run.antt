-- ===== src/Operation/Retire/Run.antt =====
-- The body of `retire` of crates/pty-core/src/operation/settle.rs.
use pty.Base.{
  Bool, true, false, not, ◌&&◌, ◌||◌, List, [], ◌∷◌, Option, none, some, if◌then◌else◌, Bytes,
  codes, bytes_eq, Result, ok, err,
}
use pty.Operation.Liveness.{ProcessId, Liveness, gone}
use pty.Operation.Record.{
  OperationRecord, State, reserved, pending, launched, withdrawn, producer_lost, Incarnation,
}
use pty.Operation.Store.{Disk, WriteError, read_file, write_cas_as, ReadError}
use pty.Operation.Settle.{child_of, in_transferred}
use pty.Operation.Retire.{
  Code, record_missing, lock_unavailable, live_writer, record_unreadable, record_mismatch,
  wrong_envelope, identity_unavailable, record_write, taken, busy, absent, broken, LockTry, Machine,
  Effect, signalled, unwound, Retired, refuse, snapshot_after, kill_recorded, incarnation_refusal,
  is_answered, actor_refusal, requested_record, ended_record, cancelled_by,
}

-- The effects of a retirement, and whether all of them are verified.
pub record Effects : Type 0 where
  pub log : List (Effect × Disk)
  pub verified : Bool

abbrev is_gone : Liveness → Bool
is_gone gone = true
is_gone _ = false

abbrev pub killed : Disk → ProcessId → Liveness × Bool → Effects
killed disk id (l, sent) = record {
  log = if sent then (signalled id, disk) ∷ [] else [];
  verified = is_gone l;
}

abbrev pub or_child : Option ProcessId → Option ProcessId → Option ProcessId
or_child none c = c
or_child (some id) c = some id

abbrev pub recorded_child : OperationRecord → Option ProcessId
recorded_child r = or_child (child_of r.incarnation) r.participants.child

abbrev pub end_child : Machine → Disk → Option ProcessId → Effects
end_child m disk none = record { log = []; verified = true }
end_child m disk (some id) = killed disk id (kill_recorded m id)

abbrev row_is_clear : Bytes → Bool
row_is_clear row =
    bytes_eq row (codes "removed")
    || bytes_eq row (codes "absent")
    || bytes_eq row (codes "other-generation")

-- Without an incarnation there is no row.
abbrev pub unwind_row : Machine → Disk → Option Incarnation → Effects → Effects
unwind_row m disk none e = e
unwind_row m disk (some i) e = record {
  log = (unwound, disk) ∷ e.log;
  verified = e.verified && row_is_clear m.row;
}

abbrev pub terminal_answer :
    List (Effect × Disk) → Disk × Result OperationRecord WriteError → Retired
terminal_answer log (disk, ok w) = record { disk = disk; log = log; answer = ok tt }
terminal_answer log (disk, err e) = record { disk = disk; log = log; answer = err record_write }

abbrev pub write_terminal :
    Machine → OperationRecord → OperationRecord → Disk → List (Effect × Disk) → Retired
write_terminal m asked terminal disk log =
    terminal_answer log (write_cas_as m.terminal_landing m.now asked terminal disk)

abbrev pub launched_end : Machine → Bytes → OperationRecord → Disk → Retired
launched_end m request_id asked disk =
    let e = unwind_row m disk asked.incarnation (end_child m disk (recorded_child asked)) in
    write_terminal m asked (ended_record m.evidence request_id e.verified asked) disk e.log

-- A cancelled and a transferred record do not come this far.
abbrev pub finish : Machine → Bytes → OperationRecord → Disk → State → Retired
finish m request_id asked disk reserved =
    write_terminal m asked (cancelled_by m request_id withdrawn asked) disk []
finish m request_id asked disk pending =
    write_terminal m asked (cancelled_by m request_id producer_lost asked) disk []
finish m request_id asked disk launched = launched_end m request_id asked disk
finish m request_id asked disk _ = snapshot_after disk

abbrev pub on_requested : Machine → Bytes → Disk × Result OperationRecord WriteError → Retired
on_requested m request_id (disk, err e) = refuse disk record_write
on_requested m request_id (disk, ok asked) = finish m request_id asked disk asked.state

abbrev pub take_authority : Machine → Bytes → OperationRecord → Disk → Option ProcessId → Retired
take_authority m request_id r disk none = refuse disk identity_unavailable
take_authority m request_id r disk (some me) =
    on_requested m request_id
      (write_cas_as m.request_landing m.now r (requested_record me request_id r) disk)

abbrev pub unless_refused : Option Code → Disk → Retired → Retired
unless_refused none disk x = x
unless_refused (some code) disk x = refuse disk code

abbrev pub with_record :
    Machine → Bytes → Bytes → Bytes → Option Bytes → Disk → OperationRecord → Retired
with_record m operation_id sha256 request_id incarnation disk r =
    if not (bytes_eq r.operation_id operation_id)
    then refuse disk record_mismatch
    else if not (bytes_eq r.envelope_sha256 sha256)
    then refuse disk wrong_envelope
    else if in_transferred r.state
    then refuse disk Code.transferred
    else unless_refused (incarnation_refusal r r.state incarnation) disk (
        if is_answered request_id r.state r.retirement
        then snapshot_after disk
        else unless_refused (actor_refusal m r) disk (take_authority m request_id r disk m.me))

abbrev pub on_read :
    Machine
    → Bytes
    → Bytes
    → Bytes
    → Option Bytes
    → Disk
    → Result (Option OperationRecord) ReadError
    → Retired
on_read m operation_id sha256 request_id incarnation disk (err e) = refuse disk record_unreadable
on_read m operation_id sha256 request_id incarnation disk (ok none) = refuse disk record_missing
on_read m operation_id sha256 request_id incarnation disk (ok (some r)) =
    with_record m operation_id sha256 request_id incarnation disk r

abbrev pub on_lock : Machine → Bytes → Bytes → Bytes → Option Bytes → Disk → LockTry → Retired
on_lock m operation_id sha256 request_id incarnation disk busy = refuse disk live_writer
on_lock m operation_id sha256 request_id incarnation disk absent = refuse disk record_missing
on_lock m operation_id sha256 request_id incarnation disk broken = refuse disk lock_unavailable
on_lock m operation_id sha256 request_id incarnation disk taken =
    on_read m operation_id sha256 request_id incarnation disk (read_file disk)

unfoldable pub retire : Machine → Bytes → Bytes → Bytes → Option Bytes → Disk → Retired
retire m operation_id sha256 request_id incarnation disk =
    on_lock m operation_id sha256 request_id incarnation disk m.lock
