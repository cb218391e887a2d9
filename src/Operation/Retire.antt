-- ===== src/Operation/Retire.antt =====
-- `retire` and `kill_recorded` of crates/pty-core/src/operation/settle.rs. What the machine answers
-- is data; what is done to the world is a log, the newest entry first, in which each entry keeps
-- what was on the disk when it happened. The snapshot that follows is `settle`'s.
pub mod Run
pub mod Warranted
pub mod Ends
use pty.Base.{
  ℕ, Bool, true, false, not, ◌&&◌, ◌||◌, List, [], ◌∷◌, ◌++◌, Option, none, some, if◌then◌else◌,
  Bytes, codes, bytes_eq, Result, ok, err, is_some,
}
use pty.Process.Table.{ProcTable}
use pty.Operation.Liveness.{ProcessId, Liveness, live, gone, unknown_because, liveness, until_gone}
use pty.Operation.Record.{
  OperationRecord, State, reserved, pending, cancelled, launched, WriterRole, writer_of, no_writer,
  Decision, Cause, withdrawn, producer_lost, Incarnation, Retirement, RetirementPhase, requested,
  incomplete,
}
use pty.Operation.Store.{Disk, Landing, WriteError, read_file, write_cas_as, ReadError}
use pty.Operation.Settle.{daemon_of, child_of}

pub data Code : Type 0 where
  live_writer record_missing lock_unavailable record_unreadable record_mismatch : Code
  wrong_envelope transferred incarnation_required wrong_incarnation : Code
  live_participant participant_unknown identity_unavailable record_write : Code

pub data LockTry : Type 0 where
  taken busy absent broken : LockTry

pub data Pin : Type 0 where
  pinned vanished : Pin
  unpinnable : Bytes → Pin

pub record Machine : Type 0 where
  pub lock : LockTry
  pub boot : Option Bytes
  pub table : ProcTable
  pub me : Option ProcessId
  pub now : Bytes
  pub request_landing : Landing
  pub terminal_landing : Landing
  pub before_pin : ProcTable
  pub without_pin : ProcTable
  pub pin : Pin
  pub signal_error : Option Bytes
  pub exit_seen : Bool
  pub after_exit : ℕ → ProcTable
  pub polls : ℕ
  pub row : Bytes
  pub evidence : Bytes

pub data Effect : Type 0 where
  signalled : ProcessId → Effect
  unwound : Effect

pub record Retired : Type 0 where
  pub disk : Disk
  pub log : List (Effect × Disk)
  pub answer : Result Unit Code

abbrev pub refuse : Disk → Code → Retired
refuse disk code = record { disk = disk; log = []; answer = err code }

abbrev pub snapshot_after : Disk → Retired
snapshot_after disk = record { disk = disk; log = []; answer = ok tt }

-- The end of the signal, and whether one was sent.
abbrev pub after_signal : Machine → ProcessId → Option Bytes → Liveness
after_signal m id (some reason) = unknown_because reason
after_signal m id none = if m.exit_seen then until_gone id m.boot m.after_exit 0 m.polls else live

abbrev pub with_pin : Machine → ProcessId → Pin → Liveness × Bool
with_pin m id vanished = (liveness id m.without_pin m.boot, false)
with_pin m id (unpinnable reason) = (unknown_because reason, false)
with_pin m id pinned = (after_signal m id m.signal_error, true)

abbrev pub on_first : Machine → ProcessId → Liveness → Liveness × Bool
on_first m id live = with_pin m id m.pin
on_first m id _ = (liveness id m.without_pin m.boot, false)

unfoldable pub kill_recorded : Machine → ProcessId → Liveness × Bool
kill_recorded m id = on_first m id (liveness id m.before_pin m.boot)

abbrev id_text : Option Incarnation → Bytes
id_text none = []
id_text (some i) = i.id

abbrev pub launched_refusal : OperationRecord → Option Bytes → Option Code
launched_refusal r none = some incarnation_required
launched_refusal r (some given) =
    if bytes_eq given (id_text r.incarnation) then none else some wrong_incarnation

abbrev other_refusal : Option Bytes → Option Code
other_refusal none = none
other_refusal (some given) = some wrong_incarnation

abbrev pub incarnation_refusal : OperationRecord → State → Option Bytes → Option Code
incarnation_refusal r launched given = launched_refusal r given
incarnation_refusal r _ given = other_refusal given

-- A finished retirement of the same request, or a decision already made, is the answer.
abbrev finished_by : Bytes → Retirement → Bool
finished_by request_id t =
    elim t.phase [ requested ↦ false | _ ↦ bytes_eq t.request_id request_id ]
    || elim t.phase [ RetirementPhase.verified ↦ true | _ ↦ false ]

abbrev in_cancelled : State → Bool
in_cancelled cancelled = true
in_cancelled _ = false

abbrev pub is_answered : Bytes → State → Option Retirement → Bool
is_answered request_id s none = in_cancelled s
is_answered request_id s (some t) = in_cancelled s || finished_by request_id t

-- The first actor that is not gone refuses.
abbrev pub check_actor : Machine → Code → Option ProcessId → Option Code
check_actor m code none = none
check_actor m code (some id) = elim (liveness id m.table m.boot) [
  | gone ↦ none
  | live ↦ some code
  | unknown_because reason ↦ some participant_unknown
]

abbrev pub or_else : Option Code → Option Code → Option Code
or_else none c = c
or_else (some c) d = some c

abbrev pub actor_refusal : Machine → OperationRecord → Option Code
actor_refusal m r = or_else (check_actor m live_writer r.writer.id) (
    or_else (check_actor m live_participant r.participants.launcher) (
      or_else (check_actor m live_participant r.participants.producer)
        (check_actor m live_participant (daemon_of r.incarnation))))

abbrev pub requested_record : ProcessId → Bytes → OperationRecord → OperationRecord
requested_record me request_id r = record r {
  writer = writer_of WriterRole.recovery me;
  retirement = some (record { request_id = request_id; phase = requested; evidence = codes "{}" });
}

abbrev pub ended_record : Bytes → Bytes → Bool → OperationRecord → OperationRecord
ended_record evidence request_id good r = record r {
  writer = no_writer;
  retirement = some (record {
    request_id = request_id;
    phase = if good then RetirementPhase.verified else incomplete;
    evidence = evidence;
  });
}

abbrev pub cancelled_by : Machine → Bytes → Cause → OperationRecord → OperationRecord
cancelled_by m request_id cause r = record (ended_record (codes "{}") request_id true r) {
  state = State.cancelled;
  decision =
      some (record { cause = cause; at = m.now; request_id = some request_id; observed = none });
}
