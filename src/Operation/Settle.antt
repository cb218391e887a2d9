-- ===== src/Operation/Settle.antt =====
-- `settle` of crates/pty-core/src/operation/settle.rs: the components of a verdict, and the
-- verdict. What the machine shows (the lock, the file, the process table, the command lines and the
-- registry) is data; the JSON of a verdict is left out but for the names in it.
pub mod Verdict
pub mod Closed
use pty.Base.{
  ℕ, zero, suc, Bool, true, false, not, ◌&&◌, ◌||◌, List, [], ◌∷◌, ◌++◌, Option, none, some, ◌==◌,
  if◌then◌else◌, Bytes, codes, bytes_eq, decimal, is_none, Result, ok, err, ℤ, pos, negsuc,
}
use pty.Process.Table.{ProcTable}
use pty.Operation.Liveness.{ProcessId, Liveness, live, gone, unknown_because, liveness}
use pty.Operation.Record.{
  OperationRecord, WriterRole, no_role, State, reserved, cancelled, launched, transferred,
  Incarnation, is_refusal, Retirement, RetirementPhase, has_role,
}
use pty.Operation.Occupancy.{argv_carries_marker}
use pty.Operation.Store.{ReadError}

pub data Status : Type 0 where
  verified pending unknown : Status

abbrev pub of_liveness : Liveness → Status
of_liveness gone = Status.verified
of_liveness live = Status.pending
of_liveness (unknown_because reason) = Status.unknown

abbrev pub writer_status : ProcTable → Option Bytes → WriterRole → Option ProcessId → Status
writer_status table boot role none = Status.verified
writer_status table boot role (some id) =
    if has_role role then of_liveness (liveness id table boot) else Status.verified

abbrev pub writer_component : OperationRecord → ProcTable → Option Bytes → Status
writer_component r table boot = writer_status table boot r.writer.role r.writer.id

abbrev pub same_process : ProcessId → ProcessId → Bool
same_process a b =
    a.pid == b.pid
    && bytes_eq a.start_token b.start_token
    && bytes_eq a.boot_id b.boot_id
    && a.uid == b.uid

abbrev pub contains : ProcessId → List ProcessId → Bool
contains id [] = false
contains id (x ∷ xs) = same_process x id || contains id xs

-- Each process once, in the order of its first role.
abbrev pub add_id : Option ProcessId → List ProcessId → List ProcessId
add_id none ids = ids
add_id (some id) ids = if contains id ids then ids else ids ++ id ∷ []

abbrev pub daemon_of : Option Incarnation → Option ProcessId
daemon_of none = none
daemon_of (some i) = some i.daemon

abbrev pub child_of : Option Incarnation → Option ProcessId
child_of none = none
child_of (some i) = i.child

abbrev pub recorded_ids : OperationRecord → List ProcessId
recorded_ids r = add_id (child_of r.incarnation) (
    add_id (daemon_of r.incarnation) (
      add_id r.participants.child
        (add_id r.participants.producer (add_id r.participants.launcher []))))

abbrev pub worse : Status → Liveness → Status
worse status live = Status.pending
worse Status.verified (unknown_because reason) = Status.unknown
worse status _ = status

abbrev pub ids_status : ProcTable → Option Bytes → Status → List ProcessId → Status
ids_status table boot status [] = status
ids_status table boot status (id ∷ ids) =
    ids_status table boot (worse status (liveness id table boot)) ids

abbrev pub participants_component : OperationRecord → ProcTable → Option Bytes → Status
participants_component r table boot = ids_status table boot Status.verified (recorded_ids r)

pub record ArgvScan : Type 0 where
  pub rows : List (List Bytes)
  pub readable : Bool
  pub complete : Bool
  pub unreadable : List ℤ

abbrev no_pids : List ℤ → Bool
no_pids [] = true
no_pids (p ∷ ps) = false

abbrev pub is_whole : ArgvScan → Bool
is_whole scan = scan.readable && scan.complete && no_pids scan.unreadable

abbrev pub any_carries : Bytes → List (List Bytes) → Bool
any_carries digest [] = false
any_carries digest (argv ∷ rows) = argv_carries_marker argv digest || any_carries digest rows

abbrev pub marker_component : ArgvScan → Bytes → Status
marker_component scan digest =
    if any_carries digest scan.rows
    then Status.pending
    else if not (is_whole scan)
    then Status.unknown
    else Status.verified

-- The fields of a session's metadata that a verdict reads; `marker` is the digest in it.
pub record SessionMetadata : Type 0 where
  pub daemon_pid : Option ℤ
  pub created_at : Bytes
  pub generation : Option Bytes
  pub marker : Option Bytes

pub record SessionInfo : Type 0 where
  pub metadata : Option SessionMetadata
  pub running : Bool

pub record Inventory : Type 0 where
  pub complete : Bool
  pub entries : List SessionInfo

abbrev of_pid : Bytes → Option ℤ → Option Bytes
of_pid created_at (some (pos (suc n))) =
    if bytes_eq created_at [] then none else some (decimal (suc n) ++ b':' ∷ created_at)
of_pid created_at _ = none

unfoldable pub incarnation_of : SessionMetadata → Option Bytes
incarnation_of m = of_pid m.created_at m.daemon_pid

-- `==` on an optional text.
abbrev pub is_text : Bytes → Option Bytes → Bool
is_text t none = false
is_text t (some s) = bytes_eq s t

abbrev pub is_recorded : Option Incarnation → SessionMetadata → Bool
is_recorded none m = false
is_recorded (some i) m = is_text i.id (incarnation_of m) && is_text i.generation m.generation

abbrev pub in_transferred : State → Bool
in_transferred transferred = true
in_transferred _ = false

abbrev is_verified : Status → Bool
is_verified Status.verified = true
is_verified _ = false

abbrev pub after_entry : OperationRecord → SessionInfo → SessionMetadata → Status → Status
after_entry r entry m status =
    if not (is_recorded r.incarnation m)
    then Status.unknown
    else if entry.running && not (in_transferred r.state) && is_verified status
    then Status.pending
    else status

abbrev pub entry_status :
    Bytes → OperationRecord → SessionInfo → Option SessionMetadata → Status → Status
entry_status digest r entry none status = status
entry_status digest r entry (some m) status =
    if is_text digest m.marker then after_entry r entry m status else status

abbrev pub entries_status : Bytes → OperationRecord → List SessionInfo → Status → Status
entries_status digest r [] status = status
entries_status digest r (e ∷ es) status =
    entries_status digest r es (entry_status digest r e e.metadata status)

abbrev pub registry_component : Inventory → Bytes → OperationRecord → Status
registry_component inventory digest r =
    if inventory.complete
    then entries_status digest r inventory.entries Status.verified
    else Status.unknown
