-- ===== src/Actor/Writes.antt =====
-- Every write of an operation's record, by the launcher of crates/pty/src/cli/run_operation.rs, the
-- actor of crates/pty/src/daemon/operation.rs and the recovery of
-- crates/pty-core/src/operation/settle.rs, as steps from record to record, each with what holds of
-- the record where the code makes it.
pub mod Consistent
pub mod Swap
use pty.Base.{◌≡◌, ◌⊎◌, Bool, true, false, Option, none, Bytes}
use pty.Operation.Liveness.{ProcessId}
use pty.Operation.Record.{
  OperationRecord, State, reserved, pending, launched, transferred, Phase, child_forking, held,
  WriterRole, no_role, recovery, Cause, launch, requested, reserved_record,
}
use pty.Operation.Store.{stamped}
use pty.Operation.Launcher.{claim, forking, gated_record}
use pty.Operation.Retire.{Machine, requested_record, ended_record, cancelled_by}
use pty.Actor.{Env, Actor}
use pty.Actor.Handlers.{cancelled_record, launched_record, retiring_record, terminal_record}
use pty.Actor.Transfers.{committed_record, released_record}
use pty.Actor.Events.{set_phase, preparing_record}

abbrev pub is_launch_cause : Cause → Bool
is_launch_cause launch = true
is_launch_cause _ = false

-- A write takes the record that its writer holds to the next, before it is stamped.
infix 40 ◌↝◌
pub data ◌↝◌ : OperationRecord → OperationRecord → Type 0 where
  claims :
      {r : OperationRecord} (me : ProcessId)
      → r.state ≡ reserved
      → r.writer.role ≡ no_role
      → r ↝ claim me r
  forks :
      {r : OperationRecord}
      → r.state ≡ pending
      → r.writer.role ≡ WriterRole.launcher
      → r ↝ forking r
  gates :
      {r : OperationRecord} (daemon : ProcessId)
      → r.state ≡ pending
      → r.writer.role ≡ WriterRole.launcher
      → r ↝ gated_record daemon r
  withdraws :
      {r : OperationRecord} (now : Bytes) (cause : Cause) (id observed : Option Bytes)
      → r.state ≡ pending
      → (r.writer.role ≡ WriterRole.launcher) ⊎ (r.writer.role ≡ WriterRole.producer)
      → is_launch_cause cause ≡ false
      → r ↝ cancelled_record now cause id observed r
  launches :
      (a : Actor) (env : Env) (predecessor : Option Bytes)
      → a.op_record.state ≡ pending
      → a.op_record.phase ≡ Phase.daemon_gated
      → a.op_record.writer.role ≡ WriterRole.producer
      → a.op_record ↝ launched_record env predecessor a
  forks_child :
      {r : OperationRecord}
      → r.state ≡ launched
      → r.writer.role ≡ WriterRole.producer
      → r ↝ set_phase child_forking r
  prepares :
      {r : OperationRecord} (id : ProcessId)
      → r.state ≡ launched
      → r.writer.role ≡ WriterRole.producer
      → r ↝ preparing_record id r
  holds :
      {r : OperationRecord}
      → r.state ≡ launched
      → r.writer.role ≡ WriterRole.producer
      → r ↝ set_phase held r
  requests :
      {r : OperationRecord} (id evidence : Bytes)
      → r.state ≡ launched
      → r.writer.role ≡ WriterRole.producer
      → r ↝ retiring_record id evidence requested r
  concludes :
      {r : OperationRecord} (env : Env) (good : Bool)
      → r.state ≡ launched
      → r.writer.role ≡ WriterRole.producer
      → r ↝ terminal_record env good r
  hands_over :
      {r : OperationRecord} (now id : Bytes)
      → r.state ≡ launched
      → r.writer.role ≡ WriterRole.producer
      → r.phase ≡ held
      → r.retirement ≡ none
      → r ↝ committed_record now id r
  releases :
      {r : OperationRecord} (sent : Bool) → r.state ≡ transferred → r ↝ released_record sent r
  recovers :
      {r : OperationRecord} (me : ProcessId) (id : Bytes)
      → (r.state ≡ reserved) ⊎ ((r.state ≡ pending) ⊎ (r.state ≡ launched))
      → r ↝ requested_record me id r
  cancels :
      {r : OperationRecord} (m : Machine) (id : Bytes) (cause : Cause)
      → (r.state ≡ reserved) ⊎ (r.state ≡ pending)
      → is_launch_cause cause ≡ false
      → r ↝ cancelled_by m id cause r
  ends :
      {r : OperationRecord} (evidence id : Bytes) (good : Bool)
      → r.state ≡ launched
      → r.writer.role ≡ recovery
      → r ↝ ended_record evidence id good r

-- The records that the protocol writes: the reservation, and what a write makes of one of them.
pub data IsWritten : OperationRecord → Type 0 where
  reserves :
      (now operation_id value sha256 : Bytes)
      → IsWritten (reserved_record now operation_id value sha256)
  writes :
      {r next : OperationRecord} (now : Bytes)
      → IsWritten r
      → r ↝ next
      → IsWritten (stamped now r next)
