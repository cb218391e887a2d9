-- ===== src/Operation/Launcher.antt =====
-- The writes of the launcher, in crates/pty/src/cli/run_operation.rs.
use pty.Base.{some}
use pty.Operation.Liveness.{ProcessId}
use pty.Operation.Record.{
  OperationRecord, State, claimed, daemon_forking, daemon_gated, WriterRole, writer_of,
}

abbrev pub claim : ProcessId → OperationRecord → OperationRecord
claim me r = record r {
  state = State.pending;
  phase = claimed;
  writer = writer_of WriterRole.launcher me;
  participants = record r.participants { launcher = some me };
}

abbrev pub forking : OperationRecord → OperationRecord
forking r = record r { phase = daemon_forking }

abbrev pub gated_record : ProcessId → OperationRecord → OperationRecord
gated_record daemon r = record r {
  phase = daemon_gated;
  writer = writer_of WriterRole.producer daemon;
  participants = record r.participants { producer = some daemon };
}
