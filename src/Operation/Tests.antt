-- ===== src/Operation/Tests.antt =====
-- Runs and instances of the theorems on the record, its store and the verdicts on it.
use native.Mathlib.Decide.{ℕ_discrete}
use pty.Base.{ℕ, ◌≡◌, ◌≢◌, refl, true, false, List, [], ◌∷◌, none, some, codes, ok, err, pos}
use pty.Process.Table.{Row, ProcTable, row, is_complete, is_zombie, is_exiting}
use pty.Operation.Liveness.{ProcessId, liveness, is_legacy}
use pty.Operation.Record.{
  OperationRecord, State, Phase, WriterRole, writer_of, no_writer, record_schema, check, Cause,
  RetirementPhase,
}
use pty.Operation.Occupancy.{argv_carries_marker}
use pty.Operation.Store.{Disk, stored, lands, fails_after, write_cas_as, OperationRecord_discrete}
use pty.Operation.Store.Swap.{WriteAnswer, write_cas_as-WriteAnswer}
use pty.Operation.Settle.{incarnation_of}
use pty.Operation.Settle.Verdict.{Sources, acquired, closed, settle}
use pty.Operation.Settle.Closed.{IsClosed}
use pty.Operation.Settle.Closed.Judged.{settle-IsClosed}
use pty.Operation.Retire.{Machine, taken, pinned, record_write, wrong_envelope, kill_recorded}
use pty.Operation.Retire.Run.{retire}
use pty.Operation.Retire.Ends.{retire-refused}

abbrev process : ℕ → ProcessId
process pid = record { pid = pid; start_token = codes "linux:7"; boot_id = codes "b"; uid = 0 }

-- A held launch whose daemon 12 is gone, and whose child 13 is left.
abbrev held_launch : OperationRecord
held_launch = record {
  schema = record_schema;
  revision = 7;
  updated_at = [];
  operation_id = codes "op";
  envelope = codes "{}";
  envelope_sha256 = codes "h";
  writer = writer_of WriterRole.producer (process 12);
  state = State.launched;
  phase = Phase.held;
  decision = some (record { cause = Cause.launch; at = []; request_id = none; observed = none });
  participants = record {
    launcher = some (process 11);
    producer = some (process 12);
    child = some (process 13);
  };
  incarnation = some (record {
    id = codes "12:t";
    runtime_id = codes "s";
    generation = codes "g";
    daemon = process 12;
    child = some (process 13);
  });
  retirement = none;
  transfer = none;
}

abbrev child_row : Row
child_row = record {
  pid = pos 13;
  ppid = pos 1;
  pgid = pos 13;
  state = codes "S";
  identity = some (codes "linux:7");
}

abbrev whole_table : List Row → ProcTable
whole_table rows = record { rows = rows; readable = true; complete = true }

abbrev machine : Machine
machine = record {
  lock = taken;
  boot = some (codes "b");
  table = whole_table (child_row ∷ []);
  me = some (process 20);
  now = codes "t";
  request_landing = lands;
  terminal_landing = lands;
  before_pin = whole_table (child_row ∷ []);
  without_pin = whole_table [];
  pin = pinned;
  signal_error = none;
  exit_seen = true;
  after_exit = λ n. whole_table [];
  polls = 3;
  row = codes "removed";
  evidence = codes "{}";
}

abbrev disk : Disk
disk = some (stored held_launch)

retired :
    (retire machine (codes "op") (codes "h") (codes "q") (some (codes "12:t")) disk).answer ≡ ok tt
unfolding retire write_cas_as check kill_recorded liveness is_legacy row is_complete is_zombie
    is_exiting OperationRecord_discrete ℕ_discrete
retired = refl

refused_digest :
    (retire machine (codes "op") (codes "x") (codes "q") (some (codes "12:t")) disk).answer
    ≡ err wrong_envelope
unfolding retire write_cas_as check kill_recorded liveness is_legacy row is_complete is_zombie
    is_exiting OperationRecord_discrete ℕ_discrete
refused_digest = refl

other_code : wrong_envelope ≢ record_write
other_code h = cc

retire-refused_example :
    ((retire machine (codes "op") (codes "x") (codes "q") (some (codes "12:t")) disk).disk ≡ disk)
    × ((retire machine (codes "op") (codes "x") (codes "q") (some (codes "12:t")) disk).log ≡ [])
retire-refused_example =
    retire-refused machine (codes "op") (codes "x") (codes "q") (some (codes "12:t")) disk
      wrong_envelope refused_digest other_code

write_cas_as-WriteAnswer_example :
    WriteAnswer fails_after
      (codes "t")
      held_launch
      (record held_launch { phase = Phase.child_preparing })
      disk
      (write_cas_as fails_after
        (codes "t")
        held_launch
        (record held_launch { phase = Phase.child_preparing })
        disk)
write_cas_as-WriteAnswer_example =
    write_cas_as-WriteAnswer fails_after (codes "t") held_launch
      (record held_launch { phase = Phase.child_preparing }) disk

-- The same launch, retired, on a machine where all of it is gone.
abbrev sources : Sources
sources = record {
  lock = λ n. acquired;
  holder = λ n. false;
  file = ok (
      some (record held_launch {
        writer = no_writer;
        retirement =
            some
              (record { request_id = codes "q"; phase = RetirementPhase.verified; evidence = [] });
      }));
  table = whole_table [];
  boot = some (codes "b");
  scan = record {
    rows =
        (codes "pty" ∷ codes "run" ∷ codes "--" ∷ codes "--launch-operation" ∷ codes "d" ∷ []) ∷ [];
    readable = true;
    complete = true;
    unreadable = [];
  };
  inventory = record { complete = true; entries = [] };
}

settles : (settle (codes "d") (codes "op") (codes "h") sources).verdict ≡ closed
unfolding settle liveness is_legacy row is_complete is_zombie is_exiting argv_carries_marker
    incarnation_of
settles = refl

settle-IsClosed_example :
    (r : OperationRecord) × IsClosed
      (codes "d")
      (codes "op")
      (codes "h")
      sources
      (settle (codes "d") (codes "op") (codes "h") sources)
      r
settle-IsClosed_example = settle-IsClosed (codes "d") (codes "op") (codes "h") sources settles
