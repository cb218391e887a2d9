-- ===== src/Operation/Store.antt =====
-- `OperationStore` of crates/pty-core/src/operation/record.rs: `read`, `create_exclusive` and
-- `write_cas_as` on the file of one operation, as a build without debug assertions runs them. The
-- file system says how each write ends: it fails before the new file is in place, it fails after
-- that when the directory is synchronised, or it lands.
pub mod Swap
use native.Mathlib.Decide.{ℕ_discrete}
use pty.Base.{
  ℕ, ◌+◌, ◌%◌, Bool, Option, none, some, if◌then◌else◌, Bytes, bytes_eq, Result, ok, err,
}
use pty.Operation.Record.{OperationRecord, record_schema, check}

pub data File : Type 0 where
  stored : OperationRecord → File
  garbled failing : File

-- `none` when there is no file.
abbrev pub Disk : Type 0
Disk = Option File

pub data ReadError : Type 0 where
  io malformed : ReadError

pub data WriteError : Type 0 where
  io missing : WriteError
  read : ReadError → WriteError
  stale : OperationRecord → WriteError

pub data CreateError : Type 0 where
  exists io : CreateError

pub data Landing : Type 0 where
  lands fails_before fails_after : Landing

abbrev pub checked : OperationRecord → Result Unit Bytes → Result (Option OperationRecord) ReadError
checked r (ok _) = ok (some r)
checked r (err _) = err malformed

abbrev pub read_file : Disk → Result (Option OperationRecord) ReadError
read_file none = ok none
read_file (some failing) = err io
read_file (some garbled) = err malformed
read_file (some (stored r)) =
    if bytes_eq r.schema record_schema then checked r (check r) else err malformed

-- The temporary file is gone afterwards, whatever happened.
unfoldable pub create_exclusive : Landing → OperationRecord → Disk → Disk × Result Unit CreateError
create_exclusive fails_before r disk = (disk, err io)
create_exclusive lands r none = (some (stored r), ok tt)
create_exclusive fails_after r none = (some (stored r), err io)
create_exclusive _ r (some f) = (some f, err exists)

unfoldable pub OperationRecord_discrete : Discrete OperationRecord
OperationRecord_discrete = hlevel (ℕ_discrete)

-- The record as it is written: `revision` is a `u64`.
abbrev pub stamped : Bytes → OperationRecord → OperationRecord → OperationRecord
stamped now expected next = record next {
  revision = (expected.revision + 1) % 18446744073709551616;
  updated_at = now;
}

abbrev pub landed : Landing → OperationRecord → Disk → Disk × Result OperationRecord WriteError
landed lands r disk = (some (stored r), ok r)
landed fails_before r disk = (disk, err io)
landed fails_after r disk = (some (stored r), err io)

-- The comparison with what is on the disk.
abbrev pub compared :
    Landing
    → Bytes
    → OperationRecord
    → OperationRecord
    → Disk
    → (current : OperationRecord) → {P : Type 0} → Dec P
    → Disk × Result OperationRecord WriteError
compared landing now expected next disk current (yes _) =
    landed landing (stamped now expected next) disk
compared landing now expected next disk current (no _) = (disk, err (stale current))

abbrev pub swapped :
    Landing
    → Bytes
    → OperationRecord
    → OperationRecord
    → Disk
    → Result (Option OperationRecord) ReadError
    → Disk × Result OperationRecord WriteError
swapped landing now expected next disk (err e) = (disk, err (read e))
swapped landing now expected next disk (ok none) = (disk, err missing)
swapped landing now expected next disk (ok (some current)) =
    compared landing now expected next disk current (OperationRecord_discrete current expected)

abbrev pub when_consistent :
    Landing
    → Bytes
    → OperationRecord
    → OperationRecord
    → Disk
    → Result Unit Bytes
    → Disk × Result OperationRecord WriteError
when_consistent landing now expected next disk (err _) = (disk, err io)
when_consistent landing now expected next disk (ok _) =
    swapped landing now expected next disk (read_file disk)

unfoldable pub write_cas_as :
    Landing
    → Bytes
    → OperationRecord
    → OperationRecord
    → Disk
    → Disk × Result OperationRecord WriteError
write_cas_as landing now expected next disk =
    when_consistent landing now expected next disk (check next)
