-- ===== src/Operation/Settle/Verdict.antt =====
-- The verdict of `settle` of crates/pty-core/src/operation/settle.rs. The digest of the operation's
-- number, a hash that a library computes, is an argument.
use pty.Base.{
  ℕ, zero, suc, Bool, true, false, ◌&&◌, List, [], ◌∷◌, Option, none, some, if◌then◌else◌, Bytes,
  codes, bytes_eq, Result, ok, err,
}
use pty.Process.Table.{ProcTable}
use pty.Operation.Record.{
  OperationRecord, State, reserved, pending, cancelled, launched, is_refusal, Retirement,
  RetirementPhase,
}
use pty.Operation.Store.{ReadError}
use pty.Operation.Settle.{
  in_transferred, Status, writer_component, participants_component, ArgvScan, marker_component,
  Inventory, registry_component,
}

pub data Word : Type 0 where
  live unknown closed retire_required transferred : Word

pub record Verdict : Type 0 where
  pub verdict : Word
  pub kind : Option Bytes
  pub no_further_effects : Bool

pub record Component : Type 0 where
  pub name : Bytes
  pub status : Status

pub data LockAnswer : Type 0 where
  acquired refused not_found failed : LockAnswer

-- What a verdict is drawn from. The lock and its holder are asked again and again.
pub record Sources : Type 0 where
  pub lock : ℕ → LockAnswer
  pub holder : ℕ → Bool
  pub file : Result (Option OperationRecord) ReadError
  pub table : ProcTable
  pub boot : Option Bytes
  pub scan : ArgvScan
  pub inventory : Inventory

abbrev writer_release_retries : ℕ
writer_release_retries = 8

pub data Locking : Type 0 where
  no_lock unavailable locked writing : Locking

-- A refused lock with nobody to name is tried again.
abbrev pub lock_loop : ℕ → (ℕ → LockAnswer) → (ℕ → Bool) → ℕ → Locking
lock_loop zero lock holder at = writing
lock_loop (suc fuel) lock holder at =
    let rest = lock_loop fuel lock holder (suc at) in
    elim (lock at) [
      | acquired ↦ locked
      | refused ↦ if holder at then writing else rest
      | not_found ↦ no_lock
      | failed ↦ unavailable
    ]

abbrev pub verified_end : Option Retirement → Bool
verified_end none = false
verified_end (some t) = elim t.phase [ RetirementPhase.verified ↦ true | _ ↦ false ]

abbrev pub durable_end : OperationRecord → State → Bool
durable_end r cancelled = is_refusal r.decision
durable_end r launched = verified_end r.retirement
durable_end r _ = false

abbrev pub find_pending : List Component → Option Bytes
find_pending [] = none
find_pending (c ∷ cs) =
    let rest = find_pending cs in elim c.status [ Status.pending ↦ some c.name | _ ↦ rest ]

abbrev pub find_unknown : List Component → Option Bytes
find_unknown [] = none
find_unknown (c ∷ cs) =
    let rest = find_unknown cs in elim c.status [ Status.unknown ↦ some c.name | _ ↦ rest ]

abbrev pub all_verified : List Component → Bool
all_verified [] = true
all_verified (c ∷ cs) = elim c.status [ Status.verified ↦ true | _ ↦ false ] && all_verified cs

-- The verdict by the state, once no component is pending or unknown.
abbrev pub settled : OperationRecord → Bool → State → Verdict
settled r further reserved = record {
  verdict = retire_required;
  kind = some (codes "reserved");
  no_further_effects = false;
}
settled r further pending = record {
  verdict = retire_required;
  kind = some (codes "pending");
  no_further_effects = false;
}
settled r further cancelled =
    if durable_end r cancelled
    then record {
      verdict = closed;
      kind = some (codes "never-launched");
      no_further_effects = further;
    }
    else record { verdict = unknown; kind = some (codes "record"); no_further_effects = false }
settled r further launched =
    if durable_end r launched
    then record { verdict = closed; kind = some (codes "retired"); no_further_effects = further }
    else record {
      verdict = retire_required;
      kind = some (codes "launched");
      no_further_effects = false;
    }
settled r further State.transferred = record {
  verdict = unknown;
  kind = some (codes "record");
  no_further_effects = false;
}

abbrev pub by_unknown : OperationRecord → Bool → Option Bytes → Verdict
by_unknown r further (some name) = record {
  verdict = unknown;
  kind = some name;
  no_further_effects = further;
}
by_unknown r further none = settled r further r.state

abbrev pub by_pending : OperationRecord → Bool → List Component → Option Bytes → Verdict
by_pending r further cs (some name) = record {
  verdict = live;
  kind = some name;
  no_further_effects = further;
}
by_pending r further cs none = by_unknown r further (find_unknown cs)

abbrev pub judge : OperationRecord → List Component → Verdict
judge r cs =
    if in_transferred r.state
    then record { verdict = transferred; kind = none; no_further_effects = false }
    else by_pending r (durable_end r r.state && all_verified cs) cs (find_pending cs)

-- The components behind the record's, in their order.
abbrev pub components : Bytes → Sources → OperationRecord → List Component
components digest s r =
    record { name = codes "writer"; status = writer_component r s.table s.boot }
    ∷ record { name = codes "participants"; status = participants_component r s.table s.boot }
    ∷ record { name = codes "marker-scan"; status = marker_component s.scan digest }
    ∷ record { name = codes "registry"; status = registry_component s.inventory digest r }
    ∷ []

abbrev unknown_because : Bytes → Verdict
unknown_because kind = record { verdict = unknown; kind = some kind; no_further_effects = false }

-- With the lock: the record that was read must be the one asked for.
abbrev pub on_record :
    Bytes → Bytes → Bytes → Sources → Result (Option OperationRecord) ReadError → Verdict
on_record digest operation_id sha256 s (err e) = unknown_because (codes "record-unreadable")
on_record digest operation_id sha256 s (ok none) = unknown_because (codes "record-missing")
on_record digest operation_id sha256 s (ok (some r)) =
    if bytes_eq r.operation_id operation_id && bytes_eq r.envelope_sha256 sha256
    then judge r (components digest s r)
    else unknown_because (codes "record-mismatch")

abbrev pub on_lock : Bytes → Bytes → Bytes → Sources → Locking → Verdict
on_lock digest operation_id sha256 s no_lock = unknown_because (codes "record-missing")
on_lock digest operation_id sha256 s unavailable = unknown_because (codes "writer")
on_lock digest operation_id sha256 s writing = record {
  verdict = live;
  kind = some (codes "writer");
  no_further_effects = false;
}
on_lock digest operation_id sha256 s locked = on_record digest operation_id sha256 s s.file

unfoldable pub settle : Bytes → Bytes → Bytes → Sources → Verdict
settle digest operation_id sha256 s =
    on_lock digest operation_id sha256 s (lock_loop writer_release_retries s.lock s.holder 0)
