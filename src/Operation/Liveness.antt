-- ===== src/Operation/Liveness.antt =====
-- `ProcessId`, `Liveness`, `ProcessId::liveness` and the wait of `liveness_after_exit_with` of
-- crates/pty-core/src/operation/record.rs. The identities come from the machine and are data here.
use pty.Base.{
  ℕ, zero, suc, Bool, true, false, not, ◌&&◌, [], ◌∷◌, Option, none, some, ◌==◌, if◌then◌else◌,
  Bytes, codes, bytes_eq, pos, negsuc, ℤ, ltb, ◌-◌,
}
use pty.Process.Table.{
  Row, ProcTable, Answer, known, not_present, unknown, row, is_complete, is_zombie, is_exiting,
}

pub record ProcessId : Type 0 where
  pub pid : ℕ
  pub start_token : Bytes
  pub boot_id : Bytes
  pub uid : ℕ

pub data Liveness : Type 0 where
  live gone : Liveness
  unknown_because : Bytes → Liveness

-- `str::starts_with`.
abbrev pub has_prefix : Bytes → Bytes → Bool
has_prefix [] s = true
has_prefix (p ∷ ps) [] = false
has_prefix (p ∷ ps) (b ∷ bs) = p == b && has_prefix ps bs

-- `pid as i32` of a `u32`.
abbrev pub as_i32 : ℕ → ℤ
as_i32 pid = if ltb pid 2147483648 then pos pid else negsuc (4294967295 - pid)

unfoldable pub is_legacy : Bytes → Bool
is_legacy boot = has_prefix (codes "darwin:{") boot

-- What a row says of the process, whose identity is read.
abbrev pub row_liveness : Bytes → Bool → Row → Option Bytes → Liveness
row_liveness start_token legacy r none = unknown_because (codes "start-identity-unreadable")
row_liveness start_token legacy r (some token) =
    if not (bytes_eq token start_token)
    then gone
    else if is_zombie r
    then gone
    else if is_exiting r
    then unknown_because (codes "exiting")
    else if legacy
    then unknown_because (codes "boot-identity-legacy")
    else live

abbrev pub answer_liveness : Bytes → Bool → Bool → Answer Row → Liveness
answer_liveness start_token legacy whole (known r) = row_liveness start_token legacy r r.identity
answer_liveness start_token legacy whole not_present =
    if whole then gone else unknown_because (codes "process-table-incomplete")
answer_liveness start_token legacy whole (unknown u) =
    unknown_because (codes "process-table-unreadable")

abbrev pub liveness_in : ProcessId → ProcTable → Bytes → Liveness
liveness_in id table boot =
    if not (bytes_eq boot id.boot_id) && not (is_legacy id.boot_id)
    then gone
    else answer_liveness id.start_token (is_legacy id.boot_id) (is_complete table)
        (row table (as_i32 id.pid))

unfoldable pub liveness : ProcessId → ProcTable → Option Bytes → Liveness
liveness id table none = unknown_because (codes "boot-identity-unavailable")
liveness id table (some boot) = liveness_in id table boot

-- `fuel` counts the reads that the deadline admits after the first.
abbrev pub until_gone : ProcessId → Option Bytes → (ℕ → ProcTable) → ℕ → ℕ → Liveness
until_gone id boot read at zero = liveness id (read at) boot
until_gone id boot read at (suc fuel) =
    let rest = until_gone id boot read (suc at) fuel in
    elim (liveness id (read at) boot) [ gone ↦ gone | _ ↦ rest ]
