-- ===== src/Actor/Writes/Swap.antt =====
-- `write_cas_as` of crates/pty-core/src/operation/record.rs on the writes of the protocol.
use pty.Base.{◌≡◌, ◌∙◌, refl, ap, true, some, Bytes, bytes_eq_iff, if◌then◌else◌, Result, ok, err}
use pty.Operation.Record.{
  OperationRecord, record_schema, reserved_record, is_consistent, is_ok, check,
}
use pty.Operation.Store.{
  stored, lands, malformed, read_file, checked, OperationRecord_discrete, stamped, compared,
  swapped, when_consistent, write_cas_as,
}
use pty.Actor.Writes.{
  ◌↝◌, IsWritten, reserves, writes, claims, forks, gates, withdraws, launches, forks_child,
  prepares, holds, requests, concludes, hands_over, releases, recovers, cancels, ends,
}
use pty.Actor.Writes.Consistent.{written-is_consistent, step-is_consistent}

step-schema : (r next : OperationRecord) → r ↝ next → next.schema ≡ r.schema
step-schema _ _ (claims me s w) = refl
step-schema _ _ (forks s w) = refl
step-schema _ _ (gates d s w) = refl
step-schema _ _ (withdraws now c id o s w n) = refl
step-schema _ _ (launches a env p s g w) = refl
step-schema _ _ (forks_child s w) = refl
step-schema _ _ (prepares id s w) = refl
step-schema _ _ (holds s w) = refl
step-schema _ _ (requests id e s w) = refl
step-schema _ _ (concludes env g s w) = refl
step-schema _ _ (hands_over now id s w p n) = refl
step-schema _ _ (releases sent s) = refl
step-schema _ _ (recovers me id s) = refl
step-schema _ _ (cancels m id c s n) = refl
step-schema _ _ (ends e id g s w) = refl

written-schema : (r : OperationRecord) → IsWritten r → r.schema ≡ record_schema
unfolding reserved_record
written-schema _ (reserves now operation_id value sha256) = refl
written-schema _ (writes {r} {next} now w s) = step-schema r next s ∙ written-schema r w

is_ok-ok : (c : Result Unit Bytes) → is_ok c ≡ true → c ≡ ok tt
is_ok-ok (ok tt) h = refl
is_ok-ok (err e) h = cc

check-ok : (r : OperationRecord) → is_consistent r ≡ true → check r ≡ ok tt
unfolding is_consistent
check-ok r h = is_ok-ok (check r) h

read_file-stored :
    (r : OperationRecord)
    → r.schema ≡ record_schema
    → is_consistent r ≡ true
    → read_file (some (stored r)) ≡ ok (some r)
read_file-stored r s h =
    ap (λ b. if b then checked r (check r) else err malformed)
      ((bytes_eq_iff r.schema record_schema).1 s)
    ∙ ap (checked r) (check-ok r h)

compared-same :
    (now : Bytes) (r next : OperationRecord) (d : Dec (r ≡ r))
    → compared lands now r next (some (stored r)) r d
      ≡ (some (stored (stamped now r next)), ok (stamped now r next))
compared-same now r next (yes _) = refl
compared-same now r next (no n) = absurd (n refl)

-- When the file holds a record r that the launcher, the actor or the recovery wrote, by any
-- sequence of their writes from a reservation, and the machine's write lands, the next write of
-- one of them from r succeeds: `check` accepts what it writes, r reads back as itself, and the
-- file holds the stamped next record.
pub IsWritten-write_cas_as :
    (now : Bytes) (r next : OperationRecord)
    → IsWritten r
    → r ↝ next
    → write_cas_as lands now r next (some (stored r))
      ≡ (some (stored (stamped now r next)), ok (stamped now r next))
unfolding write_cas_as
IsWritten-write_cas_as now r next w s =
    ap (when_consistent lands now r next (some (stored r)))
      (check-ok next (step-is_consistent r next w s))
    ∙ ap (swapped lands now r next (some (stored r)))
        (read_file-stored r (written-schema r w) (written-is_consistent r w))
    ∙ compared-same now r next (OperationRecord_discrete r r)
