-- ===== src/Actor/Writes/Consistent.antt =====
-- `check` of crates/pty-core/src/operation/record.rs on every record that the protocol writes.
use pty.Base.{◌≡◌, ◌⊎◌, refl, arith, Bool, true, false, Option, Bytes, is_none, ◌&&◌}
use pty.Operation.Liveness.{ProcessId}
use pty.Operation.Record.{
  OperationRecord, State, reserved, pending, launched, transferred, Phase, held, WriterRole,
  no_role, recovery, Cause, requested, reserved_record, is_consistent, check,
}
use pty.Operation.Store.{stamped}
use pty.Operation.Launcher.{claim, forking, gated_record}
use pty.Operation.Retire.{Machine, requested_record, ended_record, cancelled_by}
use pty.Actor.{Env, Actor}
use pty.Actor.Handlers.{cancelled_record, launched_record, retiring_record, terminal_record}
use pty.Actor.Transfers.{committed_record, released_record}
use pty.Actor.Events.{set_phase, preparing_record}
use pty.Actor.Writes.{
  ◌↝◌, claims, forks, gates, withdraws, launches, forks_child, prepares, holds, requests, concludes,
  hands_over, releases, recovers, cancels, ends, is_launch_cause, IsWritten, reserves, writes,
}

-- A launch that no recovery has taken over has no retirement before it is decided.
abbrev is_calm : OperationRecord → State → WriterRole → Bool
is_calm r pending recovery = true
is_calm r pending _ = is_none r.retirement
is_calm r _ _ = true

calm_consistent : OperationRecord → Bool
calm_consistent r = is_consistent r && is_calm r r.state r.writer.role

claim-consistent :
    (me : ProcessId) (r : OperationRecord)
    → calm_consistent r ≡ true
    → r.state ≡ reserved
    → r.writer.role ≡ no_role
    → calm_consistent (claim me r) ≡ true
unfolding calm_consistent is_consistent check
claim-consistent me r h h0 h1 = ground arith

forking-consistent :
    (r : OperationRecord)
    → calm_consistent r ≡ true
    → r.state ≡ pending
    → calm_consistent (forking r) ≡ true
unfolding calm_consistent is_consistent check
forking-consistent r h h0 = ground arith

gated_record-consistent :
    (d : ProcessId) (r : OperationRecord)
    → calm_consistent r ≡ true
    → r.state ≡ pending
    → r.writer.role ≡ WriterRole.launcher
    → calm_consistent (gated_record d r) ≡ true
unfolding calm_consistent is_consistent check
gated_record-consistent d r h h0 h1 = ground arith

cancelled_record-consistent :
    (now : Bytes) (c : Cause) (id o : Option Bytes) (r : OperationRecord)
    → calm_consistent r ≡ true
    → r.state ≡ pending
    → (r.writer.role ≡ WriterRole.launcher) ⊎ (r.writer.role ≡ WriterRole.producer)
    → is_launch_cause c ≡ false
    → calm_consistent (cancelled_record now c id o r) ≡ true
unfolding calm_consistent is_consistent check
cancelled_record-consistent now c id o r h h0 h1 h2 = ground arith

child_forking-consistent :
    (r : OperationRecord)
    → calm_consistent r ≡ true
    → r.state ≡ launched
    → calm_consistent (set_phase Phase.child_forking r) ≡ true
unfolding calm_consistent is_consistent check
child_forking-consistent r h h0 = ground arith

preparing_record-consistent :
    (id : ProcessId) (r : OperationRecord)
    → calm_consistent r ≡ true
    → r.state ≡ launched
    → calm_consistent (preparing_record id r) ≡ true
unfolding calm_consistent is_consistent check
preparing_record-consistent id r h h0 = ground arith

held-consistent :
    (r : OperationRecord)
    → calm_consistent r ≡ true
    → r.state ≡ launched
    → calm_consistent (set_phase Phase.held r) ≡ true
unfolding calm_consistent is_consistent check
held-consistent r h h0 = ground arith

retiring_record-consistent :
    (id e : Bytes) (r : OperationRecord)
    → calm_consistent r ≡ true
    → r.state ≡ launched
    → r.writer.role ≡ WriterRole.producer
    → calm_consistent (retiring_record id e requested r) ≡ true
unfolding calm_consistent is_consistent check
retiring_record-consistent id e r h h0 h1 = ground arith

terminal_record-consistent :
    (env : Env) (g : Bool) (r : OperationRecord)
    → calm_consistent r ≡ true
    → r.state ≡ launched
    → calm_consistent (terminal_record env g r) ≡ true
unfolding calm_consistent is_consistent check
terminal_record-consistent env g r h h0 = ground arith

committed_record-consistent :
    (now id : Bytes) (r : OperationRecord)
    → calm_consistent r ≡ true
    → r.state ≡ launched
    → r.writer.role ≡ WriterRole.producer
    → r.phase ≡ held
    → r.retirement ≡ Option.none
    → calm_consistent (committed_record now id r) ≡ true
unfolding calm_consistent is_consistent check
committed_record-consistent now id r h h0 h1 h2 h3 = ground arith

released_record-consistent :
    (s : Bool) (r : OperationRecord)
    → calm_consistent r ≡ true
    → r.state ≡ transferred
    → calm_consistent (released_record s r) ≡ true
unfolding calm_consistent is_consistent check
released_record-consistent s r h h0 = ground arith

requested_record-consistent :
    (me : ProcessId) (id : Bytes) (r : OperationRecord)
    → calm_consistent r ≡ true
    → (r.state ≡ reserved) ⊎ ((r.state ≡ pending) ⊎ (r.state ≡ launched))
    → calm_consistent (requested_record me id r) ≡ true
unfolding calm_consistent is_consistent check
requested_record-consistent me id r h h0 = ground arith

cancelled_by-consistent :
    (m : Machine) (id : Bytes) (c : Cause) (r : OperationRecord)
    → calm_consistent r ≡ true
    → (r.state ≡ reserved) ⊎ (r.state ≡ pending)
    → is_launch_cause c ≡ false
    → calm_consistent (cancelled_by m id c r) ≡ true
unfolding calm_consistent is_consistent check
cancelled_by-consistent m id c r h h0 h1 = ground arith

ended_record-consistent :
    (e id : Bytes) (g : Bool) (r : OperationRecord)
    → calm_consistent r ≡ true
    → r.state ≡ launched
    → calm_consistent (ended_record e id g r) ≡ true
unfolding calm_consistent is_consistent check
ended_record-consistent e id g r h h0 = ground arith

launched-consistent :
    (env : Env) (p : Option Bytes) (a : Actor)
    → calm_consistent a.op_record ≡ true
    → a.op_record.state ≡ pending
    → a.op_record.phase ≡ Phase.daemon_gated
    → a.op_record.writer.role ≡ WriterRole.producer
    → calm_consistent (launched_record env p a) ≡ true
unfolding calm_consistent is_consistent check
launched-consistent env p a h s g w = ground arith

stamped-consistent :
    (now : Bytes) (r next : OperationRecord)
    → calm_consistent next ≡ true
    → calm_consistent (stamped now r next) ≡ true
unfolding calm_consistent is_consistent check
stamped-consistent now r next h = h

reserved-consistent :
    (now operation_id value sha256 : Bytes)
    → calm_consistent (reserved_record now operation_id value sha256) ≡ true
unfolding calm_consistent is_consistent check reserved_record
reserved-consistent now operation_id value sha256 = refl

step-consistent :
    (r next : OperationRecord) → r ↝ next → calm_consistent r ≡ true → calm_consistent next ≡ true
step-consistent r _ (claims me s w) h = claim-consistent me r h s w
step-consistent r _ (forks s w) h = forking-consistent r h s
step-consistent r _ (gates d s w) h = gated_record-consistent d r h s w
step-consistent r _ (withdraws now c id o s w n) h =
    cancelled_record-consistent now c id o r h s w n
step-consistent _ _ (launches a env p s g w) h = launched-consistent env p a h s g w
step-consistent r _ (forks_child s w) h = child_forking-consistent r h s
step-consistent r _ (prepares id s w) h = preparing_record-consistent id r h s
step-consistent r _ (holds s w) h = held-consistent r h s
step-consistent r _ (requests id e s w) h = retiring_record-consistent id e r h s w
step-consistent r _ (concludes env g s w) h = terminal_record-consistent env g r h s
step-consistent r _ (hands_over now id s w p n) h = committed_record-consistent now id r h s w p n
step-consistent r _ (releases sent s) h = released_record-consistent sent r h s
step-consistent r _ (recovers me id s) h = requested_record-consistent me id r h s
step-consistent r _ (cancels m id c s n) h = cancelled_by-consistent m id c r h s n
step-consistent r _ (ends e id g s w) h = ended_record-consistent e id g r h s

written-consistent : (r : OperationRecord) → IsWritten r → calm_consistent r ≡ true
written-consistent _ (reserves now operation_id value sha256) =
    reserved-consistent now operation_id value sha256
written-consistent _ (writes {r} {next} now w s) =
    stamped-consistent now r next (step-consistent r next s (written-consistent r w))

calm-consistent : (r : OperationRecord) → calm_consistent r ≡ true → is_consistent r ≡ true
unfolding calm_consistent
calm-consistent r h = ground arith

pub written-is_consistent : (r : OperationRecord) → IsWritten r → is_consistent r ≡ true
written-is_consistent r w = calm-consistent r (written-consistent r w)

pub step-is_consistent :
    (r next : OperationRecord) → IsWritten r → r ↝ next → is_consistent next ≡ true
step-is_consistent r next w s =
    calm-consistent next (step-consistent r next s (written-consistent r w))
