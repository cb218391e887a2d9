-- ===== src/Actor/Tests.antt =====
-- Runs and instances of the theorems on the operation actor.
use native.Mathlib.Decide.{ℕ_discrete}
use pty.Base.{ℕ, ◌≡◌, refl, true, false, List, [], ◌∷◌, none, some, codes, ok, inl, inr, All}
use pty.Operation.Liveness.{ProcessId}
use pty.Operation.Record.{
  OperationRecord, State, Phase, WriterRole, writer_of, record_schema, check,
}
use pty.Operation.Occupancy.{absent, occupancy_rule}
use pty.Operation.Store.{lands, write_cas_as, OperationRecord_discrete}
use pty.Actor.{Env, release_gate, shut_gate, write, finish, abandon}
use pty.Actor.Outcome.{transferred, retired, IsJustified, view}
use pty.Actor.Handlers.{decide_launch, cancel_before_launch, complete_retirement, retire}
use pty.Actor.Transfers.{start_transfer, commit_transfer, release_transfer, finish_transfer}
use pty.Actor.Events.{
  ActorEvent, owner, synced, shutdown, ready_asked, commit, completed, child_ack, published, forked,
  prepared, new_actor, run, on_event, on_completed, on_ack, on_ready_asked, on_shutdown,
}
use pty.Actor.Events.Owner.{frame, command, transfer, on_owner}
use pty.Operation.Launcher.{claim, forking}
use pty.Operation.Record.{reserved_record}
use pty.Operation.Store.{stamped, stored}
use pty.Actor.Writes.{IsWritten, reserves, writes, claims, forks}
use pty.Actor.Writes.Swap.{IsWritten-write_cas_as}
use pty.Actor.Safe.{IsChain}
use pty.Actor.Safe.Exclusive.{run-IsJustified, run-IsChain, run_releases_or_shuts, IsLogged}

abbrev process : ℕ → ProcessId
process pid = record { pid = pid; start_token = codes "linux:7"; boot_id = codes "b"; uid = 0 }

abbrev daemon : ProcessId
daemon = process 12

-- The record as the launcher leaves it at the daemon's gate.
abbrev gated : OperationRecord
gated = record {
  schema = record_schema;
  revision = 4;
  updated_at = [];
  operation_id = codes "op";
  envelope = codes "{}";
  envelope_sha256 = [];
  writer = writer_of WriterRole.producer daemon;
  state = State.pending;
  phase = Phase.daemon_gated;
  decision = none;
  participants = record { launcher = some (process 11); producer = some daemon; child = none };
  incarnation = none;
  retirement = none;
  transfer = none;
}

abbrev env : Env
env = record {
  landing = λ label. lands;
  now = codes "t";
  armed = λ barrier. false;
  holds_creation_lock = true;
  occupancy = absent;
  new_generation = codes "g";
  child_stays = λ id. false;
  child_outcome = λ id. codes "gone";
  row_outcome = codes "removed";
  evidence = codes "{}";
  gate_released = true;
}

abbrev held_events : List ActorEvent
held_events =
    synced
    ∷ commit 1
    ∷ completed 1 (ok published)
    ∷ commit 2
    ∷ completed 2 (ok (forked 13 (some (process 13))))
    ∷ child_ack prepared
    ∷ []

abbrev with_env : List ActorEvent → List ActorEvent → List (Env × ActorEvent)
with_env [] [] = []
with_env [] (e ∷ es) = (env, e) ∷ with_env [] es
with_env (e ∷ es) fs = (env, e) ∷ with_env es fs

-- The owner takes the held session over.
abbrev taken_over : List (Env × ActorEvent)
taken_over = with_env held_events (
    owner (frame (command (transfer (codes "r") (codes "12:t") (codes "g"))))
    ∷ ready_asked
    ∷ shutdown
    ∷ [])

-- The daemon is told to end while the child is held.
abbrev ended_early : List (Env × ActorEvent)
ended_early = with_env held_events (shutdown ∷ [])

taken_over_ends :
    view (run env taken_over (new_actor gated daemon none (codes "s"))).disk ≡ transferred
unfolding run new_actor on_event on_completed on_ack on_ready_asked on_shutdown on_owner
    decide_launch cancel_before_launch complete_retirement retire start_transfer commit_transfer
    release_transfer finish_transfer write finish abandon occupancy_rule write_cas_as
    OperationRecord_discrete check ℕ_discrete
taken_over_ends = refl

ended_early_ends :
    view (run env ended_early (new_actor gated daemon none (codes "s"))).disk ≡ retired
unfolding run new_actor on_event on_completed on_ack on_ready_asked on_shutdown on_owner
    decide_launch cancel_before_launch complete_retirement retire start_transfer commit_transfer
    release_transfer finish_transfer write finish abandon occupancy_rule write_cas_as
    OperationRecord_discrete check ℕ_discrete
ended_early_ends = refl

run-IsJustified_example :
    All
      (λ x. IsJustified x.0 x.1)
      (run env taken_over (new_actor gated daemon none (codes "s"))).log
run-IsJustified_example =
    run-IsJustified env taken_over gated daemon none (codes "s") refl refl refl

run-IsChain_example :
    IsChain
      (view (run env ended_early (new_actor gated daemon none (codes "s"))).disk)
      (run env ended_early (new_actor gated daemon none (codes "s"))).log
run-IsChain_example = run-IsChain env ended_early gated daemon none (codes "s") refl refl refl

taken_over_releases :
    IsLogged release_gate (run env taken_over (new_actor gated daemon none (codes "s"))).log
unfolding run new_actor on_event on_completed on_ack on_ready_asked on_shutdown on_owner
    decide_launch cancel_before_launch complete_retirement retire start_transfer commit_transfer
    release_transfer finish_transfer write finish abandon occupancy_rule write_cas_as
    OperationRecord_discrete check ℕ_discrete
taken_over_releases = inr (inr (inr (inl refl)))

run_releases_or_shuts_example :
    ¬ IsLogged shut_gate (run env taken_over (new_actor gated daemon none (codes "s"))).log
run_releases_or_shuts_example =
    run_releases_or_shuts env taken_over gated daemon none (codes "s") refl refl refl
      taken_over_releases

abbrev reservation : OperationRecord
reservation = reserved_record (codes "t") (codes "op") (codes "{}") []

abbrev claimed : OperationRecord
claimed = stamped (codes "u") reservation (claim (process 11) reservation)

claimed-IsWritten : IsWritten claimed
unfolding reserved_record
claimed-IsWritten =
    writes (codes "u") (reserves (codes "t") (codes "op") (codes "{}") [])
      (claims (process 11) refl refl)

IsWritten-write_cas_as_example :
    write_cas_as lands (codes "v") claimed (forking claimed) (some (stored claimed)) ≡ (
      some (stored (stamped (codes "v") claimed (forking claimed))),
      ok (stamped (codes "v") claimed (forking claimed)),
    )
IsWritten-write_cas_as_example =
    IsWritten-write_cas_as (codes "v") claimed (forking claimed) claimed-IsWritten (forks refl refl)
