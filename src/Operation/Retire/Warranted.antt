-- ===== src/Operation/Retire/Warranted.antt =====
-- What `retire` of crates/pty-core/src/operation/settle.rs does to processes and to the registry.
use mathlib.Core.Path.{subst}
use pty.Base.{
  ◌≡◌, refl, Bool, true, false, List, [], Option, none, some, Bytes, Result, ok, err, All, ap, sym,
  ◌∙◌, is_some,
}
use pty.Operation.Liveness.{ProcessId, Liveness, live, gone, unknown_because, liveness}
use pty.Operation.Record.{
  OperationRecord, State, reserved, pending, cancelled, launched, transferred, Incarnation,
}
use pty.Operation.Store.{Disk, stored, stamped, WriteError, read_file, Landing}
use pty.Operation.Store.Swap.{WriteAnswer, write_cas_as-WriteAnswer}
use pty.Operation.Settle.{daemon_of}
use pty.Operation.Retire.{
  Code, live_writer, live_participant, participant_unknown, Machine, Effect, signalled, unwound,
  kill_recorded, check_actor, or_else, actor_refusal, requested_record,
}
use pty.Operation.Retire.Run.{
  Effects, killed, recorded_child, end_child, unwind_row, terminal_answer, finish, on_requested,
  take_authority,
}

abbrev pub IsGoneNow : Machine → Option ProcessId → Type 0
IsGoneNow m none = Unit
IsGoneNow m (some id) = liveness id m.table m.boot ≡ gone

-- The writer, the launcher, the producer and the daemon of the record.
abbrev pub IsDeserted : Machine → OperationRecord → Type 0
IsDeserted m r =
    IsGoneNow m r.writer.id
    × IsGoneNow m r.participants.launcher
    × IsGoneNow m r.participants.producer
    × IsGoneNow m (daemon_of r.incarnation)

abbrev pub IsTarget : OperationRecord → Effect → Type 0
IsTarget r (signalled id) = recorded_child r ≡ some id
IsTarget r unwound = is_some r.incarnation ≡ true

-- The record was read, its actors are gone, and the request to retire it is on the disk.
pub record IsWarranted (m : Machine) (request_id : Bytes) (before : Disk) (e : Effect) (d : Disk)
    : Type 0 where
  pub found : OperationRecord
  pub read : read_file before ≡ ok (some found)
  pub deserted : IsDeserted m found
  pub me : ProcessId
  pub recorded : d ≡ some (stored (stamped m.now found (requested_record me request_id found)))
  pub launched : found.state ≡ State.launched
  pub target : IsTarget found e

check_actor-gone :
    (m : Machine) (code : Code) (o : Option ProcessId) → check_actor m code o ≡ none → IsGoneNow m o
check_actor-gone m code none h = tt
check_actor-gone m code (some id) h = by_liveness (liveness id m.table m.boot) refl h
  where
    by_liveness :
        (l : Liveness)
        → liveness id m.table m.boot ≡ l
        → elim l as (λ x. Option Code) [
          | gone ↦ none
          | live ↦ some code
          | unknown_because reason ↦ some participant_unknown
        ]
          ≡ none
        → liveness id m.table m.boot ≡ gone
    by_liveness gone e h = e
    by_liveness live e h = cc
    by_liveness (unknown_because reason) e h = cc

or_else-none : (c d : Option Code) → or_else c d ≡ none → (c ≡ none) × (d ≡ none)
or_else-none none d h = (refl, h)
or_else-none (some c) d h = cc

pub actor_refusal-IsDeserted :
    (m : Machine) (r : OperationRecord) → actor_refusal m r ≡ none → IsDeserted m r
actor_refusal-IsDeserted m r h =
    let (w, a) = or_else-none _ _ h in
    let (l, b) = or_else-none _ _ a in
    let (p, d) = or_else-none _ _ b in
    (
      check_actor-gone m live_writer _ w,
      check_actor-gone m live_participant _ l,
      check_actor-gone m live_participant _ p,
      check_actor-gone m live_participant _ d,
    )

module _ (m : Machine) (request_id : Bytes) (before : Disk) where
  abbrev pub Fine : List (Effect × Disk) → Type 0
  Fine log = All (λ x. IsWarranted m request_id before x.0 x.1) log

  terminal-Fine :
      (log : List (Effect × Disk))
      → Fine log
      → (x : Disk × Result OperationRecord WriteError) → Fine (terminal_answer log x).log
  terminal-Fine log f (d, ok w) = f
  terminal-Fine log f (d, err e) = f

  module _ (r : OperationRecord) (read : read_file before ≡ ok (some r)) (deserted : IsDeserted m r)
      (me : ProcessId) where
    abbrev asked : OperationRecord
    asked = stamped m.now r (requested_record me request_id r)

    killed-Fine :
        (id : ProcessId)
        → r.state ≡ State.launched
        → recorded_child r ≡ some id
        → (k : Liveness × Bool) → Fine (killed (some (stored asked)) id k).log
    killed-Fine id s c (l, true) = (
      record {
        found = r;
        read = read;
        deserted = deserted;
        me = me;
        recorded = refl;
        launched = s;
        target = c;
      },
      tt,
    )
    killed-Fine id s c (l, false) = tt

    child-Fine :
        (o : Option ProcessId)
        → r.state ≡ State.launched
        → recorded_child r ≡ o
        → Fine (end_child m (some (stored asked)) o).log
    child-Fine none s c = tt
    child-Fine (some id) s c = killed-Fine id s c (kill_recorded m id)

    row-Fine :
        (o : Option Incarnation)
        → r.state ≡ State.launched
        → r.incarnation ≡ o
        → (e : Effects) → Fine e.log
        → Fine (unwind_row m (some (stored asked)) o e).log
    row-Fine none s c e f = f
    row-Fine (some i) s c e f = (
      record {
        found = r;
        read = read;
        deserted = deserted;
        me = me;
        recorded = refl;
        launched = s;
        target = ap is_some c;
      },
      f,
    )

    finish-Fine :
        (s : State) → r.state ≡ s → Fine (finish m request_id asked (some (stored asked)) s).log
    finish-Fine reserved e = terminal-Fine [] tt _
    finish-Fine pending e = terminal-Fine [] tt _
    finish-Fine cancelled e = tt
    finish-Fine transferred e = tt
    finish-Fine launched e =
        terminal-Fine _ (row-Fine r.incarnation e refl _ (child-Fine (recorded_child r) e refl)) _

    requested-Fine :
        (l : Landing) (x : Disk × Result OperationRecord WriteError)
        → WriteAnswer l m.now r (requested_record me request_id r) before x
        → Fine (on_requested m request_id x).log
    requested-Fine l (d, err e) w = tt
    requested-Fine l (d, ok w) (f, c, e, k) =
        subst (λ y. Fine (finish m request_id y d y.state).log) (sym e)
          (subst (λ z. Fine (finish m request_id asked z asked.state).log)
            (sym (k ∙ ap (λ y. some (stored y)) e)) (finish-Fine r.state refl))

  pub taken-Fine :
      (r : OperationRecord)
      → read_file before ≡ ok (some r)
      → IsDeserted m r
      → (me : Option ProcessId) → Fine (take_authority m request_id r before me).log
  taken-Fine r read d none = tt
  taken-Fine r read d (some me) =
      requested-Fine r read d me m.request_landing _ (
        write_cas_as-WriteAnswer m.request_landing m.now r (requested_record me request_id r)
          before)
