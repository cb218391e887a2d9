-- ===== src/Operation/Record.antt =====
-- `OperationRecord` and what it holds, `reserved` and `check`, of
-- crates/pty-core/src/operation/record.rs. A JSON value is the text it is printed as, and the
-- current time is an argument.
use Prim.Native.String.{String}
use pty.Base.{
  ℕ, Bool, true, false, not, ◌&&◌, ◌||◌, ◌++◌, Option, none, some, if◌then◌else◌, Bytes, codes,
  Result, ok, err, is_some, is_none,
}
use pty.Operation.Liveness.{ProcessId}

pub data WriterRole : Type 0 where
  no_role launcher producer recovery : WriterRole

pub record Writer : Type 0 where
  pub role : WriterRole
  pub id : Option ProcessId

abbrev pub no_writer : Writer
no_writer = record { role = no_role; id = none }

abbrev pub writer_of : WriterRole → ProcessId → Writer
writer_of role id = record { role = role; id = some id }

pub data State : Type 0 where
  reserved pending cancelled launched transferred : State

pub data Phase : Type 0 where
  reserved claimed daemon_forking daemon_gated child_forking child_preparing held : Phase

pub data Cause : Type 0 where
  cancel owner_eof malformed occupied predecessor_mismatch withdrawn : Cause
  producer_lost launch refused : Cause

pub record Decision : Type 0 where
  pub cause : Cause
  pub at : Bytes
  pub request_id : Option Bytes
  pub observed : Option Bytes

pub record Participants : Type 0 where
  pub launcher : Option ProcessId
  pub producer : Option ProcessId
  pub child : Option ProcessId

abbrev pub no_participants : Participants
no_participants = record { launcher = none; producer = none; child = none }

pub record Incarnation : Type 0 where
  pub id : Bytes
  pub runtime_id : Bytes
  pub generation : Bytes
  pub daemon : ProcessId
  pub child : Option ProcessId

pub data RetirementPhase : Type 0 where
  requested verified incomplete : RetirementPhase

pub record Retirement : Type 0 where
  pub request_id : Bytes
  pub phase : RetirementPhase
  pub evidence : Bytes

pub record Transfer : Type 0 where
  pub request_id : Bytes
  pub committed_at : Bytes
  pub released : Option Bool

pub record OperationRecord : Type 0 where
  pub schema : Bytes
  pub revision : ℕ
  pub updated_at : Bytes
  pub operation_id : Bytes
  pub envelope : Bytes
  pub envelope_sha256 : Bytes
  pub writer : Writer
  pub state : State
  pub phase : Phase
  pub decision : Option Decision
  pub participants : Participants
  pub incarnation : Option Incarnation
  pub retirement : Option Retirement
  pub transfer : Option Transfer

abbrev pub record_schema : Bytes
record_schema = codes "pty.launch-operation.v1"

unfoldable pub reserved_record : Bytes → Bytes → Bytes → Bytes → OperationRecord
reserved_record now operation_id value sha256 = record {
  schema = record_schema;
  revision = 1;
  updated_at = now;
  operation_id = operation_id;
  envelope = value;
  envelope_sha256 = sha256;
  writer = no_writer;
  state = State.reserved;
  phase = Phase.reserved;
  decision = none;
  participants = no_participants;
  incarnation = none;
  retirement = none;
  transfer = none;
}

abbrev is_requested : Option Retirement → Bool
is_requested none = false
is_requested (some t) = elim t.phase [ requested ↦ true | _ ↦ false ]

abbrev pub is_terminal : Option Retirement → Bool
is_terminal none = false
is_terminal (some t) = elim t.phase [ requested ↦ false | _ ↦ true ]

abbrev pub has_role : WriterRole → Bool
has_role no_role = false
has_role _ = true

abbrev is_recovery : WriterRole → Bool
is_recovery recovery = true
is_recovery _ = false

abbrev is_launcher : WriterRole → Bool
is_launcher launcher = true
is_launcher _ = false

-- `cause == Some(Cause::Launch)`.
abbrev pub is_launch : Option Decision → Bool
is_launch none = false
is_launch (some d) = elim d.cause [ launch ↦ true | _ ↦ false ]

-- `cause.is_some_and(|cause| cause != Cause::Launch)`.
abbrev pub is_refusal : Option Decision → Bool
is_refusal none = false
is_refusal (some d) = elim d.cause [ launch ↦ false | _ ↦ true ]

abbrev has_no_participants : Participants → Bool
has_no_participants p = is_none p.launcher && (is_none p.producer && is_none p.child)

abbrev before_decision : Phase → Bool
before_decision claimed = true
before_decision daemon_forking = true
before_decision daemon_gated = true
before_decision _ = false

abbrev after_decision : Phase → Bool
after_decision daemon_gated = true
after_decision child_forking = true
after_decision child_preparing = true
after_decision held = true
after_decision _ = false

-- The arms of the match on the state.
abbrev fits : OperationRecord → State → Bool
fits r reserved =
    elim r.phase [ reserved ↦ true | _ ↦ false ]
    && is_none r.decision
    && is_none r.incarnation
    && is_none r.transfer
    && has_no_participants r.participants
    && (not (has_role r.writer.role) || is_recovery r.writer.role)
    && not (is_terminal r.retirement)
fits r pending =
    before_decision r.phase
    && is_none r.decision
    && is_none r.incarnation
    && is_none r.transfer
    && is_some r.participants.launcher
    && has_role r.writer.role
    && not (is_terminal r.retirement)
fits r cancelled =
    is_refusal r.decision
    && is_none r.incarnation
    && is_none r.transfer
    && not (has_role r.writer.role)
    && not (is_requested r.retirement)
fits r launched =
    is_launch r.decision
    && is_some r.incarnation
    && is_none r.transfer
    && after_decision r.phase
    && (has_role r.writer.role || is_terminal r.retirement)
    && not (is_launcher r.writer.role)
fits r transferred =
    is_launch r.decision
    && is_some r.incarnation
    && is_some r.transfer
    && elim r.phase [ held ↦ true | _ ↦ false ]
    && is_none r.retirement
    && elim r.writer.role [ producer ↦ true | no_role ↦ true | _ ↦ false ]

abbrev fail : String → Result Unit Bytes
fail what = err (codes "inconsistent record: " ++ codes what)

abbrev disagree : Bool → Bool → Bool
disagree true b = not b
disagree false b = b

unfoldable pub check : OperationRecord → Result Unit Bytes
check r =
    if disagree (not (has_role r.writer.role)) (is_none r.writer.id)
    then fail "writer role and id disagree"
    else if is_recovery r.writer.role && not (is_requested r.retirement)
    then fail "a recovery writer without a requested retirement"
    else if not (has_role r.writer.role) && is_requested r.retirement
    then fail "a requested retirement without a writer"
    else if is_terminal r.retirement && has_role r.writer.role
    then fail "a finished retirement still has a writer"
    else if fits r r.state
    then ok tt
    else fail "state, phase, writer and fields disagree"

abbrev pub is_ok : Result Unit Bytes → Bool
is_ok (ok _) = true
is_ok (err _) = false

-- Whether `check` finds nothing to say.
unfoldable pub is_consistent : OperationRecord → Bool
unfolding check
is_consistent r = is_ok (check r)
