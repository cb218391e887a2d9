-- ===== src/Actor/Events/Owner.antt =====
-- `on_owner` of crates/pty/src/daemon/operation.rs, and the owner's input, which
-- crates/pty-core/src/operation/frames.rs reads.
use pty.Base.{
  Bool, true, false, not, ◌&&◌, ◌||◌, Option, none, some, if◌then◌else◌, Bytes, codes, bytes_eq,
  is_some,
}
use pty.Operation.Record.{Phase, Cause, owner_eof, Incarnation}
use pty.Actor.{
  Actor, Env, Stage, deciding, held, Pending, transfer_commit, RejectCode, already_transferred,
  already_decided, not_held, wrong_incarnation, reject, is_transferred,
}
use pty.Actor.Handlers.{cancel_before_launch, retire}
use pty.Actor.Transfers.{start_transfer}

pub data OwnerCommand : Type 0 where
  cancel : Bytes → OwnerCommand
  transfer : Bytes → Bytes → Bytes → OwnerCommand

pub data OwnerFrame : Type 0 where
  command : OwnerCommand → OwnerFrame
  rejected : RejectCode → Option Bytes → OwnerFrame
  malformed : OwnerFrame

pub data OwnerInput : Type 0 where
  frame : OwnerFrame → OwnerInput
  eof : OwnerInput

abbrev pub is_deciding : Stage → Bool
is_deciding deciding = true
is_deciding _ = false

abbrev pub is_held : Stage → Bool
is_held held = true
is_held _ = false

-- Before the decision any withdrawal wins at once.
abbrev pub withdraw : Env → OwnerInput → Actor → Actor
withdraw env eof a = cancel_before_launch env owner_eof none none a
withdraw env (frame malformed) a =
    cancel_before_launch env Cause.malformed none none (reject RejectCode.malformed none a)
withdraw env (frame (command (cancel request_id))) a =
    cancel_before_launch env Cause.cancel (some request_id) none a
withdraw env (frame (command (transfer request_id incarnation_id generation))) a =
    reject not_held (some request_id) a
withdraw env (frame (rejected code request_id)) a = reject code request_id a

abbrev pub waits_to_commit : Option Pending → Bool
waits_to_commit (some (transfer_commit request_id)) = true
waits_to_commit _ = false

abbrev pub in_held_phase : Phase → Bool
in_held_phase Phase.held = true
in_held_phase _ = false

abbrev pub names_it : Option Incarnation → Bytes → Bytes → Bool
names_it none incarnation_id generation = false
names_it (some i) incarnation_id generation =
    bytes_eq i.id incarnation_id && bytes_eq i.generation generation

-- Before `ready` a transfer waits.
abbrev pub admit_transfer : Env → Bytes → Actor → Actor
admit_transfer env request_id a =
    if is_held a.stage
    then record a { deferred_transfer = some request_id }
    else start_transfer env request_id a

abbrev pub on_transfer : Env → Bytes → Bytes → Bytes → Actor → Actor
on_transfer env request_id incarnation_id generation a =
    if is_transferred a
    then reject already_transferred (some request_id) a
    else if is_some a.deferred_transfer || waits_to_commit a.pending
    then reject already_decided (some request_id) a
    else if a.retiring || not (in_held_phase a.op_record.phase && is_some a.child)
    then reject not_held (some request_id) a
    else if not (names_it a.op_record.incarnation incarnation_id generation)
    then reject wrong_incarnation (some request_id) a
    else admit_transfer env request_id a

abbrev is_malformed : RejectCode → Bool
is_malformed RejectCode.malformed = true
is_malformed _ = false

abbrev pub retire_unless : Env → Cause → Bytes → Actor → Actor
retire_unless env cause request_id a =
    if not (is_transferred a) && not a.retiring then retire env (some cause) request_id a else a

abbrev pub after_launch : Env → OwnerInput → Actor → Actor
after_launch env (frame (command (cancel request_id))) a =
    if is_transferred a
    then reject already_transferred (some request_id) a
    else if a.retiring
    then reject already_decided (some request_id) a
    else retire env (some Cause.cancel) request_id a
after_launch env (frame (command (transfer request_id incarnation_id generation))) a =
    on_transfer env request_id incarnation_id generation a
after_launch env (frame (rejected code request_id)) a =
    reject (if is_transferred a && not (is_malformed code) then already_transferred else code)
      request_id a
after_launch env (frame malformed) a =
    retire_unless env Cause.malformed (codes "owner:malformed") (reject RejectCode.malformed none a)
after_launch env eof a = retire_unless env owner_eof (codes "owner:eof") a

unfoldable pub on_owner : Env → OwnerInput → Actor → Actor
on_owner env input a =
    if is_deciding a.stage then withdraw env input a else after_launch env input a
