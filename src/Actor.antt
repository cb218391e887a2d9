-- ===== src/Actor.antt =====
-- The state of the operation actor of crates/pty/src/daemon/operation.rs, and its primitive moves:
-- `write`, `frame`, `hold`, `issue`, `abandon` and `finish`. What it does to the world is a log,
-- the newest entry first, in which each entry keeps what was on the disk when it happened. The
-- numbering of frames and the text of a frame's line are left out.
mod Tests
pub mod Outcome
pub mod Safe
pub mod Writes
pub mod Handlers
pub mod Transfers
pub mod Events
use pty.Base.{
  ℕ, suc, ◌+◌, Bool, true, false, not, ◌&&◌, ◌||◌, List, [], ◌∷◌, ◌++◌, Option, none, some, ◌==◌,
  if◌then◌else◌, Bytes, Result, ok, err, length,
}
use pty.Operation.Liveness.{ProcessId}
use pty.Operation.Record.{OperationRecord, State, Decision, Retirement, Transfer}
use pty.Operation.Occupancy.{Occupancy}
use pty.Operation.Store.{Disk, Landing, WriteError, write_cas_as}

pub data TicketKind : Type 0 where
  publish fork_child : TicketKind

pub data TicketState : Type 0 where
  issued committed completed revoked : TicketState

pub record Ticket : Type 0 where
  pub id : ℕ
  pub kind : TicketKind
  pub state : TicketState

pub data Stage : Type 0 where
  deciding starting held ready done : Stage

pub data Pending : Type 0 where
  decide : Pending
  transfer_commit : Bytes → Pending
  transfer_release : Pending
  transfer_ack : Bool → Pending

pub record ChildRecord : Type 0 where
  pub id : Option ProcessId
  pub pid : ℕ

pub data RejectCode : Type 0 where
  wrong_operation wrong_envelope wrong_incarnation unknown_command already_transferred : RejectCode
  not_held already_decided malformed : RejectCode

pub data FrameKind : Type 0 where
  accepted held ready : FrameKind
  decision : Option Decision → FrameKind
  retirement : Option Retirement → FrameKind
  transferred : Option Transfer → FrameKind
  command_rejected : RejectCode → Option Bytes → FrameKind

pub data WorkerCmd : Type 0 where
  publish : ℕ → Bytes → Bytes → Option Bytes → WorkerCmd
  fork_child : ℕ → WorkerCmd
  ready_point : WorkerCmd
  stop : ℕ → WorkerCmd

pub data Msg : Type 0 where
  operation_end : ℕ → Msg
  operation_transferred external_kill : Msg

pub data Effect : Type 0 where
  frame : FrameKind → OperationRecord → Effect
  worker : WorkerCmd → Effect
  message : Msg → Effect
  reply : Bool → Effect
  sync close release_creation_lock shut_gate kill_child unwind_publication : Effect
  release_gate : Effect
  mark_transferred : Effect

-- The writes of the actor, by their labels.
pub data Label : Type 0 where
  decision child_forking child_preparing held : Label
  retirement_requested retirement_terminal transfer_commit transfer_released : Label

pub data Barrier : Type 0 where
  before_decision transfer_before_commit transfer_committed_before_release : Barrier
  released_before_ack : Barrier

-- What the machine answers while one event is handled. No barrier is armed in a release build.
pub record Env : Type 0 where
  pub landing : Label → Landing
  pub now : Bytes
  pub armed : Barrier → Bool
  pub holds_creation_lock : Bool
  pub occupancy : Occupancy
  pub new_generation : Bytes
  pub child_stays : ProcessId → Bool
  pub child_outcome : ProcessId → Bytes
  pub row_outcome : Bytes
  pub evidence : Bytes
  pub gate_released : Bool

pub record Actor : Type 0 where
  pub disk : Disk
  pub locked : Bool
  pub op_record : OperationRecord
  pub me : ProcessId
  pub expected : Option Bytes
  pub runtime_id : Bytes
  pub tickets : List Ticket
  pub stage : Stage
  pub retiring : Bool
  pub serving : Bool
  pub published : Bool
  pub child : Option ChildRecord
  pub generation : Bytes
  pub pending : Option Pending
  pub deferred_transfer : Option Bytes
  pub syncing : Bool
  pub log : List (Effect × Disk)

abbrev pub emit : Effect → Actor → Actor
emit e a = record a { log = (e, a.disk) ∷ a.log }

abbrev pub send_frame : FrameKind → Actor → Actor
send_frame kind a = emit (frame kind a.op_record) a

abbrev pub reject : RejectCode → Option Bytes → Actor → Actor
reject code request_id a = send_frame (command_rejected code request_id) a

abbrev pub accept : Actor → Disk × Result OperationRecord WriteError → Actor × Bool
accept a (disk, ok w) = (record a { disk = disk; op_record = w }, true)
accept a (disk, err e) = (record a { disk = disk }, false)

unfoldable pub write : Env → OperationRecord → Label → Actor → Actor × Bool
write env next label a =
    if a.locked
    then accept a (write_cas_as (env.landing label) env.now a.op_record next a.disk)
    else (a, false)

-- A branch on what `write` returns.
abbrev pub branch : Actor × Bool → (Actor → Actor) → (Actor → Actor) → Actor
branch (a, true) k f = k a
branch (a, false) k f = f a

abbrev pub ended : ℕ → Actor → Actor
ended code a =
    if a.serving then emit (message (operation_end code)) a else emit (worker (stop code)) a

-- `finish`: the channel closes, the lock is dropped, and the process's work ends.
unfoldable pub finish : ℕ → Actor → Actor
finish code a = ended code (record (emit close a) { locked = false; stage = done })

unfoldable pub abandon : Actor → Actor
abandon a = finish 1 a

-- Whether a step is parked at a barrier; its thread is left out.
abbrev pub hold : Env → Barrier → Pending → Actor → (Actor → Actor) → Actor
hold env barrier p a k = if env.armed barrier then record a { pending = some p } else k a

abbrev pub issue : TicketKind → Actor → Actor
issue kind a = record a {
  tickets = a.tickets ++ record { id = length a.tickets + 1; kind = kind; state = issued } ∷ [];
}

abbrev pub next_ticket : Actor → ℕ
next_ticket a = length a.tickets + 1

abbrev pub find_ticket : ℕ → List Ticket → Option Ticket
find_ticket id [] = none
find_ticket id (t ∷ ts) = let rest = find_ticket id ts in if t.id == id then some t else rest

-- The first ticket of this number takes the new state.
abbrev pub mark_ticket : ℕ → TicketState → List Ticket → List Ticket
mark_ticket id s [] = []
mark_ticket id s (t ∷ ts) =
    let rest = mark_ticket id s ts in if t.id == id then record t { state = s } ∷ ts else t ∷ rest

abbrev is_committed : TicketState → Bool
is_committed committed = true
is_committed _ = false

abbrev pub any_committed : List Ticket → Bool
any_committed [] = false
any_committed (t ∷ ts) = is_committed t.state || any_committed ts

abbrev pub committed_in_flight : Actor → Bool
committed_in_flight a = any_committed a.tickets

abbrev pub in_transferred : State → Bool
in_transferred State.transferred = true
in_transferred _ = false

abbrev pub is_transferred : Actor → Bool
is_transferred a = in_transferred a.op_record.state
