-- ===== src/Actor/Outcome.antt =====
-- What an operation has come to, as its record tells it, and the ways from one to the next: the
-- contract that the actor of crates/pty/src/daemon/operation.rs keeps. An effect is justified by
-- what is on the disk when it happens.
use mathlib.Core.Path.{subst}
use pty.Base.{
  Bytes, ◌≡◌, ◌⊎◌, refl, sym, inl, inr, Bool, true, false, List, [], ◌∷◌, Option, none, some,
  if◌then◌else◌,
}
use pty.Operation.Record.{
  OperationRecord, State, reserved, pending, cancelled, Retirement, RetirementPhase, requested,
  verified, incomplete,
}
use pty.Operation.Store.{Disk, stored}
use pty.Actor.{
  in_transferred, Effect, frame, worker, message, shut_gate, kill_child, unwind_publication,
  release_gate, mark_transferred, FrameKind, WorkerCmd, stop, Msg,
}

pub data Outcome : Type 0 where
  undecided refused launched retiring retired transferred unreadable : Outcome

abbrev of_retirement : Option Retirement → Outcome
of_retirement none = launched
of_retirement (some t) = elim t.phase [ requested ↦ retiring | _ ↦ retired ]

abbrev pub outcome_of : State → Option Retirement → Outcome
outcome_of reserved t = undecided
outcome_of pending t = undecided
outcome_of cancelled t = refused
outcome_of State.launched t = of_retirement t
outcome_of State.transferred t = transferred

abbrev pub outcome : OperationRecord → Outcome
outcome r = outcome_of r.state r.retirement

abbrev pub view : Disk → Outcome
view (some (stored r)) = outcome r
view _ = unreadable

infix 40 ◌⟶◌ ◌⟶*◌
pub data ◌⟶◌ : Outcome → Outcome → Type 0 where
  refuse : undecided ⟶ refused
  launch : undecided ⟶ launched
  request : launched ⟶ retiring
  conclude : retiring ⟶ retired
  hand_over : launched ⟶ transferred

pub data ◌⟶*◌ : Outcome → Outcome → Type 0 where
  here : {o : Outcome} → o ⟶* o
  onward : {o p q : Outcome} → o ⟶* p → p ⟶ q → o ⟶* q

-- One write takes at most one edge.
abbrev pub Follows : Outcome → Outcome → Type 0
Follows o p = (o ≡ p) ⊎ (o ⟶ p)

abbrev pub IsOneOf : Outcome → List Outcome → Type 0
IsOneOf o [] = ⊥
IsOneOf o (p ∷ ps) = (o ≡ p) ⊎ IsOneOf o ps

-- A frame that tells of progress tells what is on the disk.
abbrev pub IsTold : FrameKind → OperationRecord → Disk → Type 0
IsTold FrameKind.accepted r d = Unit
IsTold FrameKind.held r d = (d ≡ some (stored r)) × (outcome r ≡ launched)
IsTold FrameKind.ready r d = (d ≡ some (stored r)) × (outcome r ≡ launched)
IsTold (FrameKind.decision c) r d =
    (d ≡ some (stored r)) × IsOneOf (outcome r) (refused ∷ launched ∷ retiring ∷ [])
IsTold (FrameKind.retirement t) r d = (d ≡ some (stored r)) × (outcome r ≡ retired)
IsTold (FrameKind.transferred t) r d = view d ≡ transferred
IsTold (FrameKind.command_rejected code request_id) r d = Unit

abbrev pub IsCommanded : WorkerCmd → Disk → Type 0
IsCommanded (stop code) d = Unit
IsCommanded _ d = view d ≡ launched

abbrev pub IsSent : Msg → Disk → Type 0
IsSent (Msg.operation_end code) d = Unit
IsSent _ d = view d ≡ transferred

abbrev pub IsJustified : Effect → Disk → Type 0
IsJustified (frame kind r) d = IsTold kind r d
IsJustified (worker command) d = IsCommanded command d
IsJustified (message m) d = IsSent m d
IsJustified shut_gate d = view d ≡ retiring
IsJustified kill_child d = view d ≡ retiring
IsJustified unwind_publication d = view d ≡ retiring
IsJustified release_gate d = view d ≡ transferred
IsJustified mark_transferred d = view d ≡ transferred
IsJustified _ d = Unit

pub outcome-requested :
    (s : State) (t : Option Retirement) (id evidence : Bytes)
    → outcome_of s t ≡ launched
    → outcome_of s (some (record { request_id = id; phase = requested; evidence = evidence }))
      ≡ retiring
outcome-requested State.launched t id evidence h = refl
outcome-requested reserved t id evidence h = cc
outcome-requested pending t id evidence h = cc
outcome-requested cancelled t id evidence h = cc
outcome-requested State.transferred t id evidence h = cc

pub outcome-ended :
    (s : State) (t : Option Retirement) (good : Bool) (id evidence : Bytes)
    → outcome_of s t ≡ retiring
    → outcome_of s (
        some (record {
          request_id = id;
          phase = if good then verified else incomplete;
          evidence = evidence;
        }))
      ≡ retired
outcome-ended State.launched t true id evidence h = refl
outcome-ended State.launched t false id evidence h = refl
outcome-ended reserved t good id evidence h = cc
outcome-ended pending t good id evidence h = cc
outcome-ended cancelled t good id evidence h = cc
outcome-ended State.transferred t good id evidence h = cc

pub extend : {o p q : Outcome} → o ⟶* p → Follows p q → o ⟶* q
extend {o = o} path (inl e) = subst (λ x. o ⟶* x) e path
extend path (inr edge) = onward path edge

pub along : {o o' p p' : Outcome} → o ≡ o' → p ≡ p' → o' ⟶ p' → Follows o p
along {o = o} {p' = p'} h k edge =
    subst (λ y. Follows o y) (sym k) (subst (λ x. Follows x p') (sym h) (inr edge))

phase-untransferred :
    (p : RetirementPhase)
    → elim p as (λ x. Outcome) [ requested ↦ retiring | _ ↦ retired ] ≡ transferred
    → ⊥
phase-untransferred requested h = cc
phase-untransferred verified h = cc
phase-untransferred incomplete h = cc

retirement-untransferred : (t : Option Retirement) → of_retirement t ≡ transferred → ⊥
retirement-untransferred none h = cc
retirement-untransferred (some t) h = phase-untransferred t.phase h

pub outcome-transferred :
    (s : State) (t : Option Retirement) → outcome_of s t ≡ transferred → in_transferred s ≡ true
outcome-transferred State.transferred t h = refl
outcome-transferred State.launched t h = absurd (retirement-untransferred t h)
outcome-transferred reserved t h = cc
outcome-transferred pending t h = cc
outcome-transferred cancelled t h = cc
