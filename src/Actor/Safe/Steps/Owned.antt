-- ===== src/Actor/Safe/Steps/Owned.antt =====
-- The owner's input keeps the operation actor safe.
use mathlib.Core.Path.{subst}
use pty.Base.{
  arith, ◌≡◌, refl, true, false, not, ◌&&◌, ◌||◌, Option, none, some, if_intro, Bytes, is_some,
  codes,
}
use pty.Operation.Record.{Cause, owner_eof}
use pty.Actor.{
  Actor, Env, Stage, deciding, starting, held, ready, done, RejectCode, already_transferred,
  already_decided, not_held, wrong_incarnation, command_rejected, frame, emit, is_transferred,
}
use pty.Actor.Safe.{IsSafe, IsLive, IsLate, IsReady, emit-IsSafe, emit-IsLive}
use pty.Actor.Handlers.{is_done}
use pty.Actor.Safe.Decides.{cancel_before_launch-IsSafe}
use pty.Actor.Safe.Retires.{retire-IsSafe}
use pty.Actor.Safe.Hands.{start_transfer-IsSafe}
use pty.Actor.Safe.Steps.{similar-IsSafe}
use pty.Actor.Events.Owner.{
  OwnerInput, frame as line, eof, OwnerFrame, command, rejected, cancel, transfer, is_deciding,
  is_held, withdraw, waits_to_commit, names_it, admit_transfer, on_transfer, retire_unless,
  after_launch, on_owner, in_held_phase,
}

pub deciding-stage : (s : Stage) → is_deciding s ≡ true → s ≡ deciding
deciding-stage deciding h = refl
deciding-stage starting h = cc
deciding-stage held h = cc
deciding-stage ready h = cc
deciding-stage done h = cc

pub undecided-IsLate : (s : Stage) → is_deciding s ≡ false → is_done s ≡ false → IsLate s
undecided-IsLate starting h d = tt
undecided-IsLate held h d = tt
undecided-IsLate ready h d = tt
undecided-IsLate deciding h d = absurd (ground (arith, h))
undecided-IsLate done h d = absurd (ground (arith, d))

refused-IsSafe :
    (code : RejectCode) (id : Option Bytes) (a : Actor)
    → IsSafe a
    → IsSafe (emit (frame (command_rejected code id) a.op_record) a)
refused-IsSafe code id a h = emit-IsSafe (frame (command_rejected code id) a.op_record) a tt h

withdraw-IsSafe :
    (env : Env) (input : OwnerInput) (a : Actor)
    → IsSafe a
    → a.stage ≡ deciding
    → IsSafe (withdraw env input a)
withdraw-IsSafe env eof a h s =
    cancel_before_launch-IsSafe env owner_eof none none a h.traced
      (subst (λ x. IsLive x a) s h.live)
withdraw-IsSafe env (line OwnerFrame.malformed) a h s =
    cancel_before_launch-IsSafe env Cause.malformed none none _
      (refused-IsSafe RejectCode.malformed none a h).traced
      (emit-IsLive deciding _ a (subst (λ x. IsLive x a) s h.live))
withdraw-IsSafe env (line (command (cancel id))) a h s =
    cancel_before_launch-IsSafe env Cause.cancel (some id) none a h.traced
      (subst (λ x. IsLive x a) s h.live)
withdraw-IsSafe env (line (command (transfer id incarnation_id generation))) a h s =
    refused-IsSafe not_held (some id) a h
withdraw-IsSafe env (line (rejected code id)) a h s = refused-IsSafe code id a h

-- A held record is past the starting stage.
past_starting :
    (s : Stage) (a : Actor)
    → IsLive s a
    → is_deciding s ≡ false
    → is_done s ≡ false
    → is_held s ≡ false
    → in_held_phase a.op_record.phase ≡ true
    → IsReady s
past_starting ready a h d n k p = tt
past_starting starting a h d n k p = absurd (ground (arith, h.early, p))
past_starting held a h d n k p = absurd (ground (arith, k))
past_starting deciding a h d n k p = absurd (ground (arith, d))
past_starting done a h d n k p = absurd (ground (arith, n))

module _ (env : Env) (a : Actor) (h : IsSafe a) (running : is_done a.stage ≡ false)
    (launched : is_deciding a.stage ≡ false) where
  admit_transfer-IsSafe :
      (id : Bytes)
      → a.retiring ≡ false
      → in_held_phase a.op_record.phase ≡ true
      → IsSafe (admit_transfer env id a)
  admit_transfer-IsSafe id r p =
      if_intro IsSafe (is_held a.stage)
        (λ e.
          similar-IsSafe a (record a { deferred_transfer = some id }) refl
            (record {
              disks = refl;
              records = refl;
              retirings = refl;
              pendings = refl;
              ticketless = λ x. x;
            })
            refl h)
        (λ e.
          start_transfer-IsSafe env id a h (past_starting a.stage a h.live launched running e p) r)

  on_transfer-IsSafe :
      (id incarnation_id generation : Bytes)
      → IsSafe (on_transfer env id incarnation_id generation a)
  on_transfer-IsSafe id incarnation_id generation =
      if_intro IsSafe (is_transferred a) (λ e. refused-IsSafe already_transferred (some id) a h)
        (λ e.
          if_intro IsSafe (is_some a.deferred_transfer || waits_to_commit a.pending)
            (λ e2. refused-IsSafe already_decided (some id) a h)
            (λ e2.
              if_intro IsSafe
                (a.retiring || not (in_held_phase a.op_record.phase && is_some a.child))
                (λ e3. refused-IsSafe not_held (some id) a h)
                (λ e3.
                  if_intro IsSafe (not (names_it a.op_record.incarnation incarnation_id generation))
                    (λ e4. refused-IsSafe wrong_incarnation (some id) a h)
                    (λ e4. admit_transfer-IsSafe id (ground (arith, e3)) (ground (arith, e3))))))

  retire_unless-IsSafe :
      (cause : Cause) (id : Bytes) (b : Actor)
      → IsSafe b
      → IsLate b.stage
      → IsSafe (retire_unless env cause id b)
  retire_unless-IsSafe cause id b g late =
      if_intro IsSafe (not (is_transferred b) && not b.retiring)
        (λ e. retire-IsSafe env (some cause) id b g late) (λ e. g)

  after_launch-IsSafe : (input : OwnerInput) → IsSafe (after_launch env input a)
  after_launch-IsSafe (line (command (cancel id))) =
      if_intro IsSafe (is_transferred a) (λ e. refused-IsSafe already_transferred (some id) a h)
        (λ e.
          if_intro IsSafe a.retiring (λ e2. refused-IsSafe already_decided (some id) a h)
            (λ e2. retire-IsSafe env (some Cause.cancel) id a h late))
    where
      late : IsLate a.stage
      late = undecided-IsLate a.stage launched running
  after_launch-IsSafe (line (command (transfer id incarnation_id generation))) =
      on_transfer-IsSafe id incarnation_id generation
  after_launch-IsSafe (line (rejected code id)) = refused-IsSafe _ id a h
  after_launch-IsSafe (line OwnerFrame.malformed) =
      retire_unless-IsSafe Cause.malformed (codes "owner:malformed") _
        (refused-IsSafe RejectCode.malformed none a h) (undecided-IsLate a.stage launched running)
  after_launch-IsSafe eof =
      retire_unless-IsSafe owner_eof (codes "owner:eof") a h
        (undecided-IsLate a.stage launched running)

pub on_owner-IsSafe :
    (env : Env) (input : OwnerInput) (a : Actor)
    → IsSafe a
    → is_done a.stage ≡ false
    → IsSafe (on_owner env input a)
unfolding on_owner
on_owner-IsSafe env input a h running =
    if_intro IsSafe (is_deciding a.stage)
      (λ e. withdraw-IsSafe env input a h (deciding-stage a.stage e))
      (λ e. after_launch-IsSafe env a h running e input)
