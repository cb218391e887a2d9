-- ===== src/Operation/Retire/Ends.antt =====
-- The ends of `retire` of crates/pty-core/src/operation/settle.rs.
use pty.Base.{
  ◌≡◌, ◌≢◌, refl, not, List, [], Option, none, some, if_intro, Bytes, bytes_eq, Result, ok, err,
}
use pty.Operation.Liveness.{ProcessId}
use pty.Operation.Record.{
  OperationRecord, State, reserved, pending, cancelled, launched, transferred,
}
use pty.Operation.Store.{Disk, WriteError, read_file, ReadError}
use pty.Operation.Settle.{in_transferred}
use pty.Operation.Retire.{
  record_mismatch, wrong_envelope, record_unreadable, record_missing, lock_unavailable, refuse,
  snapshot_after, Code, record_write, live_writer, LockTry, taken, busy, absent, broken, Machine,
  Effect, Retired, incarnation_refusal, is_answered, actor_refusal,
}
use pty.Operation.Retire.Run.{
  terminal_answer, finish, on_requested, take_authority, unless_refused, with_record, on_read,
  on_lock, retire,
}
use pty.Operation.Retire.Warranted.{IsDeserted, actor_refusal-IsDeserted}

-- A property of every end of `retire`.
module _ (m : Machine) (operation_id sha256 request_id : Bytes) (incarnation : Option Bytes)
    (before : Disk) (P : Retired → Type 0) (on_refuse : (code : Code) → P (refuse before code))
    (on_snapshot : P (snapshot_after before))
    (on_taken : (r : OperationRecord)
      → read_file before ≡ ok (some r)
      → IsDeserted m r
      → P (take_authority m request_id r before m.me)) where
  refused_intro : (c : Option Code) (x : Retired) → (c ≡ none → P x) → P (unless_refused c before x)
  refused_intro none x p = p refl
  refused_intro (some code) x p = on_refuse code

  record_intro :
      (r : OperationRecord)
      → read_file before ≡ ok (some r)
      → P (with_record m operation_id sha256 request_id incarnation before r)
  record_intro r read =
      if_intro P (not (bytes_eq r.operation_id operation_id)) (λ e. on_refuse record_mismatch)
        (λ e.
          if_intro P (not (bytes_eq r.envelope_sha256 sha256)) (λ e2. on_refuse wrong_envelope)
            (λ e2.
              if_intro P (in_transferred r.state) (λ e3. on_refuse Code.transferred)
                (λ e3. refused_intro (incarnation_refusal r r.state incarnation) _ (λ n.
                  if_intro P (is_answered request_id r.state r.retirement) (λ e4. on_snapshot)
                    (λ e4.
                      refused_intro (actor_refusal m r) _
                        (λ d. on_taken r read (actor_refusal-IsDeserted m r d)))))))

  read_intro :
      (f : Result (Option OperationRecord) ReadError)
      → read_file before ≡ f
      → P (on_read m operation_id sha256 request_id incarnation before f)
  read_intro (err e) k = on_refuse record_unreadable
  read_intro (ok none) k = on_refuse record_missing
  read_intro (ok (some r)) k = record_intro r k

  lock_intro : (l : LockTry) → P (on_lock m operation_id sha256 request_id incarnation before l)
  lock_intro busy = on_refuse live_writer
  lock_intro absent = on_refuse record_missing
  lock_intro broken = on_refuse lock_unavailable
  lock_intro taken = read_intro (read_file before) refl

abbrev IsClean : Disk → Retired → Type 0
IsClean before x =
    (code : Code) → x.answer ≡ err code → code ≢ record_write → (x.disk ≡ before) × (x.log ≡ [])

terminal-answer :
    (log : List (Effect × Disk)) (x : Disk × Result OperationRecord WriteError) (code : Code)
    → (terminal_answer log x).answer ≡ err code
    → code ≡ record_write
terminal-answer log (d, ok w) code h = cc
terminal-answer log (d, err e) code h = cc

finish-answer :
    (m : Machine) (request_id : Bytes) (asked : OperationRecord) (d : Disk) (s : State)
    (code : Code)
    → (finish m request_id asked d s).answer ≡ err code
    → code ≡ record_write
finish-answer m request_id asked d reserved code h = terminal-answer [] _ code h
finish-answer m request_id asked d pending code h = terminal-answer [] _ code h
finish-answer m request_id asked d launched code h = terminal-answer _ _ code h
finish-answer m request_id asked d cancelled code h = cc
finish-answer m request_id asked d transferred code h = cc

requested-answer :
    (m : Machine) (request_id : Bytes) (x : Disk × Result OperationRecord WriteError) (code : Code)
    → (on_requested m request_id x).answer ≡ err code
    → code ≡ record_write
requested-answer m request_id (d, err e) code h = cc
requested-answer m request_id (d, ok asked) code h =
    finish-answer m request_id asked d asked.state code h

taken-IsClean :
    (m : Machine) (request_id : Bytes) (r : OperationRecord) (before : Disk) (me : Option ProcessId)
    → IsClean before (take_authority m request_id r before me)
taken-IsClean m request_id r before none code h n = (refl, refl)
taken-IsClean m request_id r before (some me) code h n =
    absurd (n (requested-answer m request_id _ code h))

module _ (m : Machine) (operation_id sha256 request_id : Bytes) (incarnation : Option Bytes)
    (before : Disk) where
  -- Where `retire` is refused, for another reason than that a write of the record failed, it left
  -- the disk as it was and did nothing.
  pub retire-refused :
      (code : Code)
      → (retire m operation_id sha256 request_id incarnation before).answer ≡ err code
      → code ≢ record_write
      → ((retire m operation_id sha256 request_id incarnation before).disk ≡ before)
        × ((retire m operation_id sha256 request_id incarnation before).log ≡ [])
  unfolding retire
  retire-refused code h n =
      lock_intro m operation_id sha256 request_id incarnation before (IsClean before)
        (λ c code e k. (refl, refl)) (λ code e k. (refl, refl))
        (λ r read d. taken-IsClean m request_id r before m.me) m.lock code h n
