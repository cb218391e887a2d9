-- ===== src/Operation/Settle/Closed/Judged.antt =====
-- The verdict itself, where it is closed.
use pty.Base.{
  ◌≡◌, refl, inl, inr, Bool, true, false, ◌&&◌, List, [], ◌∷◌, Option, none, some, Bytes, Result,
  ok, err, All, arith, if◌then◌else◌, bytes_eq, codes, ap,
}
use pty.Operation.Record.{
  OperationRecord, State, reserved, pending, cancelled, launched, is_refusal,
}
use pty.Operation.Store.{ReadError}
use pty.Operation.Settle.{in_transferred, Status}
use pty.Operation.Settle.Verdict.{
  unknown, closed, transferred, Verdict, Component, Sources, Locking, no_lock, unavailable, locked,
  writing, lock_loop, verified_end, durable_end, find_pending, find_unknown, all_verified, settled,
  by_unknown, by_pending, judge, components, on_record, on_lock, settle,
}
use pty.Operation.Settle.Closed.{
  IsEnded, IsClosed, writer_status-IsWriterGone, marker_component-whole, registry_component-IsIdle,
}
use pty.Operation.Settle.Closed.Gone.{participants-IsEachGone}

-- With nothing pending and nothing unknown every component is verified.
all_open :
    (cs : List Component)
    → find_pending cs ≡ none
    → find_unknown cs ≡ none
    → (all_verified cs ≡ true) × All (λ c. c.status ≡ Status.verified) cs
all_open [] p u = (refl, tt)
all_open (c ∷ cs) p u = by_status c.status refl p u (all_open cs)
  where
    by_status :
        (x : Status)
        → c.status ≡ x
        → elim x as (λ y. Option Bytes) [ Status.pending ↦ some c.name | _ ↦ find_pending cs ]
          ≡ none
        → elim x as (λ y. Option Bytes) [ Status.unknown ↦ some c.name | _ ↦ find_unknown cs ]
          ≡ none
        → (find_pending cs ≡ none
            → find_unknown cs ≡ none
            → (all_verified cs ≡ true) × All (λ c. c.status ≡ Status.verified) cs)
        → (all_verified (c ∷ cs) ≡ true) × All (λ c. c.status ≡ Status.verified) (c ∷ cs)
    by_status Status.verified e p u rest =
        let (a, all) = rest p u in (ground (arith, e, a), (e, all))
    by_status Status.pending e p u rest = cc
    by_status Status.unknown e p u rest = cc

refusal-closed :
    (r : OperationRecord) (further : Bool)
    → (settled r further cancelled).verdict ≡ closed
    → is_refusal r.decision ≡ true
refusal-closed r further h = ground arith

retired-closed :
    (r : OperationRecord) (further : Bool)
    → (settled r further launched).verdict ≡ closed
    → verified_end r.retirement ≡ true
retired-closed r further h = ground arith

settled-ended :
    (r : OperationRecord) (further : Bool) (s : State)
    → r.state ≡ s
    → (settled r further s).verdict ≡ closed
    → IsEnded r × (durable_end r s ≡ true) × ((settled r further s).no_further_effects ≡ further)
settled-ended r further reserved e h = cc
settled-ended r further pending e h = cc
settled-ended r further State.transferred e h = cc
settled-ended r further cancelled e h =
    let k = refusal-closed r further h in (inl (e, k), k, ground (arith, k))
settled-ended r further launched e h =
    let k = retired-closed r further h in (inr (e, k), k, ground (arith, k))

-- A verdict by the components is closed only with nothing open.
abbrev IsOpenless : OperationRecord → List Component → Type 0
IsOpenless r cs =
    IsEnded r × ((judge r cs).no_further_effects ≡ true) × All (λ c. c.status ≡ Status.verified) cs

by_unknown-closed :
    (r : OperationRecord) (further : Bool) (o : Option Bytes)
    → (by_unknown r further o).verdict ≡ closed
    → (o ≡ none)
      × IsEnded r
      × (durable_end r r.state ≡ true)
      × ((by_unknown r further o).no_further_effects ≡ further)
by_unknown-closed r further (some name) h = cc
by_unknown-closed r further none h =
    let (e, d, f) = settled-ended r further r.state refl h in (refl, e, d, f)

by_pending-closed :
    (r : OperationRecord) (further : Bool) (cs : List Component) (o : Option Bytes)
    → (by_pending r further cs o).verdict ≡ closed
    → (o ≡ none)
      × (find_unknown cs ≡ none)
      × IsEnded r
      × (durable_end r r.state ≡ true)
      × ((by_pending r further cs o).no_further_effects ≡ further)
by_pending-closed r further cs (some name) h = cc
by_pending-closed r further cs none h =
    let (u, e, d, f) = by_unknown-closed r further (find_unknown cs) h in (refl, u, e, d, f)

ended-untransferred : (r : OperationRecord) → IsEnded r → in_transferred r.state ≡ false
ended-untransferred r (inl (e, k)) = ap in_transferred e
ended-untransferred r (inr (e, k)) = ap in_transferred e

judge-closed :
    (r : OperationRecord) (cs : List Component) → (judge r cs).verdict ≡ closed → IsOpenless r cs
judge-closed r cs h = by_test (in_transferred r.state) refl h
  where
    further : Bool
    further = durable_end r r.state && all_verified cs

    by_test :
        (b : Bool)
        → in_transferred r.state ≡ b
        → (if b
            then record { verdict = transferred; kind = none; no_further_effects = false }
            else by_pending r further cs (find_pending cs)).verdict
          ≡ closed
        → IsOpenless r cs
    by_test true e h = cc
    by_test false e h =
        let (p, u, ended, d, f) = by_pending-closed r further cs (find_pending cs) h in
        let (a, all) = all_open cs p u in (ended, ground (arith, e, f, d, a), all)

module _ (digest operation_id sha256 : Bytes) (s : Sources) where
  judged-IsClosed :
      (r : OperationRecord)
      → s.file ≡ ok (some r)
      → bytes_eq r.operation_id operation_id ≡ true
      → bytes_eq r.envelope_sha256 sha256 ≡ true
      → (judge r (components digest s r)).verdict ≡ closed
      → IsClosed digest operation_id sha256 s (judge r (components digest s r)) r
  judged-IsClosed r e i k h =
      let (ended, further, (w, (p, (m, (g, u))))) = judge-closed r (components digest s r) h in
      let (whole, unmarked) = marker_component-whole s.scan digest m in
      let (listed, idle) =
        registry_component-IsIdle s.inventory digest r (ended-untransferred r ended) g in
      record {
        read = e;
        asked = i;
        enveloped = k;
        ended = ended;
        writer_gone = writer_status-IsWriterGone s r.writer.role r.writer.id w;
        all_gone = participants-IsEachGone s.table s.boot r p;
        scanned = whole;
        unmarked = unmarked;
        listed = listed;
        idle = idle;
        quiet = further;
      }

  record-IsClosed :
      (f : Result (Option OperationRecord) ReadError)
      → s.file ≡ f
      → (on_record digest operation_id sha256 s f).verdict ≡ closed
      → (r : OperationRecord) × IsClosed digest operation_id sha256 s
          (on_record digest operation_id sha256 s f)
          r
  record-IsClosed (err e) k h = cc
  record-IsClosed (ok none) k h = cc
  record-IsClosed (ok (some r)) k h =
      by_test (bytes_eq r.operation_id operation_id) (bytes_eq r.envelope_sha256 sha256) refl refl h
    where
      picked : Bool → Verdict
      picked b = if b then judge r (components digest s r) else record {
        verdict = unknown;
        kind = some (codes "record-mismatch");
        no_further_effects = false;
      }

      by_test :
          (a b : Bool)
          → bytes_eq r.operation_id operation_id ≡ a
          → bytes_eq r.envelope_sha256 sha256 ≡ b
          → (picked (a && b)).verdict ≡ closed
          → (r' : OperationRecord) × IsClosed digest operation_id sha256 s (picked (a && b)) r'
      by_test true true i j h = (r, judged-IsClosed r k i j h)
      by_test true false i j h = cc
      by_test false b i j h = cc

  lock-IsClosed :
      (l : Locking)
      → (on_lock digest operation_id sha256 s l).verdict ≡ closed
      → (r : OperationRecord) × IsClosed digest operation_id sha256 s
          (on_lock digest operation_id sha256 s l)
          r
  lock-IsClosed no_lock h = cc
  lock-IsClosed unavailable h = cc
  lock-IsClosed writing h = cc
  lock-IsClosed locked h = record-IsClosed s.file refl h

  -- Where `settle` answers closed, the record that was read is the one asked for, and says that
  -- nothing was launched or that what was is verified as retired; the writer it names, if it has a
  -- role, and every participant it names are shown to be gone, by another boot, another process
  -- under the number, a zombie, or a whole table without it; the scan of command lines is whole
  -- and none carries the operation's marker; the registry was read whole, and each session in it
  -- that carries the marker is the recorded one and is not running; and no further effects are
  -- promised.
  pub settle-IsClosed :
      (settle digest operation_id sha256 s).verdict ≡ closed
      → (r : OperationRecord) × IsClosed digest operation_id sha256 s
          (settle digest operation_id sha256 s)
          r
  unfolding settle
  settle-IsClosed h = lock-IsClosed (lock_loop 8 s.lock s.holder 0) h
