-- ===== src/Operation/Settle/Closed.antt =====
-- What a closed verdict of `settle` of crates/pty-core/src/operation/settle.rs shows.
pub mod Gone
pub mod Judged
use pty.Base.{
  ◌≡◌, ◌⊎◌, refl, inl, inr, Bool, true, false, not, ◌&&◌, ◌||◌, List, [], ◌∷◌, Option, none, some,
  Bytes, Result, ok, err, All, arith, if◌then◌else◌, and_true, Bool-cases, bytes_eq, codes, sym,
  ◌∙◌, ap,
}
use pty.Operation.Record.{
  OperationRecord, State, reserved, pending, cancelled, launched, has_role, is_refusal, WriterRole,
}
use pty.Operation.Liveness.{ProcessId, liveness}
use pty.Operation.Store.{ReadError}
use pty.Operation.Settle.{
  in_transferred, Status, of_liveness, ArgvScan, is_whole, any_carries, Inventory, SessionInfo,
  SessionMetadata, is_text, is_recorded, writer_status, participants_component, marker_component,
  entry_status, entries_status, registry_component, after_entry,
}
use pty.Operation.Settle.Verdict.{
  Word, live, unknown, closed, retire_required, transferred, Verdict, Component, Sources, Locking,
  no_lock, unavailable, locked, writing, lock_loop, verified_end, durable_end, find_pending,
  find_unknown, all_verified, settled, by_unknown, by_pending, judge, components, on_record,
  on_lock, settle,
}
use pty.Operation.Settle.Closed.Gone.{
  IsGone, of_liveness-IsGone, IsEachGone, participants-IsEachGone,
}

-- The operation ended: nothing was launched, or what was is verified as retired.
abbrev pub IsEnded : OperationRecord → Type 0
IsEnded r =
    ((r.state ≡ cancelled) × (is_refusal r.decision ≡ true))
    ⊎ ((r.state ≡ launched) × (verified_end r.retirement ≡ true))

abbrev pub IsWriterGone : Sources → WriterRole → Option ProcessId → Type 0
IsWriterGone s role none = Unit
IsWriterGone s role (some id) = (has_role role ≡ false) ⊎ IsGone id s.table s.boot

-- A session that carries the operation's marker is the one recorded, and no daemon serves it.
abbrev pub IsIdle : Bytes → OperationRecord → SessionInfo → Option SessionMetadata → Type 0
IsIdle digest r e none = Unit
IsIdle digest r e (some m) =
    (is_text digest m.marker ≡ false) ⊎ ((is_recorded r.incarnation m ≡ true) × (e.running ≡ false))

pub record IsClosed (digest operation_id sha256 : Bytes) (s : Sources) (v : Verdict)
    (r : OperationRecord) : Type 0 where
  pub read : s.file ≡ ok (some r)
  pub asked : bytes_eq r.operation_id operation_id ≡ true
  pub enveloped : bytes_eq r.envelope_sha256 sha256 ≡ true
  pub ended : IsEnded r
  pub writer_gone : IsWriterGone s r.writer.role r.writer.id
  pub all_gone : IsEachGone r s.table s.boot
  pub scanned : is_whole s.scan ≡ true
  pub unmarked : any_carries digest s.scan.rows ≡ false
  pub listed : s.inventory.complete ≡ true
  pub idle : All (λ e. IsIdle digest r e e.metadata) s.inventory.entries
  pub quiet : v.no_further_effects ≡ true

pub writer_status-IsWriterGone :
    (s : Sources) (role : WriterRole) (id : Option ProcessId)
    → writer_status s.table s.boot role id ≡ Status.verified
    → IsWriterGone s role id
writer_status-IsWriterGone s role none h = tt
writer_status-IsWriterGone s role (some id) h = by_role (has_role role) refl h
  where
    by_role :
        (b : Bool)
        → has_role role ≡ b
        → (if b then of_liveness (liveness id s.table s.boot) else Status.verified)
          ≡ Status.verified
        → IsWriterGone s role (some id)
    by_role false e h = inl e
    by_role true e h = inr (of_liveness-IsGone id s.table s.boot h)

pub marker_component-whole :
    (scan : ArgvScan) (digest : Bytes)
    → marker_component scan digest ≡ Status.verified
    → (is_whole scan ≡ true) × (any_carries digest scan.rows ≡ false)
marker_component-whole scan digest h =
    by_tests (any_carries digest scan.rows) (is_whole scan) refl refl h
  where
    by_tests :
        (a w : Bool)
        → any_carries digest scan.rows ≡ a
        → is_whole scan ≡ w
        → (if a then Status.pending else if not w then Status.unknown else Status.verified)
          ≡ Status.verified
        → (is_whole scan ≡ true) × (any_carries digest scan.rows ≡ false)
    by_tests true w e f h = cc
    by_tests false true e f h = (f, e)
    by_tests false false e f h = cc

after_entry-idle :
    (r : OperationRecord) (e : SessionInfo) (m : SessionMetadata) (s : Status)
    → in_transferred r.state ≡ false
    → after_entry r e m s ≡ Status.verified
    → (s ≡ Status.verified) × (is_recorded r.incarnation m ≡ true) × (e.running ≡ false)
after_entry-idle r e m s i h = ground arith

entry_status-IsIdle :
    (digest : Bytes) (r : OperationRecord) (e : SessionInfo) (o : Option SessionMetadata)
    (s : Status)
    → in_transferred r.state ≡ false
    → entry_status digest r e o s ≡ Status.verified
    → (s ≡ Status.verified) × IsIdle digest r e o
entry_status-IsIdle digest r e none s i h = (h, tt)
entry_status-IsIdle digest r e (some m) s i h = by_mark (is_text digest m.marker) refl h
  where
    by_mark :
        (b : Bool)
        → is_text digest m.marker ≡ b
        → (if b then after_entry r e m s else s) ≡ Status.verified
        → (s ≡ Status.verified) × IsIdle digest r e (some m)
    by_mark false k h = (h, inl k)
    by_mark true k h = let (v, k, n) = after_entry-idle r e m s i h in (v, inr (k, n))

entries_status-IsIdle :
    (digest : Bytes) (r : OperationRecord) (es : List SessionInfo) (s : Status)
    → in_transferred r.state ≡ false
    → entries_status digest r es s ≡ Status.verified
    → (s ≡ Status.verified) × All (λ e. IsIdle digest r e e.metadata) es
entries_status-IsIdle digest r [] s i h = (h, tt)
entries_status-IsIdle digest r (e ∷ es) s i h =
    let (v, rest) = entries_status-IsIdle digest r es _ i h in
    let (w, idle) = entry_status-IsIdle digest r e e.metadata s i v in (w, (idle, rest))

pub registry_component-IsIdle :
    (inventory : Inventory) (digest : Bytes) (r : OperationRecord)
    → in_transferred r.state ≡ false
    → registry_component inventory digest r ≡ Status.verified
    → (inventory.complete ≡ true) × All (λ e. IsIdle digest r e e.metadata) inventory.entries
registry_component-IsIdle inventory digest r i h = by_test inventory.complete refl h
  where
    by_test :
        (b : Bool)
        → inventory.complete ≡ b
        → (if b then entries_status digest r inventory.entries Status.verified else Status.unknown)
          ≡ Status.verified
        → (inventory.complete ≡ true) × All (λ e. IsIdle digest r e e.metadata) inventory.entries
    by_test true e h = (e, (entries_status-IsIdle digest r inventory.entries Status.verified i h).1)
    by_test false e h = cc
