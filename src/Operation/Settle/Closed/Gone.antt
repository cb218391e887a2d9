-- ===== src/Operation/Settle/Closed/Gone.antt =====
-- What shows that a recorded process is gone, by `ProcessId::liveness` of
-- crates/pty-core/src/operation/record.rs.
use pty.Base.{
  ◌≡◌, ◌⊎◌, refl, inl, inr, Bool, true, false, not, ◌&&◌, List, [], ◌∷◌, ◌++◌, Option, none, some,
  Bytes, All, arith, or_true, bytes_eq, bytes_eq_iff, sym, ◌∙◌, ap, if◌then◌else◌,
}
use pty.Process.Table.{
  Row, ProcTable, Answer, known, not_present, unknown, row, is_complete, is_zombie,
}
use pty.Operation.Record.{OperationRecord}
use pty.Operation.Liveness.{
  as_i32, ProcessId, Liveness, live, gone, unknown_because, is_legacy, row_liveness,
  answer_liveness, liveness_in, liveness,
}
use pty.Operation.Settle.{
  Status, of_liveness, same_process, contains, add_id, daemon_of, child_of, recorded_ids, worse,
  ids_status, participants_component,
}

-- Another boot, another process under the number or a zombie, or no such number in a whole table.
abbrev pub IsGoneBy : ProcessId → ProcTable → Bytes → Type 0
IsGoneBy id table boot =
    ((bytes_eq boot id.boot_id ≡ false) × (is_legacy id.boot_id ≡ false))
    ⊎ (((r : Row) × (token : Bytes) × (row table (as_i32 id.pid) ≡ known r)
          × (r.identity ≡ some token)
          × ((bytes_eq token id.start_token ≡ false) ⊎ (is_zombie r ≡ true)))
        ⊎ ((row table (as_i32 id.pid) ≡ not_present) × (is_complete table ≡ true)))

abbrev pub IsGone : ProcessId → ProcTable → Option Bytes → Type 0
IsGone id table none = ⊥
IsGone id table (some boot) = IsGoneBy id table boot

row-gone :
    (start : Bytes) (legacy : Bool) (r : Row) (token : Bytes)
    → row_liveness start legacy r (some token) ≡ gone
    → (bytes_eq token start ≡ false) ⊎ (is_zombie r ≡ true)
row-gone start legacy r token h = ground arith

module _ (id : ProcessId) (table : ProcTable) (boot : Bytes) where
  by_identity :
      (r : Row) (o : Option Bytes)
      → row table (as_i32 id.pid) ≡ known r
      → r.identity ≡ o
      → row_liveness id.start_token (is_legacy id.boot_id) r o ≡ gone
      → IsGoneBy id table boot
  by_identity r none e k h = cc
  by_identity r (some token) e k h =
      inr (inl (r, token, e, k, row-gone id.start_token (is_legacy id.boot_id) r token h))

  by_answer :
      (a : Answer Row)
      → row table (as_i32 id.pid) ≡ a
      → answer_liveness id.start_token (is_legacy id.boot_id) (is_complete table) a ≡ gone
      → IsGoneBy id table boot
  by_answer (known r) e h = by_identity r r.identity e refl h
  by_answer not_present e h = inr (inr (e, ground arith))
  by_answer (unknown u) e h = cc

  liveness_in-gone : liveness_in id table boot ≡ gone → IsGoneBy id table boot
  liveness_in-gone h = by_boot (bytes_eq boot id.boot_id) (is_legacy id.boot_id) refl refl h
    where
      by_boot :
          (b l : Bool)
          → bytes_eq boot id.boot_id ≡ b
          → is_legacy id.boot_id ≡ l
          → (if not b && not l
              then gone
              else answer_liveness id.start_token
                  (is_legacy id.boot_id)
                  (is_complete table)
                  (row table (as_i32 id.pid)))
            ≡ gone
          → IsGoneBy id table boot
      by_boot false false e k h = inl (e, k)
      by_boot true l e k h = by_answer (row table (as_i32 id.pid)) refl h
      by_boot false true e k h = by_answer (row table (as_i32 id.pid)) refl h

liveness-gone :
    (id : ProcessId) (table : ProcTable) (boot : Option Bytes)
    → liveness id table boot ≡ gone
    → IsGone id table boot
unfolding liveness
liveness-gone id table none h = absurd (ground arith)
liveness-gone id table (some boot) h = liveness_in-gone id table boot h

of_liveness-verified : (l : Liveness) → of_liveness l ≡ Status.verified → l ≡ gone
of_liveness-verified gone h = refl
of_liveness-verified live h = cc
of_liveness-verified (unknown_because reason) h = cc

pub of_liveness-IsGone :
    (id : ProcessId) (table : ProcTable) (boot : Option Bytes)
    → of_liveness (liveness id table boot) ≡ Status.verified
    → IsGone id table boot
of_liveness-IsGone id table boot h =
    liveness-gone id table boot (of_liveness-verified (liveness id table boot) h)

worse-verified :
    (s : Status) (l : Liveness) → worse s l ≡ Status.verified → (s ≡ Status.verified) × (l ≡ gone)
worse-verified Status.verified gone h = (refl, refl)
worse-verified Status.verified live h = cc
worse-verified Status.verified (unknown_because reason) h = cc
worse-verified Status.pending gone h = cc
worse-verified Status.pending live h = cc
worse-verified Status.pending (unknown_because reason) h = cc
worse-verified Status.unknown gone h = cc
worse-verified Status.unknown live h = cc
worse-verified Status.unknown (unknown_because reason) h = cc

same_process-eq : (a b : ProcessId) → same_process a b ≡ true → a ≡ b
same_process-eq a b h =
    ground (arith, bytes_eq_iff a.start_token b.start_token, bytes_eq_iff a.boot_id b.boot_id)

abbrev IsGoneOf : ProcTable → Option Bytes → Option ProcessId → Type 0
IsGoneOf table boot none = Unit
IsGoneOf table boot (some id) = IsGone id table boot

-- Every process that the record names.
pub record IsEachGone (r : OperationRecord) (table : ProcTable) (boot : Option Bytes) : Type 0 where
  pub launcher : IsGoneOf table boot r.participants.launcher
  pub producer : IsGoneOf table boot r.participants.producer
  pub child : IsGoneOf table boot r.participants.child
  pub daemon : IsGoneOf table boot (daemon_of r.incarnation)
  pub held_child : IsGoneOf table boot (child_of r.incarnation)

module _ (table : ProcTable) (boot : Option Bytes) where
  ids_status-verified :
      (s : Status) (ids : List ProcessId)
      → ids_status table boot s ids ≡ Status.verified
      → (s ≡ Status.verified) × All (λ id. liveness id table boot ≡ gone) ids
  ids_status-verified s [] h = (h, tt)
  ids_status-verified s (id ∷ ids) h =
      let (w, rest) = ids_status-verified (worse s (liveness id table boot)) ids h in
      let (e, g) = worse-verified s (liveness id table boot) w in (e, (g, rest))

  contains-gone :
      (id : ProcessId) (ids : List ProcessId)
      → contains id ids ≡ true
      → All (λ x. liveness x table boot ≡ gone) ids
      → liveness id table boot ≡ gone
  contains-gone id [] h a = cc
  contains-gone id (x ∷ xs) h (g, rest) =
      by_case (or_true (same_process x id) (contains id xs) h) (λ e. contains-gone id xs e rest)
    where
      by_case :
          (same_process x id ≡ true) ⊎ (contains id xs ≡ true)
          → (contains id xs ≡ true → liveness id table boot ≡ gone)
          → liveness id table boot ≡ gone
      by_case (inl e) more = ap (λ y. liveness y table boot) (sym (same_process-eq x id e)) ∙ g
      by_case (inr e) more = more e

  append-gone :
      (ids : List ProcessId) (id : ProcessId)
      → All (λ x. liveness x table boot ≡ gone) (ids ++ id ∷ [])
      → All (λ x. liveness x table boot ≡ gone) ids × (liveness id table boot ≡ gone)
  append-gone [] id (g, rest) = (tt, g)
  append-gone (x ∷ xs) id (g, rest) = let (a, b) = append-gone xs id rest in ((g, a), b)

  add_id-gone :
      (o : Option ProcessId) (ids : List ProcessId)
      → All (λ x. liveness x table boot ≡ gone) (add_id o ids)
      → All (λ x. liveness x table boot ≡ gone) ids × IsGoneOf table boot o
  add_id-gone none ids a = (a, tt)
  add_id-gone (some id) ids a = by_test (contains id ids) refl a
    where
      by_test :
          (b : Bool)
          → contains id ids ≡ b
          → All (λ x. liveness x table boot ≡ gone) (if b then ids else ids ++ id ∷ [])
          → All (λ x. liveness x table boot ≡ gone) ids × IsGone id table boot
      by_test true e a = (a, liveness-gone id table boot (contains-gone id ids e a))
      by_test false e a = let (x, y) = append-gone ids id a in (x, liveness-gone id table boot y)

  pub participants-IsEachGone :
      (r : OperationRecord)
      → participants_component r table boot ≡ Status.verified
      → IsEachGone r table boot
  participants-IsEachGone r h =
      let (e, all) = ids_status-verified Status.verified (recorded_ids r) h in
      let (a, held_child) = add_id-gone (child_of r.incarnation) _ all in
      let (b, daemon) = add_id-gone (daemon_of r.incarnation) _ a in
      let (c, child) = add_id-gone r.participants.child _ b in
      let (d, producer) = add_id-gone r.participants.producer _ c in
      let (f, launcher) = add_id-gone r.participants.launcher _ d in
      record {
        launcher = launcher;
        producer = producer;
        child = child;
        daemon = daemon;
        held_child = held_child;
      }
