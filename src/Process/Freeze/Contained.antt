-- ===== src/Process/Freeze/Contained.antt =====
-- When `freeze_descendants` calls a tree contained, it is.
use mathlib.Core.Path.{subst}
use pty.Base.{
  not, if◌then◌else◌, ℕ, zero, suc, ◌≡◌, refl, arith, Bool, true, false, not, List, Option, none,
  some, if◌then◌else◌, ℤ, inl, inr, Bool-cases,
}
use pty.Process.Table.{is_complete, ProcTable}
use pty.Process.Snapshot.{
  ProcessIdentity, Reason, TreeSnapshot, complete, unavailable, identities, snapshot_is_complete,
  complete_snapshot_from_table, merge_identities, same_identities,
}
use pty.Process.Freeze.{
  Environment, Attempt, answer, again, attempt, freeze_loop, why_unavailable, attempts_for,
  freeze_descendants,
}
use pty.Process.Snapshot.Complete.{complete_facts}
use pty.Process.Freeze.Frozen.{
  IsFrozen, CoversWalk, Establishes, live-IsFrozen, live-CoversWalk, attempt-Establishes,
}

-- Two reads in a row that show the tree stopped and agree, the second of a complete table in which
-- each descendant is a corpse or among `ids`.
pub record IsContained (env : Environment) (root : ℤ) (ids : List ProcessIdentity) : Type 0 where
  pub at : ℕ
  pub earlier : List ProcessIdentity
  pub first_frozen : IsFrozen root (env.reads at) earlier
  pub then_frozen : IsFrozen root (env.reads (suc at)) ids
  pub agree : same_identities earlier ids ≡ true
  pub whole : is_complete (env.reads (suc at)) ≡ true
  pub covers : CoversWalk root (env.reads (suc at)) ids

-- What the loop knows of the read before.
abbrev PrevFrozen : Environment → ℤ → ℕ → Option (List ProcessIdentity) → Type 0
PrevFrozen env root made none = Unit
PrevFrozen env root made (some earlier) =
    (m : ℕ) × (made ≡ suc m) × IsFrozen root (env.reads m) earlier

again-PrevFrozen :
    (env : Environment) (root : ℤ) (first : Option Reason) (made : ℕ)
    (merged : List ProcessIdentity) (previous previous' : Option (List ProcessIdentity))
    (running : Bool) (next : TreeSnapshot)
    → Establishes root first (env.reads made) merged previous next (again previous' running)
    → PrevFrozen env root (suc made) previous'
again-PrevFrozen env root first made merged previous none running next e = tt
again-PrevFrozen env root first made merged previous (some ids) running next e =
    (made, refl, live-IsFrozen root (env.reads made) merged ids e.0 e.1)

answer-IsContained :
    (env : Environment) (root : ℤ) (made : ℕ) (observed ids : List ProcessIdentity)
    (previous : Option (List ProcessIdentity)) (next : TreeSnapshot)
    → PrevFrozen env root made previous
    → complete_snapshot_from_table root (env.reads made) ≡ next
    → Establishes root none
        (env.reads made)
        (merge_identities observed (identities next))
        previous
        next
        (answer (complete ids))
    → IsContained env root ids
unfolding identities snapshot_is_complete
answer-IsContained env root made observed ids none next p c e = cc e.4
answer-IsContained env root made observed ids (some earlier) (unavailable why l) p c e = cc e.1
answer-IsContained env root made observed ids (some earlier) (complete l) (m, is, frozen) c e =
    record {
      at = m;
      earlier = earlier;
      first_frozen = frozen;
      then_frozen = subst (λ k. IsFrozen root (env.reads k) ids) is now;
      agree = e.4;
      whole =
          subst (λ k. is_complete (env.reads k) ≡ true) is
            (complete_facts root (env.reads made) l c).1;
      covers =
          subst (λ k. CoversWalk root (env.reads k) ids) is
            (live-CoversWalk root (env.reads made) observed l ids c e.2);
    }
  where
    now : IsFrozen root (env.reads made) ids
    now = live-IsFrozen root (env.reads made) (merge_identities observed l) ids e.2 e.3

freeze_loop-IsContained :
    (env : Environment) (root : ℤ) (first : Option Reason) (left made : ℕ)
    (observed : List ProcessIdentity) (previous : Option (List ProcessIdentity)) (running : Bool)
    {ids : List ProcessIdentity}
    → PrevFrozen env root made previous
    → freeze_loop env root first left made observed previous running ≡ complete ids
    → (first ≡ none) × IsContained env root ids
unfolding freeze_loop
freeze_loop-IsContained env root first zero made observed previous running p h = cc
freeze_loop-IsContained env root first (suc left) made observed previous running {ids} p h =
    by_attempt (attempt root first observed (env.signalled made) t merged previous running next)
      refl
      (attempt-Establishes root first observed (env.signalled made) t merged previous running next)
      (λ previous' running' p' h'.
        freeze_loop-IsContained env root first left (suc made) merged previous' running' p' h')
  where
    t : ProcTable
    t = env.reads made

    next : TreeSnapshot
    next = complete_snapshot_from_table root t

    merged : List ProcessIdentity
    merged = merge_identities observed (identities next)

    by_attempt :
        (a : Attempt)
        → attempt root first observed (env.signalled made) t merged previous running next ≡ a
        → Establishes root first t merged previous next a
        → ((previous' : Option (List ProcessIdentity)) (running' : Bool)
            → PrevFrozen env root (suc made) previous'
            → freeze_loop env root first left (suc made) merged previous' running' ≡ complete ids
            → (first ≡ none) × IsContained env root ids)
        → (first ≡ none) × IsContained env root ids
    by_attempt (answer (unavailable why l)) e est ih =
        let k : unavailable why l ≡ complete ids = rw (e, freeze_loop) at h in cc k
    by_attempt (answer (complete l)) e est ih =
        let k : complete l ≡ complete ids = rw (e, freeze_loop) at h in
        let same : l ≡ ids = ground arith in
        (
          est.0,
          subst (IsContained env root) same (
              answer-IsContained env root made observed l previous next p refl
                (refl, est.1, est.2, est.3, est.4)),
        )
    by_attempt (again previous' running') e est ih =
        ih previous' running'
          (again-PrevFrozen env root first made merged previous previous' running' next est)
          (rw (e, freeze_loop) at h)

why_unavailable-none : (s : TreeSnapshot) → why_unavailable s ≡ none → snapshot_is_complete s ≡ true
unfolding snapshot_is_complete
why_unavailable-none (complete ids) h = refl
why_unavailable-none (unavailable why ids) h = cc

if_not-true :
    (b : Bool) (x : TreeSnapshot) {y z : TreeSnapshot}
    → b ≡ true
    → (if not b then x else y) ≡ z
    → y ≡ z
if_not-true true x e h = h
if_not-true false x e h = cc

if_not-false :
    (b : Bool) {x z : TreeSnapshot} (y : TreeSnapshot)
    → b ≡ false
    → (if not b then x else y) ≡ z
    → x ≡ z
if_not-false false y e h = h
if_not-false true y e h = cc

impossible {ℓ} :
    {A : Type ℓ} {why : Reason} {l ids : List ProcessIdentity}
    → unavailable why l ≡ complete ids
    → A
impossible h = cc

-- A complete answer is containment: the root could be stopped, the first read was complete too,
-- and two reads in a row show the root and the same processes stopped, the later one, of a
-- complete table, in which each descendant is a corpse or one of the answer, under its identity.
pub freeze_descendants-IsContained :
    (env : Environment) (root : ℤ) (ids : List ProcessIdentity)
    → freeze_descendants env root ≡ complete ids
    → (env.root_stopped ≡ true)
      × (snapshot_is_complete (complete_snapshot_from_table root (env.reads 0)) ≡ true)
      × IsContained env root ids
unfolding freeze_descendants
freeze_descendants-IsContained env root ids h = elim (Bool-cases env.root_stopped) [
  | inr r ↦ impossible (if_not-false env.root_stopped _ r h)
  | inl r ↦
      let first = complete_snapshot_from_table root (env.reads 0) in
      let (c, found) =
        freeze_loop-IsContained env root (why_unavailable first)
          (attempts_for (why_unavailable first)) 1 (identities first) none false tt
          (if_not-true env.root_stopped _ r h) in
      (r, why_unavailable-none first c, found)
]
