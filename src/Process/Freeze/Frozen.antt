-- ===== src/Process/Freeze/Frozen.antt =====
-- What one attempt of `freeze_descendants` establishes.
use pty.Process.Walk.{walk}
use pty.Process.Walk.Reach.{walk-Descends}
use pty.Base.{
  ◌||◌, [], ◌∷◌, ℕ, ◌≡◌, ◌≢◌, refl, Bool, true, false, List, Option, none, some, Bytes, ℤ, and_true,
  inl, inr, Bool-cases, All,
}
use pty.Process.Table.{Answer, not_present, unknown, known, Row, is_zombie, ProcTable, row}
use pty.Process.Walk.Yields.{Descends}
use pty.Process.Snapshot.{
  ProcessIdentity, Reason, TreeSnapshot, complete, unavailable, snapshot_is_complete,
  complete_snapshot_from_table, merge_identities, Live, live, unreadable_pid, still_live_identities,
  all_stopped, each_stopped, shows_stopped, holds,
}
use pty.Process.Snapshot.Sort.{holds-merge_identities}
use pty.Process.Snapshot.Complete.{process, complete_sees}
use pty.Process.Snapshot.StillLive.{IsShown, still_live_identities_facts, each_stopped_lem}
use pty.Process.Freeze.{Attempt, answer, again, agrees, contained, failed_to_stop, judge, attempt}

-- The table shows the root stopped, and each of `ids` live, as the same process, and stopped.
pub record IsFrozen (root : ℤ) (t : ProcTable) (ids : List ProcessIdentity) : Type 0 where
  pub root_stopped : shows_stopped (row t root) ≡ true
  pub each_live : All (IsShown t) ids
  pub each_stopped : All (λ x. shows_stopped (row t x.pid) ≡ true) ids

-- Each live descendant that the table has is among `ids`.
abbrev Covers : ℤ → ProcTable → List ProcessIdentity → Type 0
Covers root t ids =
    (pid : ℤ) (d : ℕ) (r : Row)
    → Descends root t.rows pid d
    → pid ≢ root
    → row t pid ≡ known r
    → is_zombie r ≡ false
    → (i : Bytes) × (r.identity ≡ some i) × (holds (process pid i) ids ≡ true)

pub live-IsFrozen :
    (root : ℤ) (t : ProcTable) (observed ids : List ProcessIdentity)
    → still_live_identities observed t ≡ live ids
    → all_stopped root ids t ≡ true
    → IsFrozen root t ids
unfolding all_stopped
live-IsFrozen root t observed ids h s =
    let (r, e) = and_true (shows_stopped (row t root)) (each_stopped ids t) s in
    record {
      root_stopped = r;
      each_live = (still_live_identities_facts t observed ids h).0;
      each_stopped = each_stopped_lem t ids e;
    }

live_descendant-IsShown :
    (t : ProcTable) (pid : ℤ) (r : Row) (i : Bytes)
    → row t pid ≡ known r
    → is_zombie r ≡ false
    → r.identity ≡ some i
    → IsShown t (process pid i)
live_descendant-IsShown t pid r i e z h = rw (e, z) h

live-Covers :
    (root : ℤ) (t : ProcTable) (observed next ids : List ProcessIdentity)
    → complete_snapshot_from_table root t ≡ complete next
    → still_live_identities (merge_identities observed next) t ≡ live ids
    → Covers root t ids
live-Covers root t observed next ids c h pid d r des ne e z =
    let (i, has, held) = complete_sees root t next pid r c des ne e z in
    (
      i,
      has,
      (still_live_identities_facts t (merge_identities observed next) ids h).1 (process pid i)
          (holds-merge_identities (process pid i) observed next (inr held))
          (live_descendant-IsShown t pid r i e z has),
    )

-- A row of a descendant: a corpse, or a process that `ids` has under its identity.
abbrev pub is_named : List ProcessIdentity → ℤ → Option Bytes → Bool
is_named ids pid none = false
is_named ids pid (some i) = holds (process pid i) ids

abbrev pub is_covered : List ProcessIdentity → ℤ → Answer Row → Bool
is_covered ids pid (known r) = is_zombie r || is_named ids pid r.identity
is_covered ids pid not_present = true
is_covered ids pid (unknown u) = true

-- Each descendant that the walk finds is covered.
abbrev pub CoversWalk : ℤ → ProcTable → List ProcessIdentity → Type 0
CoversWalk root t ids = All (λ e. is_covered ids e.0 (row t e.0) ≡ true) (walk root t)

Covers-row :
    (root : ℤ) (t : ProcTable) (ids : List ProcessIdentity) (pid : ℤ) (d : ℕ) (a : Answer Row)
    → Covers root t ids
    → Descends root t.rows pid d
    → pid ≢ root
    → row t pid ≡ a
    → is_covered ids pid a ≡ true
Covers-row root t ids pid d not_present c des ne e = refl
Covers-row root t ids pid d (unknown u) c des ne e = refl
Covers-row root t ids pid d (known r) c des ne e = elim (Bool-cases (is_zombie r)) [
  | inl z ↦ rw (z) refl
  | inr z ↦ let (i, has, held) = c pid d r des ne e z in rw (z, has) held
]

Covers-All :
    (root : ℤ) (t : ProcTable) (ids : List ProcessIdentity) (l : List (ℤ × ℕ))
    → Covers root t ids
    → All (λ e. Descends root t.rows e.0 e.1) l
    → All (λ e. e.0 ≢ root) l
    → All (λ e. is_covered ids e.0 (row t e.0) ≡ true) l
Covers-All root t ids [] c des ne = tt
Covers-All root t ids ((pid, d) ∷ l) c des ne = (
  Covers-row root t ids pid d (row t pid) c des.0 ne.0 refl,
  Covers-All root t ids l c des.1 ne.1,
)

pub live-CoversWalk :
    (root : ℤ) (t : ProcTable) (observed next ids : List ProcessIdentity)
    → complete_snapshot_from_table root t ≡ complete next
    → still_live_identities (merge_identities observed next) t ≡ live ids
    → CoversWalk root t ids
live-CoversWalk root t observed next ids c h =
    let (des, ne, once) = walk-Descends root t in
    Covers-All root t ids (walk root t) (live-Covers root t observed next ids c h) des ne

-- What an attempt has established when it answers with a complete snapshot, and when it asks for
-- another.
abbrev pub Establishes :
    ℤ
    → Option Reason
    → ProcTable
    → List ProcessIdentity
    → Option (List ProcessIdentity)
    → TreeSnapshot
    → Attempt
    → Type 0
Establishes root first t merged previous next (answer (complete ids)) =
    (first ≡ none)
    × (snapshot_is_complete next ≡ true)
    × (still_live_identities merged t ≡ live ids)
    × (all_stopped root ids t ≡ true)
    × (agrees previous ids ≡ true)
Establishes root first t merged previous next (answer (unavailable why ids)) = Unit
Establishes root first t merged previous next (again none running) = Unit
Establishes root first t merged previous next (again (some ids) running) =
    (still_live_identities merged t ≡ live ids) × (all_stopped root ids t ≡ true)

contained-Establishes :
    (root : ℤ) (first : Option Reason) (t : ProcTable) (merged ids : List ProcessIdentity)
    (previous : Option (List ProcessIdentity)) (next : TreeSnapshot)
    → snapshot_is_complete next ≡ true
    → still_live_identities merged t ≡ live ids
    → all_stopped root ids t ≡ true
    → agrees previous ids ≡ true
    → Establishes root first t merged previous next (answer (contained first merged ids))
contained-Establishes root none t merged ids previous next c h s a = (refl, c, h, s, a)
contained-Establishes root (some why) t merged ids previous next c h s a = tt

judge-Establishes :
    (root : ℤ) (first : Option Reason) (targeted : List ProcessIdentity) (signalled : List ℤ)
    (t : ProcTable) (merged : List ProcessIdentity) (previous : Option (List ProcessIdentity))
    (running : Bool) (next : TreeSnapshot) (o : Live)
    → snapshot_is_complete next ≡ true
    → still_live_identities merged t ≡ o
    → Establishes root first t merged previous next
        (judge root first targeted signalled t merged previous running o)
unfolding judge
judge-Establishes root first targeted signalled t merged previous running next (unreadable_pid p) c
      h =
    tt
judge-Establishes root first targeted signalled t merged previous running next (live ids) c h =
    elim (Bool-cases (failed_to_stop targeted signalled t ids)) [
      | inl f ↦ rw (f, judge) tt
      | inr f ↦ elim (Bool-cases (all_stopped root ids t)) [
        | inr s ↦ rw (f, s, judge) tt
        | inl s ↦ elim (Bool-cases (agrees previous ids)) [
          | inr a ↦ rw (f, s, a, judge) (h, s)
          | inl a ↦
              rw (f, s, a, judge)
                (contained-Establishes root first t merged ids previous next c h s a)
        ]
      ]
    ]

pub attempt-Establishes :
    (root : ℤ) (first : Option Reason) (targeted : List ProcessIdentity) (signalled : List ℤ)
    (t : ProcTable) (merged : List ProcessIdentity) (previous : Option (List ProcessIdentity))
    (running : Bool) (next : TreeSnapshot)
    → Establishes root first t merged previous next
        (attempt root first targeted signalled t merged previous running next)
unfolding attempt
attempt-Establishes root first targeted signalled t merged previous running (unavailable why ids) =
    tt
attempt-Establishes root first targeted signalled t merged previous running (complete ids) =
    judge-Establishes root first targeted signalled t merged previous running (complete ids)
      (still_live_identities merged t) (unfold snapshot_is_complete in refl) refl
