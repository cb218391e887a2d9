-- ===== src/Process/Snapshot/Complete.antt =====
-- What a complete snapshot is good for: it names every live descendant, and nothing else.
use pty.Base.{
  ℕ, ◌≡◌, ◌≢◌, refl, ◌∙◌, arith, true, false, List, [], ◌∷◌, Option, none, some, Bytes, ℤ, int_eq,
  bytes_eq, int_eq_iff, bytes_eq_iff, or_true, inl, inr, Bool-cases, All, int_mem, int_eq_refl,
}
use pty.Process.Table.{Answer, known, Row, is_zombie, ProcTable, is_complete, row}
use pty.Process.Walk.{walk}
use pty.Process.Walk.Yields.{Descends, pids}
use pty.Process.Walk.Reach.{walk_complete, walk-Descends}
use pty.Process.Snapshot.{
  ProcessIdentity, named, live_identity, live_entries, observed_identities, first_nameless,
  is_nameless, is_live_named, complete_snapshot_from_table, complete, same_process, holds,
}
use pty.Process.Snapshot.Sort.{holds-sort_identities, sort_identities-All, or_left, or_right}

bytes_eq_refl : (b : Bytes) → bytes_eq b b ≡ true
bytes_eq_refl b = (bytes_eq_iff b b).1 refl

-- The process `pid` with identity `i`, whatever its depth.
abbrev pub process : ℤ → Bytes → ProcessIdentity
process pid i = record { pid = pid; identity = i; depth = 0 }

live_entries_hold :
    (t : ProcTable) (l : List (ℤ × ℕ)) (pid : ℤ) (i : Bytes)
    → int_mem pid (pids l) ≡ true
    → live_identity (row t pid) ≡ some i
    → holds (process pid i) (live_entries t l) ≡ true
unfolding live_entries holds
live_entries_hold t [] pid i m h = cc
live_entries_hold t ((q, d) ∷ l) pid i m h = elim (Bool-cases (int_eq pid q)) [
  | inl e ↦
      rw (← (int_eq_iff pid q).0 e, h)
        (or_left _ (holds (process pid i) (live_entries t l))
          (rw (int_eq_refl pid, bytes_eq_refl i)))
  | inr e ↦ skip (live_identity (row t q)) (live_entries_hold t l pid i (rw e at m) h)
]
  where
    skip :
        (o : Option Bytes)
        → holds (process pid i) (live_entries t l) ≡ true
        → holds (process pid i) (named q d o (live_entries t l)) ≡ true
    skip none k = k
    skip (some j) k =
        or_right (same_process (record { pid = q; identity = j; depth = d }) (process pid i)) _ k

-- No live entry is without an identity.
first_nameless-none :
    (t : ProcTable) (l : List (ℤ × ℕ)) (pid : ℤ)
    → first_nameless t l ≡ none
    → int_mem pid (pids l) ≡ true
    → is_nameless (row t pid) ≡ false
unfolding first_nameless
first_nameless-none t [] pid e m = cc
first_nameless-none t ((q, d) ∷ l) pid e m = elim (Bool-cases (is_nameless (row t q))) [
  | inl k ↦ cc (rw (k, first_nameless) at e)
  | inr k ↦ elim (or_true (int_eq pid q) (int_mem pid (pids l)) m) [
    | inl s ↦ rw ((int_eq_iff pid q).0 s) k
    | inr s ↦ first_nameless-none t l pid (rw (k, first_nameless) at e) s
  ]
]

pub complete_facts :
    (root : ℤ) (t : ProcTable) (ids : List ProcessIdentity)
    → complete_snapshot_from_table root t ≡ complete ids
    → (ids ≡ observed_identities root t)
      × (is_complete t ≡ true)
      × (is_live_named (row t root) ≡ true)
      × (first_nameless t (walk root t) ≡ none)
unfolding complete_snapshot_from_table
complete_facts root t ids h = (ground arith, ground arith, ground arith, ground arith)

named_live :
    (a : Answer Row) (r : Row)
    → a ≡ known r
    → is_zombie r ≡ false
    → is_nameless a ≡ false
    → (i : Bytes) × (r.identity ≡ some i) × (live_identity a ≡ some i)
named_live a r e z n = ground arith

-- When a snapshot is complete, each descendant but the root that the table shows live has an
-- identity there, and is in the snapshot under it.
pub complete_sees :
    (root : ℤ) (t : ProcTable) (ids : List ProcessIdentity) (pid : ℤ) {d : ℕ} (r : Row)
    → complete_snapshot_from_table root t ≡ complete ids
    → Descends root t.rows pid d
    → pid ≢ root
    → row t pid ≡ known r
    → is_zombie r ≡ false
    → (i : Bytes) × (r.identity ≡ some i) × (holds (process pid i) ids ≡ true)
unfolding observed_identities
complete_sees root t ids pid r h des ne e z =
    let (is, whole, alive, nameless) = complete_facts root t ids h in
    let m = walk_complete root t des ne in
    let (i, has, li) =
      named_live (row t pid) r e z (first_nameless-none t (walk root t) pid nameless m) in
    (
      i,
      has,
      rw is (
          holds-sort_identities (process pid i) (live_entries t (walk root t))
          ∙ live_entries_hold t (walk root t) pid i m li),
    )

-- The table shows this process live, under its identity, as a descendant.
abbrev pub IsLiveDescendant : ℤ → ProcTable → ProcessIdentity → Type 0
IsLiveDescendant root t x =
    Descends root t.rows x.pid x.depth
    × (x.pid ≢ root)
    × (live_identity (row t x.pid) ≡ some x.identity)

live_entries_descend :
    (root : ℤ) (t : ProcTable) (l : List (ℤ × ℕ))
    → All (λ e. Descends root t.rows e.0 e.1) l
    → All (λ e. e.0 ≢ root) l
    → All (IsLiveDescendant root t) (live_entries t l)
unfolding live_entries
live_entries_descend root t [] h n = tt
live_entries_descend root t ((pid, d) ∷ l) h n =
    by_identity (live_identity (row t pid)) refl (live_entries_descend root t l h.1 n.1)
  where
    by_identity :
        (o : Option Bytes)
        → live_identity (row t pid) ≡ o
        → All (IsLiveDescendant root t) (live_entries t l)
        → All (IsLiveDescendant root t) (live_entries t ((pid, d) ∷ l))
    by_identity none e rest = rw (e, live_entries) rest
    by_identity (some i) e rest = rw (e, live_entries) ((h.0, n.0, e), rest)

-- What a table's snapshot observes are live descendants of the root, pinned as the table has
-- them.
pub observed_identities_sound :
    (root : ℤ) (t : ProcTable) → All (IsLiveDescendant root t) (observed_identities root t)
unfolding observed_identities
observed_identities_sound root t =
    let (des, ne, once) = walk-Descends root t in
    sort_identities-All (IsLiveDescendant root t) (live_entries t (walk root t))
      (live_entries_descend root t (walk root t) des ne)
