-- ===== src/Process/Snapshot.antt =====
-- The snapshots of a process tree of crates/pty-core/src/process_tree.rs: identities, the complete
-- snapshot, and the operations on lists of identities.
pub mod Sort
pub mod Complete
pub mod StillLive
use pty.Base.{
  ℕ, zero, suc, ◌+◌, Bool, true, false, not, ◌&&◌, ◌||◌, List, [], ◌∷◌, ◌++◌, Option, none, some,
  ltb, ◌==◌, if◌then◌else◌, length, Bytes, ℤ, int_eq, int_lt, bytes_eq, int_mem, pos,
}
use pty.Process.Table.{
  Answer, known, not_present, unknown, known_value, Row, is_zombie, is_exiting, is_stopped,
  ProcTable, is_complete, row, find_row, identity,
}
use pty.Process.Walk.{walk}

-- A descendant, pinned to its start identity.
pub record ProcessIdentity : Type 0 where
  pub pid : ℤ
  pub identity : Bytes
  pub depth : ℕ

-- `a` comes strictly before `b`: deeper, or as deep with the higher pid.
unfoldable pub comes_before : ProcessIdentity → ProcessIdentity → Bool
comes_before a b = ltb b.depth a.depth || (a.depth == b.depth && int_lt b.pid a.pid)

-- `sort_by` is stable: an entry goes before the first that does not come strictly before it.
unfoldable pub insert_sorted : ProcessIdentity → List ProcessIdentity → List ProcessIdentity
insert_sorted x [] = x ∷ []
insert_sorted x (y ∷ ys) = if comes_before y x then y ∷ insert_sorted x ys else x ∷ y ∷ ys

unfoldable pub sort_identities : List ProcessIdentity → List ProcessIdentity
unfolding insert_sorted comes_before
sort_identities [] = []
sort_identities (x ∷ xs) = insert_sorted x (sort_identities xs)

-- Why a snapshot is not complete; a reason's pid is the one that its text names.
pub data Reason : Type 0 where
  process_table_unreadable process_table_incomplete root_identity_unavailable : Reason
  process_identity_unavailable observed_identity_unavailable : ℤ → Reason
  root_freeze_failed descendant_freeze_unverified : Reason
  process_tree_not_stopped process_tree_did_not_quiesce : Reason

pub data TreeSnapshot : Type 0 where
  complete : List ProcessIdentity → TreeSnapshot
  unavailable : Reason → List ProcessIdentity → TreeSnapshot

unfoldable pub snapshot_is_complete : TreeSnapshot → Bool
snapshot_is_complete (complete ids) = true
snapshot_is_complete (unavailable why ids) = false

unfoldable pub identities : TreeSnapshot → List ProcessIdentity
identities (complete ids) = ids
identities (unavailable why ids) = ids

abbrev pub named : ℤ → ℕ → Option Bytes → List ProcessIdentity → List ProcessIdentity
named pid depth none rest = rest
named pid depth (some i) rest = record { pid = pid; identity = i; depth = depth } ∷ rest

-- `snapshot_from_table` before its sort: the entries that the table can name.
unfoldable pub named_entries : ProcTable → List (ℤ × ℕ) → List ProcessIdentity
unfolding identity
named_entries t [] = []
named_entries t ((pid, depth) ∷ l) =
    named pid depth (known_value (identity t pid)) (named_entries t l)

unfoldable pub snapshot_from_table : ℤ → ProcTable → List ProcessIdentity
unfolding named_entries sort_identities walk
snapshot_from_table root t = sort_identities (named_entries t (walk root t))

-- The row's identity, if the row is there and live.
abbrev pub live_identity : Answer Row → Option Bytes
live_identity (known r) = if is_zombie r then none else r.identity
live_identity not_present = none
live_identity (unknown u) = none

unfoldable pub live_entries : ProcTable → List (ℤ × ℕ) → List ProcessIdentity
live_entries t [] = []
live_entries t ((pid, depth) ∷ l) = named pid depth (live_identity (row t pid)) (live_entries t l)

unfoldable pub observed_identities : ℤ → ProcTable → List ProcessIdentity
observed_identities root t = sort_identities (live_entries t (walk root t))

abbrev has_identity : Option Bytes → Bool
has_identity none = false
has_identity (some i) = true

-- A live row without an identity.
abbrev pub is_nameless : Answer Row → Bool
is_nameless (known r) = not (is_zombie r) && not (has_identity r.identity)
is_nameless not_present = false
is_nameless (unknown u) = false

abbrev pub is_live_named : Answer Row → Bool
is_live_named (known r) = not (is_zombie r) && has_identity r.identity
is_live_named not_present = false
is_live_named (unknown u) = false

-- The first entry that is live and has no identity.
unfoldable pub first_nameless : ProcTable → List (ℤ × ℕ) → Option ℤ
first_nameless t [] = none
first_nameless t ((pid, depth) ∷ l) =
    if is_nameless (row t pid) then some pid else first_nameless t l

unfoldable pub complete_snapshot_from_table : ℤ → ProcTable → TreeSnapshot
complete_snapshot_from_table root t =
    let observed = observed_identities root t in
    if not t.readable
    then unavailable process_table_unreadable []
    else if not (is_complete t)
    then unavailable process_table_incomplete observed
    else if not (is_live_named (row t root))
    then unavailable root_identity_unavailable observed
    else elim (first_nameless t (walk root t)) [
      | none ↦ complete observed
      | some pid ↦ unavailable (process_identity_unavailable pid) observed
    ]

-- The same process: its pid and its identity.
abbrev pub same_process : ProcessIdentity → ProcessIdentity → Bool
same_process a b = int_eq a.pid b.pid && bytes_eq a.identity b.identity

unfoldable pub holds : ProcessIdentity → List ProcessIdentity → Bool
holds candidate [] = false
holds candidate (x ∷ xs) = same_process x candidate || holds candidate xs

-- The loop of `merge_identities`.
unfoldable pub add_new : List ProcessIdentity → List ProcessIdentity → List ProcessIdentity
add_new into [] = into
add_new into (candidate ∷ more) =
    add_new (if holds candidate into then into else into ++ candidate ∷ []) more

unfoldable pub merge_identities : List ProcessIdentity → List ProcessIdentity → List ProcessIdentity
merge_identities into more = sort_identities (add_new into more)

unfoldable pub same_identities : List ProcessIdentity → List ProcessIdentity → Bool
same_identities [] [] = true
same_identities [] (b ∷ bs) = false
same_identities (a ∷ as') [] = false
same_identities (a ∷ as') (b ∷ bs) = same_process a b && same_identities as' bs

-- `Ok` with the identities, or `Err` with a pid.
pub data Live : Type 0 where
  live : List ProcessIdentity → Live
  unreadable_pid : ℤ → Live

abbrev pub keep_live : ProcessIdentity → Live → Live
keep_live x (live l) = live (x ∷ l)
keep_live x (unreadable_pid p) = unreadable_pid p

abbrev pub check_identity : ProcessIdentity → Option Bytes → Live → Live
check_identity x none rest = unreadable_pid x.pid
check_identity x (some current) rest =
    if bytes_eq current x.identity then keep_live x rest else rest

abbrev pub check_row : ProcessIdentity → Answer Row → Live → Live
check_row x (known r) rest = if is_zombie r then rest else check_identity x r.identity rest
check_row x not_present rest = rest
check_row x (unknown u) rest = unreadable_pid x.pid

unfoldable pub live_of : List ProcessIdentity → ProcTable → Live
live_of [] t = live []
live_of (x ∷ xs) t = check_row x (row t x.pid) (live_of xs t)

abbrev pub sorted_live : Live → Live
sorted_live (live l) = live (sort_identities l)
sorted_live (unreadable_pid p) = unreadable_pid p

unfoldable pub still_live_identities : List ProcessIdentity → ProcTable → Live
still_live_identities observed t = sorted_live (live_of observed t)

abbrev pub shows_stopped : Answer Row → Bool
shows_stopped (known r) = is_stopped r
shows_stopped not_present = false
shows_stopped (unknown u) = false

unfoldable pub each_stopped : List ProcessIdentity → ProcTable → Bool
each_stopped [] t = true
each_stopped (x ∷ xs) t = shows_stopped (row t x.pid) && each_stopped xs t

unfoldable pub all_stopped : ℤ → List ProcessIdentity → ProcTable → Bool
all_stopped root ids t = shows_stopped (row t root) && each_stopped ids t
