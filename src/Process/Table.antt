-- ===== src/Process/Table.antt =====
-- `Answer`, `Row` and the lookups of `ProcTable` of crates/pty-core/src/proctable.rs. How a table
-- is read from the machine is left out.
use pty.Base.{
  ℕ, Bool, true, false, ◌&&◌, ◌||◌, List, [], ◌∷◌, Option, none, some, ◌==◌, if◌then◌else◌, Bytes,
  ℤ, int_eq,
}

pub data Unknown : Type 0 where
  table_unreadable field_empty : Unknown

pub data Answer {ℓ} (A : Type ℓ) : Type ℓ where
  known : A → Answer A
  not_present : Answer A
  unknown : Unknown → Answer A

module _ {ℓ} {A : Type ℓ} where
  -- `Answer::known`: silence and absence both give `none`.
  abbrev pub known_value : Answer A → Option A
  known_value (known v) = some v
  known_value not_present = none
  known_value (unknown u) = none

  unfoldable pub is_definitely_absent : Answer A → Bool
  is_definitely_absent (known v) = false
  is_definitely_absent not_present = true
  is_definitely_absent (unknown u) = false

  unfoldable pub or_absent_when_unknown : Answer A → Answer A
  or_absent_when_unknown (known v) = known v
  or_absent_when_unknown not_present = not_present
  or_absent_when_unknown (unknown u) = not_present

abbrev pub map_answer {ℓ κ} : {A : Type ℓ} {B : Type κ} → (A → B) → Answer A → Answer B
map_answer f (known v) = known (f v)
map_answer f not_present = not_present
map_answer f (unknown u) = unknown u

-- Resource figures, which nothing here reads, are left out of the row.
pub record Row : Type 0 where
  pub pid : ℤ
  pub ppid : ℤ
  pub pgid : ℤ
  pub state : Bytes
  pub identity : Option Bytes

abbrev starts_with : ℕ → Bytes → Bool
starts_with c [] = false
starts_with c (b ∷ bs) = b == c

unfoldable pub is_zombie : Row → Bool
is_zombie r = starts_with b'Z' r.state || starts_with b'X' r.state

unfoldable pub is_exiting : Row → Bool
is_exiting r = starts_with b'E' r.state

unfoldable pub is_stopped : Row → Bool
is_stopped r = starts_with b'T' r.state || starts_with b't' r.state

-- The map of rows by pid is the list of its rows, in the order in which it is iterated.
pub record ProcTable : Type 0 where
  pub rows : List Row
  pub readable : Bool
  pub complete : Bool

abbrev pub find_row : ℤ → List Row → Option Row
find_row pid [] = none
find_row pid (r ∷ rs) = if int_eq r.pid pid then some r else find_row pid rs

unfoldable pub is_complete : ProcTable → Bool
is_complete t = t.readable && t.complete

unfoldable pub marked_incomplete : ProcTable → ProcTable
marked_incomplete t = record t { complete = false }

-- `lookup`, under its public name.
unfoldable pub row : ProcTable → ℤ → Answer Row
row t pid =
    if t.readable
    then elim (find_row pid t.rows) [ none ↦ not_present | some r ↦ known r ]
    else unknown table_unreadable

unfoldable pub is_running : ProcTable → ℤ → Answer Bool
unfolding row is_zombie
is_running t pid = map_answer (λ r. if is_zombie r then false else true) (row t pid)

abbrev name_of : Answer Row → Answer Bytes
name_of (known r) = elim r.identity [ none ↦ unknown field_empty | some i ↦ known i ]
name_of not_present = not_present
name_of (unknown u) = unknown u

unfoldable pub identity : ProcTable → ℤ → Answer Bytes
unfolding row
identity t pid = name_of (row t pid)
