-- ===== src/Process/Sweep.antt =====
-- The group operations of crates/pty-core/src/process_tree.rs: `groups_in_tree`,
-- `members_of_groups`, `sweep_groups` and `terminate_process_group_with`. The closures are
-- numbered answers, the signals sent are a list, and a wait is the number of times that its clock
-- is found before the deadline.
pub mod Waits
pub mod Signals
use pty.Base.{
  ℕ, zero, suc, ◌+◌, Bool, true, false, not, ◌&&◌, ◌||◌, List, [], ◌∷◌, ◌++◌, Option, none, some,
  map, if◌then◌else◌, ℤ, pos, int_eq, int_lt, int_mem,
}
use pty.Process.Table.{Row, is_zombie, is_exiting, ProcTable, find_row}
use pty.Process.Walk.{walk}

abbrev insert_int : ℤ → List ℤ → List ℤ
insert_int x [] = x ∷ []
insert_int x (y ∷ ys) = if int_lt y x then y ∷ insert_int x ys else x ∷ y ∷ ys

-- `sort_unstable` on numbers.
unfoldable pub sort_ints : List ℤ → List ℤ
sort_ints [] = []
sort_ints (x ∷ xs) = insert_int x (sort_ints xs)

abbrev pgid_of : Option Row → Option ℤ
pgid_of none = none
pgid_of (some r) = some r.pgid

abbrev is_group : Option ℤ → ℤ → Bool
is_group none g = false
is_group (some root_group) g = int_eq root_group g

abbrev add_group : Option ℤ → Option ℤ → List ℤ → List ℤ
add_group root_group none groups = groups
add_group root_group (some g) groups =
    if not (is_group root_group g) && int_lt (pos 1) g && not (int_mem g groups)
    then groups ++ g ∷ []
    else groups

unfoldable pub collect_groups : List Row → Option ℤ → List ℤ → List (ℤ × ℕ) → List ℤ
collect_groups rows root_group groups [] = groups
collect_groups rows root_group groups ((pid, depth) ∷ l) =
    collect_groups rows root_group (add_group root_group (pgid_of (find_row pid rows)) groups) l

unfoldable pub groups_in_tree : ℤ → ProcTable → List ℤ
groups_in_tree root t =
    sort_ints (collect_groups t.rows (pgid_of (find_row root t.rows)) [] (walk root t))

unfoldable pub live_members : List ℤ → List Row → List ℤ
live_members groups [] = []
live_members groups (r ∷ rs) =
    if not (is_zombie r) && not (is_exiting r) && int_mem r.pgid groups
    then r.pid ∷ live_members groups rs
    else live_members groups rs

unfoldable pub members_of_groups : List ℤ → ProcTable → List ℤ
members_of_groups groups t = sort_ints (live_members groups t.rows)

pub data Signal : Type 0 where
  sigterm sigkill : Signal

-- The groups that a sweep may signal.
unfoldable pub targets_of : List ℤ → ℤ → List ℤ
targets_of [] own = []
targets_of (g ∷ gs) own =
    if int_lt (pos 1) g && not (int_eq g own) then g ∷ targets_of gs own else targets_of gs own

abbrev pub send_all : Signal → List ℤ → List (ℤ × Signal)
send_all signal [] = []
send_all signal (g ∷ gs) = (g, signal) ∷ send_all signal gs

abbrev pub no_pids : List ℤ → Bool
no_pids [] = true
no_pids (p ∷ ps) = false

-- What is left after a wait, and the number of readings made.
unfoldable pub wait_loop : (ℕ → List ℤ → List ℤ) → List ℤ → ℕ → ℕ → List ℤ → List ℤ × ℕ
wait_loop live targets zero made remaining = (remaining, made)
wait_loop live targets (suc polls) made remaining = elim (no_pids remaining) [
  | true ↦ (remaining, made)
  | false ↦ wait_loop live targets polls (suc made) (live made targets)
]

-- One `live` reading, and then the wait.
unfoldable pub wait_empty : (ℕ → List ℤ → List ℤ) → List ℤ → ℕ → ℕ → List ℤ × ℕ
wait_empty live targets polls made = wait_loop live targets polls (suc made) (live made targets)

pub record Swept : Type 0 where
  pub remaining : List ℤ
  pub signals : List (ℤ × Signal)

unfoldable pub sweep_groups : (ℕ → List ℤ → List ℤ) → List ℤ → ℤ → ℕ → ℕ → Swept
sweep_groups live groups own term_polls kill_polls =
    let targets = targets_of groups own in
    let (after_term, made) = wait_empty live targets term_polls 0 in
    let (after_kill, done) = wait_empty live targets kill_polls made in
    if no_pids targets
    then record { remaining = live 0 groups; signals = [] }
    else if no_pids after_term
    then record { remaining = []; signals = send_all sigterm targets }
    else record {
      remaining = after_kill;
      signals = send_all sigterm targets ++ send_all sigkill targets;
    }

-- Polls while the group exists, on the number of answers asked for.
unfoldable pub poll_gone : (ℕ → Bool) → ℕ → ℕ → ℕ
poll_gone exists zero asked = suc asked
poll_gone exists (suc polls) asked = elim (exists asked) [
  | true ↦ poll_gone exists polls (suc asked)
  | false ↦ suc asked
]

pub record Terminated : Type 0 where
  pub gone : Bool
  pub sent : List Signal

-- Each round asks before it signals; the last question is the answer.
unfoldable pub terminate_group_with : (ℕ → Bool) → ℕ → ℕ → Terminated
terminate_group_with exists term_polls kill_polls =
    let second = poll_gone exists term_polls 1 in
    let last = poll_gone exists kill_polls (suc second) in
    if not (exists 0)
    then record { gone = true; sent = [] }
    else if not (exists second)
    then record { gone = true; sent = sigterm ∷ [] }
    else record { gone = not (exists last); sent = sigterm ∷ sigkill ∷ [] }
