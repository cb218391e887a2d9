-- ===== src/Process/Tests.antt =====
-- Runs and instances of the theorems on process trees.
use pty.Base.{
  ℕ, zero, suc, ◌≡◌, ◌≢◌, refl, arith, Bool, true, false, List, [], ◌∷◌, some, Bytes, ℤ, pos,
  negsuc, All, inr, int_mem,
}
use pty.Process.Table.{Row, ProcTable, known, row, is_zombie, is_stopped, is_complete}
use pty.Process.Walk.{children, walk, walk_all, walk_loop}
use pty.Process.Walk.Rounds.{walk_all_total}
use pty.Process.Walk.Yields.{Descends, child, deeper, pids}
use pty.Process.Walk.Reach.{IsDistinct, walk-Descends, walk_complete}
use pty.Process.Snapshot.{
  ProcessIdentity, complete, observed_identities, live_entries, first_nameless,
  complete_snapshot_from_table, sort_identities, insert_sorted, comes_before, still_live_identities,
  live_of, holds, merge_identities, add_new, snapshot_is_complete, all_stopped, each_stopped,
  same_identities, identities,
}
use pty.Process.Snapshot.Complete.{complete_sees, IsLiveDescendant, observed_identities_sound}
use pty.Process.Snapshot.Sort.{holds-merge_identities}
use pty.Process.Freeze.{
  Environment, freeze_descendants, freeze_loop, attempt, judge, failed_to_stop, missed,
}
use pty.Process.Freeze.Contained.{IsContained, freeze_descendants-IsContained}
use pty.Process.Sweep.{sweep_groups, targets_of, wait_empty, wait_loop, sigterm}
use pty.Process.Sweep.Signals.{MaySignal, sweep_groups_safe}

-- Process 5 has the child 6, which has the child 7; all are stopped.
abbrev stopped_row : ℕ → ℕ → Row
stopped_row pid ppid = record {
  pid = pos pid;
  ppid = pos ppid;
  pgid = pos 5;
  state = b'T' ∷ [];
  identity = some (pid ∷ []);
}

abbrev family : ProcTable
family = record {
  rows = stopped_row 5 1 ∷ stopped_row 6 5 ∷ stopped_row 7 6 ∷ [];
  readable = true;
  complete = true;
}

abbrev six : ProcessIdentity
six = record { pid = pos 6; identity = 6 ∷ []; depth = 1 }

abbrev seven : ProcessIdentity
seven = record { pid = pos 7; identity = 7 ∷ []; depth = 2 }

walk-family : walk (pos 5) family ≡ (pos 6, 1) ∷ (pos 7, 2) ∷ []
unfolding walk walk_all walk_loop children
walk-family = refl

seven-Descends : Descends (pos 5) family.rows (pos 7) 2
unfolding children
seven-Descends = deeper {parent = pos 6} (child refl) refl

family_snapshot : complete_snapshot_from_table (pos 5) family ≡ complete (seven ∷ six ∷ [])
unfolding complete_snapshot_from_table observed_identities live_entries first_nameless is_complete
    row is_zombie sort_identities insert_sorted comes_before walk walk_all walk_loop children
family_snapshot = refl

walk-Descends_example :
    All (λ e. Descends (pos 5) family.rows e.0 e.1) (walk (pos 5) family)
    × All (λ e. e.0 ≢ pos 5) (walk (pos 5) family)
    × IsDistinct (walk (pos 5) family)
walk-Descends_example = walk-Descends (pos 5) family

-- Each of two processes is the other's parent.
abbrev circle : List Row
circle = stopped_row 8 9 ∷ stopped_row 9 8 ∷ []

walk_all_total_example : (l : List (ℤ × ℕ)) × (walk_all (pos 8) circle ≡ some l)
walk_all_total_example = walk_all_total (pos 8) circle

walk_complete_example : int_mem (pos 7) (pids (walk (pos 5) family)) ≡ true
walk_complete_example = walk_complete (pos 5) family seven-Descends (ground arith)

seven_row : row family (pos 7) ≡ known (stopped_row 7 6)
unfolding row
seven_row = refl

seven_runs : is_zombie (stopped_row 7 6) ≡ false
unfolding is_zombie
seven_runs = refl

complete_sees_example :
    (i : Bytes) × ((stopped_row 7 6).identity ≡ some i)
    × (holds (record { pid = pos 7; identity = i; depth = 0 }) (seven ∷ six ∷ []) ≡ true)
complete_sees_example =
    complete_sees (pos 5) family (seven ∷ six ∷ []) (pos 7) (stopped_row 7 6) family_snapshot
      seven-Descends (ground arith) seven_row seven_runs

observed_identities_sound_example :
    All (IsLiveDescendant (pos 5) family) (observed_identities (pos 5) family)
observed_identities_sound_example = observed_identities_sound (pos 5) family

-- Process 9 is gone, and 7 is still there.
abbrev nine : ProcessIdentity
nine = record { pid = pos 9; identity = 9 ∷ []; depth = 1 }

holds-nine : holds nine (nine ∷ []) ≡ true
unfolding holds
holds-nine = refl

holds-merge_identities_example : holds nine (merge_identities (seven ∷ []) (nine ∷ [])) ≡ true
holds-merge_identities_example =
    holds-merge_identities nine (seven ∷ []) (nine ∷ []) (inr holds-nine)

-- Every read shows the family stopped.
abbrev at_rest : Environment
at_rest = record { reads = λ n. family; signalled = λ n. []; root_stopped = true }

at_rest_frozen : freeze_descendants at_rest (pos 5) ≡ complete (seven ∷ six ∷ [])
unfolding freeze_descendants freeze_loop attempt judge failed_to_stop missed all_stopped
    each_stopped same_identities identities merge_identities add_new holds still_live_identities
    live_of is_stopped complete_snapshot_from_table observed_identities live_entries first_nameless
    is_complete row is_zombie sort_identities insert_sorted comes_before walk walk_all walk_loop
    children
at_rest_frozen = refl

freeze_descendants-IsContained_example :
    (true ≡ true)
    × (snapshot_is_complete (complete_snapshot_from_table (pos 5) family) ≡ true)
    × IsContained at_rest (pos 5) (seven ∷ six ∷ [])
freeze_descendants-IsContained_example =
    freeze_descendants-IsContained at_rest (pos 5) (seven ∷ six ∷ []) at_rest_frozen

-- The first reading finds a member in a group, the next none.
abbrev readings : ℕ → List ℤ → List ℤ
readings zero groups = pos 12 ∷ []
readings (suc n) groups = []

sweep_groups_safe_example :
    All
      (λ e. MaySignal (pos 5) e.0)
      (sweep_groups readings (pos 0 ∷ pos 1 ∷ pos 5 ∷ pos 9 ∷ negsuc 3 ∷ []) (pos 5) 2 2).signals
sweep_groups_safe_example =
    sweep_groups_safe readings (pos 0 ∷ pos 1 ∷ pos 5 ∷ pos 9 ∷ negsuc 3 ∷ []) (pos 5) 2 2

sweep-one :
    sweep_groups readings (pos 1 ∷ pos 5 ∷ pos 9 ∷ []) (pos 5) 2 2
    ≡ record { remaining = []; signals = (pos 9, sigterm) ∷ [] }
unfolding sweep_groups targets_of wait_empty wait_loop
sweep-one = refl

abbrev always : ℕ → Bool
always n = true
