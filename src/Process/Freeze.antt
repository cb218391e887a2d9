-- ===== src/Process/Freeze.antt =====
-- `freeze_descendants` of crates/pty-core/src/process_tree.rs. What the closures answer is the
-- environment of a run: the table of each read, the pids that each stop could signal, and whether
-- the root was stopped. The waits between the attempts are left out.
pub mod Frozen
pub mod Contained
use pty.Base.{
  ℕ, zero, suc, ◌+◌, Bool, true, false, not, ◌&&◌, ◌||◌, List, [], ◌∷◌, Option, none, some,
  if◌then◌else◌, ℤ, int_mem,
}
use pty.Process.Table.{ProcTable, row, is_stopped}
use pty.Process.Snapshot.{
  ProcessIdentity, Reason, root_freeze_failed, descendant_freeze_unverified,
  observed_identity_unavailable, process_tree_not_stopped, process_tree_did_not_quiesce,
  TreeSnapshot, complete, unavailable, identities, complete_snapshot_from_table, merge_identities,
  same_identities, Live, live, unreadable_pid, still_live_identities, all_stopped, same_process,
  shows_stopped,
}

pub record Environment : Type 0 where
  pub reads : ℕ → ProcTable
  pub signalled : ℕ → List ℤ
  pub root_stopped : Bool

abbrev pub freeze_attempts : ℕ
freeze_attempts = 16

-- A target that is still the same live process, took no signal, and is not seen stopped.
unfoldable pub missed : List ℤ → ProcTable → ProcessIdentity → List ProcessIdentity → Bool
missed signalled t target [] = false
missed signalled t target (x ∷ xs) =
    (same_process x target && not (int_mem x.pid signalled) && not (shows_stopped (row t x.pid)))
    || missed signalled t target xs

unfoldable pub failed_to_stop :
    List ProcessIdentity → List ℤ → ProcTable → List ProcessIdentity → Bool
failed_to_stop [] signalled t ids = false
failed_to_stop (target ∷ targets) signalled t ids =
    missed signalled t target ids || failed_to_stop targets signalled t ids

-- What one attempt comes to: an answer, or another attempt with what was seen stopped, and
-- whether something was seen running.
pub data Attempt : Type 0 where
  answer : TreeSnapshot → Attempt
  again : Option (List ProcessIdentity) → Bool → Attempt

abbrev pub agrees : Option (List ProcessIdentity) → List ProcessIdentity → Bool
agrees none ids = false
agrees (some previous) ids = same_identities previous ids

abbrev pub contained : Option Reason → List ProcessIdentity → List ProcessIdentity → TreeSnapshot
contained none observed ids = complete ids
contained (some why) observed ids = unavailable why observed

-- The attempt behind `still_live_identities`.
unfoldable pub judge :
    ℤ
    → Option Reason
    → List ProcessIdentity
    → List ℤ
    → ProcTable
    → List ProcessIdentity
    → Option (List ProcessIdentity)
    → Bool
    → Live
    → Attempt
judge root first targeted signalled t observed previous running (unreadable_pid pid) =
    answer (unavailable (observed_identity_unavailable pid) observed)
judge root first targeted signalled t observed previous running (live ids) =
    if failed_to_stop targeted signalled t ids
    then answer (unavailable descendant_freeze_unverified observed)
    else if all_stopped root ids t
    then (if agrees previous ids
        then answer (contained first observed ids)
        else again (some ids) running)
    else again none true

-- One attempt, on the table read in it and the identities observed so far, that read's included.
unfoldable pub attempt :
    ℤ
    → Option Reason
    → List ProcessIdentity
    → List ℤ
    → ProcTable
    → List ProcessIdentity
    → Option (List ProcessIdentity)
    → Bool
    → TreeSnapshot
    → Attempt
attempt root first targeted signalled t observed previous running (unavailable why ids) =
    answer (unavailable why observed)
attempt root first targeted signalled t observed previous running (complete ids) =
    judge root first targeted signalled t observed previous running
      (still_live_identities observed t)

abbrev pub gave_up : Option Reason → Bool → Reason
gave_up (some why) running = why
gave_up none true = process_tree_not_stopped
gave_up none false = process_tree_did_not_quiesce

-- The loop: the attempts left, and the number of reads made.
unfoldable pub freeze_loop :
    Environment
    → ℤ
    → Option Reason
    → ℕ
    → ℕ
    → List ProcessIdentity
    → Option (List ProcessIdentity)
    → Bool
    → TreeSnapshot
freeze_loop env root first zero made observed previous running =
    unavailable (gave_up first running) observed
freeze_loop env root first (suc left) made observed previous running =
    let t = env.reads made in
    let next = complete_snapshot_from_table root t in
    let merged = merge_identities observed (identities next) in
    elim (attempt root first observed (env.signalled made) t merged previous running next) [
      | answer s ↦ s
      | again previous' running' ↦
          freeze_loop env root first left (suc made) merged previous' running'
    ]

abbrev pub why_unavailable : TreeSnapshot → Option Reason
why_unavailable (complete ids) = none
why_unavailable (unavailable why ids) = some why

abbrev pub attempts_for : Option Reason → ℕ
attempts_for none = freeze_attempts
attempts_for (some why) = 1

unfoldable pub freeze_descendants : Environment → ℤ → TreeSnapshot
freeze_descendants env root =
    let first = complete_snapshot_from_table root (env.reads 0) in
    if not env.root_stopped
    then unavailable root_freeze_failed (identities first)
    else freeze_loop env root (why_unavailable first) (attempts_for (why_unavailable first)) 1
        (identities first) none false
