-- ===== src/Process/Walk.antt =====
-- `walk` of crates/pty-core/src/process_tree.rs: the descendants of a process, breadth first.
pub mod Rounds
pub mod Yields
mod Covers
pub mod Reach
use pty.Base.{
  ℕ, zero, suc, ◌+◌, Bool, true, false, List, [], ◌∷◌, ◌++◌, map, Option, none, some, if◌then◌else◌,
  length, ℤ, int_eq, int_mem,
}
use pty.Process.Table.{Row, ProcTable}

-- The entry of `children` for a parent, in the table's order.
unfoldable pub children : ℤ → List Row → List ℤ
children parent [] = []
children parent (r ∷ rs) =
    if int_eq r.ppid parent then r.pid ∷ children parent rs else children parent rs

abbrev pub at_depth : ℕ → List ℤ → List (ℤ × ℕ)
at_depth d [] = []
at_depth d (p ∷ ps) = (p, d) ∷ at_depth d ps

-- The loop, on the pids seen and the queue. `none` means that the fuel ran out.
unfoldable pub walk_loop : ℕ → List Row → List ℤ → List (ℤ × ℕ) → Option (List (ℤ × ℕ))
walk_loop fuel rows seen [] = some []
walk_loop zero rows seen ((pid, depth) ∷ queue) = none
walk_loop (suc fuel) rows seen ((pid, depth) ∷ queue) = elim (int_mem pid seen) [
  | true ↦ walk_loop fuel rows seen queue
  | false ↦
      elim (walk_loop fuel rows (pid ∷ seen) (queue ++ at_depth (suc depth) (children pid rows))) [
        | none ↦ none
        | some rest ↦ some ((pid, depth) ∷ rest)
      ]
]

-- A row is queued once at most, by its parent, so one round for each row is enough.
unfoldable pub walk_all : ℤ → List Row → Option (List (ℤ × ℕ))
walk_all root rows = walk_loop (length rows) rows (root ∷ []) (at_depth 1 (children root rows))

abbrev pub found {ℓ} : {A : Type ℓ} → Option (List A) → List A
found none = []
found (some l) = l

-- `walk`; `walk_all` returns for every table, so the first case of `found` is not reached.
unfoldable pub walk : ℤ → ProcTable → List (ℤ × ℕ)
walk root t = found (walk_all root t.rows)
