-- ===== src/Process/Walk/Rounds.antt =====
-- The loop of `walk` ends within one round for each row.
use pty.Base.{
  ℕ, zero, suc, ◌+◌, ◌≤◌, ◌≡◌, refl, arith, false, List, [], ◌∷◌, ◌++◌, some, if◌then◌else◌, length,
  length-append, ℤ, int_eq, int_mem, int_eq_iff, inl, inr, Bool-cases,
}
use pty.Process.Table.{Row}
use pty.Process.Walk.{children, at_depth, walk_loop, walk_all}

-- The rows that may still be queued: those whose parent was not seen.
abbrev waiting : List ℤ → List Row → ℕ
waiting seen [] = 0
waiting seen (r ∷ rs) = if int_mem r.ppid seen then waiting seen rs else suc (waiting seen rs)

length-at_depth : (d : ℕ) (ps : List ℤ) → length (at_depth d ps) ≡ length ps
length-at_depth d [] = refl
length-at_depth d (p ∷ ps) = omega (arith, length-at_depth d ps)

-- Seeing a pid moves its children from the waiting rows to the queue.
waiting-children :
    (pid : ℤ) (seen : List ℤ) (rows : List Row)
    → int_mem pid seen ≡ false
    → waiting (pid ∷ seen) rows + length (children pid rows) ≡ waiting seen rows
unfolding children
waiting-children pid seen [] h = refl
waiting-children pid seen (r ∷ rows) h = elim (Bool-cases (int_eq r.ppid pid)) [
  | inl e ↦
      let same : int_mem r.ppid seen ≡ false = rw ((int_eq_iff r.ppid pid).0 e) h in
      rw (e, same) (omega (arith, waiting-children pid seen rows h))
  | inr e ↦ elim (Bool-cases (int_mem r.ppid seen)) [
    | inl m ↦ rw (e, m) (waiting-children pid seen rows h)
    | inr m ↦ rw (e, m) (omega (arith, waiting-children pid seen rows h))
  ]
]

pub walk_loop_total :
    (fuel : ℕ) (rows : List Row) (seen : List ℤ) (queue : List (ℤ × ℕ))
    → length queue + waiting seen rows ≤ fuel
    → (l : List (ℤ × ℕ)) × (walk_loop fuel rows seen queue ≡ some l)
unfolding walk_loop
walk_loop_total zero rows seen [] h = ([], refl)
walk_loop_total (suc fuel) rows seen [] h = ([], refl)
walk_loop_total zero rows seen ((pid, depth) ∷ queue) h = absurd (omega arith)
walk_loop_total (suc fuel) rows seen ((pid, depth) ∷ queue) h =
    elim (Bool-cases (int_mem pid seen)) [
      | inl m ↦
          let (l, e) = walk_loop_total fuel rows seen queue (omega arith) in
          (l, rw (m, walk_loop) e)
      | inr m ↦
          let next = queue ++ at_depth (suc depth) (children pid rows) in
          let (l, e) = walk_loop_total fuel rows (pid ∷ seen) next (
            omega (
              arith,
              length-append queue (at_depth (suc depth) (children pid rows)),
              length-at_depth (suc depth) (children pid rows),
              waiting-children pid seen rows m,
            )) in
          ((pid, depth) ∷ l, rw (m, walk_loop) (rw e))
    ]

waiting_nil : (rows : List Row) → waiting [] rows ≡ length rows
waiting_nil [] = refl
waiting_nil (r ∷ rows) = omega (arith, waiting_nil rows)

-- The walk returns for every root and every list of rows, cycles of parents included: the rounds
-- that it is given are enough.
pub walk_all_total :
    (root : ℤ) (rows : List Row) → (l : List (ℤ × ℕ)) × (walk_all root rows ≡ some l)
unfolding walk_all
walk_all_total root rows =
    walk_loop_total (length rows) rows (root ∷ []) (at_depth 1 (children root rows)) (
      omega (
        arith,
        length-at_depth 1 (children root rows),
        waiting-children root [] rows refl,
        waiting_nil rows,
      ))
