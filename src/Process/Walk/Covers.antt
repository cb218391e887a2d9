-- ===== src/Process/Walk/Covers.antt =====
-- The walk reaches every descendant: what it yields is closed under children.
use mathlib.Core.Path.{subst}
use pty.Base.{
  ℕ, zero, suc, ◌≡◌, sym, arith, true, false, List, [], ◌∷◌, ◌++◌, some, length, ℤ, int_eq, int_mem,
  int_eq_iff, int_eq_refl, inl, inr, ◌⊎◌, Bool-cases, All, or_true,
}
use pty.Process.Table.{Row}
use pty.Process.Walk.{children, at_depth, walk_loop, walk_all}
use pty.Process.Walk.Yields.{
  Descends, child, deeper, pids, All-left, All-right, All-at_depth_mem, walk_round, All-map,
  All-mem,
}

-- Seen, or about to be yielded.
abbrev Covered : List ℤ → List (ℤ × ℕ) → ℤ → Type 0
Covered seen l p = (int_mem p seen ≡ true) ⊎ (int_mem p (pids l) ≡ true)

Covered-yielded :
    (seen : List ℤ) (rest : List (ℤ × ℕ)) (pid : ℤ) (d : ℕ) (p : ℤ)
    → Covered (pid ∷ seen) rest p
    → Covered seen ((pid, d) ∷ rest) p
Covered-yielded seen rest pid d p (inl h) = elim (or_true (int_eq p pid) (int_mem p seen) h) [
  | inl e ↦ inr (rw e)
  | inr e ↦ inl e
]
Covered-yielded seen rest pid d p (inr h) =
    inr (elim (Bool-cases (int_eq p pid)) [ inl e ↦ rw e | inr e ↦ rw (e, h) ])

walk_covers :
    (fuel : ℕ) (rows : List Row) (seen : List ℤ) (queue l : List (ℤ × ℕ))
    → walk_loop fuel rows seen queue ≡ some l
    → All (λ e. Covered seen l e.0) queue
unfolding walk_loop
walk_covers zero rows seen [] l e = tt
walk_covers (suc fuel) rows seen [] l e = tt
walk_covers zero rows seen ((pid, d) ∷ queue) l e = cc
walk_covers (suc fuel) rows seen ((pid, d) ∷ queue) l e = elim (Bool-cases (int_mem pid seen)) [
  | inl m ↦ (inl m, walk_covers fuel rows seen queue l (rw (m, walk_loop) at e))
  | inr m ↦
      let (rest, is, e') = walk_round fuel rows seen pid d queue m e in
      let covered =
        walk_covers fuel rows (pid ∷ seen) (queue ++ at_depth (suc d) (children pid rows)) rest
          e' in
      subst (λ k. All (λ (x : ℤ × ℕ). Covered seen k x.0) ((pid, d) ∷ queue)) (sym is)
        (
          inr (rw (int_eq_refl pid)),
          All-map (λ (x : ℤ × ℕ). Covered (pid ∷ seen) rest x.0)
              (λ x. Covered seen ((pid, d) ∷ rest) x.0) queue
              (λ x. Covered-yielded seen rest pid d x.0)
              (All-left _ queue (at_depth (suc d) (children pid rows)) covered),
        )
]

-- All children of an entry are seen or yielded.
abbrev Closed : List Row → List ℤ → List (ℤ × ℕ) → ℤ × ℕ → Type 0
Closed rows seen l e = (c : ℤ) → int_mem c (children e.0 rows) ≡ true → Covered seen l c

walk_loop-Closed :
    (fuel : ℕ) (rows : List Row) (seen : List ℤ) (queue l : List (ℤ × ℕ))
    → walk_loop fuel rows seen queue ≡ some l
    → All (Closed rows seen l) l
unfolding walk_loop
walk_loop-Closed zero rows seen [] l e = ground arith
walk_loop-Closed (suc fuel) rows seen [] l e = ground arith
walk_loop-Closed zero rows seen ((pid, d) ∷ queue) l e = cc
walk_loop-Closed (suc fuel) rows seen ((pid, d) ∷ queue) l e =
    elim (Bool-cases (int_mem pid seen)) [
      | inl m ↦ walk_loop-Closed fuel rows seen queue l (rw (m, walk_loop) at e)
      | inr m ↦
          let (rest, is, e') = walk_round fuel rows seen pid d queue m e in
          let next = queue ++ at_depth (suc d) (children pid rows) in
          let covered = walk_covers fuel rows (pid ∷ seen) next rest e' in
          subst (λ k. All (Closed rows seen k) k) (sym is)
            (
              (λ c k. Covered-yielded seen rest pid d c (
                  All-at_depth_mem (Covered (pid ∷ seen) rest) (suc d) (children pid rows) c
                    (All-right _ queue (at_depth (suc d) (children pid rows)) covered) k)),
              All-map (Closed rows (pid ∷ seen) rest) (Closed rows seen ((pid, d) ∷ rest)) rest
                  (λ x f c k. Covered-yielded seen rest pid d c (f c k))
                  (walk_loop-Closed fuel rows (pid ∷ seen)
                    (queue ++ at_depth (suc d) (children pid rows)) rest e'),
            )
    ]

only_root :
    (root p : ℤ) (l : List (ℤ × ℕ))
    → Covered (root ∷ []) l p
    → (int_eq p root ≡ true) ⊎ (int_mem p (pids l) ≡ true)
only_root root p l (inl h) = inl (elim (or_true (int_eq p root) false h) [ inl k ↦ k | inr k ↦ cc ])
only_root root p l (inr h) = inr h

child_reaches :
    (root : ℤ) (rows : List Row) (l : List (ℤ × ℕ)) (pid : ℤ)
    → walk_all root rows ≡ some l
    → int_mem pid (children root rows) ≡ true
    → (int_eq pid root ≡ true) ⊎ (int_mem pid (pids l) ≡ true)
unfolding walk_all
child_reaches root rows l pid e c = only_root root pid l (
    All-at_depth_mem (Covered (root ∷ []) l) 1 (children root rows) pid
      (walk_covers (length rows) rows (root ∷ []) (at_depth 1 (children root rows)) l e) c)

deeper_reaches :
    (root : ℤ) (rows : List Row) (l : List (ℤ × ℕ)) (parent pid : ℤ)
    → walk_all root rows ≡ some l
    → int_mem parent (pids l) ≡ true
    → int_mem pid (children parent rows) ≡ true
    → (int_eq pid root ≡ true) ⊎ (int_mem pid (pids l) ≡ true)
unfolding walk_all
deeper_reaches root rows l parent pid e m c =
    let closed =
      walk_loop-Closed (length rows) rows (root ∷ []) (at_depth 1 (children root rows)) l e in
    only_root root pid l ((All-mem (Closed rows (root ∷ []) l) l parent closed m).1 pid c)

pub walk_reaches :
    (root : ℤ) (rows : List Row) (l : List (ℤ × ℕ)) {pid : ℤ} {d : ℕ}
    → walk_all root rows ≡ some l
    → Descends root rows pid d
    → (int_eq pid root ≡ true) ⊎ (int_mem pid (pids l) ≡ true)
walk_reaches root rows l e (child {pid} c) = child_reaches root rows l pid e c
walk_reaches root rows l e (deeper {parent} {pid} r c) = elim (walk_reaches root rows l e r) [
  | inl h ↦
      child_reaches root rows l pid e
        (subst (λ q. int_mem pid (children q rows) ≡ true) ((int_eq_iff parent root).0 h) c)
  | inr h ↦ deeper_reaches root rows l parent pid e h c
]
