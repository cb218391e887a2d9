-- ===== src/Process/Walk/Reach.antt =====
-- The walk yields the descendants of the root: all of them, each once, and nothing else.
use mathlib.Core.Path.{subst}
use pty.Base.{
  ◌≢◌, ℕ, zero, suc, ◌≡◌, refl, sym, arith, Bool, true, false, List, [], ◌∷◌, ◌++◌, some, length, ℤ,
  int_eq, int_mem, int_eq_iff, int_eq_refl, inl, inr, Bool-cases, ◌||◌, All,
}
use pty.Process.Table.{Row, ProcTable}
use pty.Process.Walk.{children, at_depth, walk_loop, walk_all, walk, found}
use pty.Process.Walk.Rounds.{walk_all_total}
use pty.Process.Walk.Yields.{
  Descends, child, deeper, pids, All-append, All-at_depth, walk_round, All-map,
}
use pty.Process.Walk.Covers.{walk_reaches}

walk_sound :
    (fuel : ℕ) (root : ℤ) (rows : List Row) (seen : List ℤ) (queue l : List (ℤ × ℕ))
    → All (λ e. Descends root rows e.0 e.1) queue
    → walk_loop fuel rows seen queue ≡ some l
    → All (λ e. Descends root rows e.0 e.1) l
unfolding walk_loop
walk_sound zero root rows seen [] l h e = ground arith
walk_sound (suc fuel) root rows seen [] l h e = ground arith
walk_sound zero root rows seen ((pid, d) ∷ queue) l h e = cc
walk_sound (suc fuel) root rows seen ((pid, d) ∷ queue) l h e =
    elim (Bool-cases (int_mem pid seen)) [
      | inl m ↦ walk_sound fuel root rows seen queue l h.1 (rw (m, walk_loop) at e)
      | inr m ↦
          let (rest, is, e') = walk_round fuel rows seen pid d queue m e in
          let queued =
            All-append (λ (x : ℤ × ℕ). Descends root rows x.0 x.1) queue
              (at_depth (suc d) (children pid rows)) h.1
              (All-at_depth (λ x. Descends root rows x.0 x.1) (suc d) (children pid rows)
                (λ q c. deeper h.0 c)) in
          rw is (
            h.0,
            walk_sound fuel root rows (pid ∷ seen) (queue ++ at_depth (suc d) (children pid rows))
                rest queued e',
          )
    ]

-- No pid is yielded that was seen, and none twice.
abbrev pub IsDistinct : List (ℤ × ℕ) → Type 0
IsDistinct [] = Unit
IsDistinct ((p, d) ∷ l) = (int_mem p (pids l) ≡ false) × IsDistinct l

unseen_later :
    (pid : ℤ) (seen : List ℤ) (l : List (ℤ × ℕ))
    → All (λ e. int_mem e.0 (pid ∷ seen) ≡ false) l
    → (int_mem pid (pids l) ≡ false) × All (λ e. int_mem e.0 seen ≡ false) l
unseen_later pid seen [] h = (refl, tt)
unseen_later pid seen ((q, d) ∷ l) h =
    let rest = unseen_later pid seen l h.1 in
    elim (Bool-cases (int_eq q pid)) [
      | inl e ↦ absurd (ground (arith, h.0))
      | inr e ↦ (rw (int_eq_sym pid q e) rest.0, (ground (arith, h.0), rest.1))
    ]
  where
    int_eq_sym : (a b : ℤ) → int_eq b a ≡ false → int_eq a b ≡ false
    int_eq_sym a b k = elim (Bool-cases (int_eq a b)) [
      | inl e ↦ absurd (ground (arith, k, int_eq_refl b, (int_eq_iff a b).0 e))
      | inr e ↦ e
    ]

walk_loop-IsDistinct :
    (fuel : ℕ) (rows : List Row) (seen : List ℤ) (queue l : List (ℤ × ℕ))
    → walk_loop fuel rows seen queue ≡ some l
    → All (λ e. int_mem e.0 seen ≡ false) l × IsDistinct l
unfolding walk_loop
walk_loop-IsDistinct zero rows seen [] l e = ground arith
walk_loop-IsDistinct (suc fuel) rows seen [] l e = ground arith
walk_loop-IsDistinct zero rows seen ((pid, d) ∷ queue) l e = cc
walk_loop-IsDistinct (suc fuel) rows seen ((pid, d) ∷ queue) l e =
    elim (Bool-cases (int_mem pid seen)) [
      | inl m ↦ walk_loop-IsDistinct fuel rows seen queue l (rw (m, walk_loop) at e)
      | inr m ↦
          let (rest, is, e') = walk_round fuel rows seen pid d queue m e in
          let ih =
            walk_loop-IsDistinct fuel rows (pid ∷ seen)
              (queue ++ at_depth (suc d) (children pid rows)) rest e' in
          let later = unseen_later pid seen rest ih.0 in
          subst (λ k. All (λ (x : ℤ × ℕ). int_mem x.0 seen ≡ false) k × IsDistinct k) (sym is)
            ((m, later.1), (later.0, ih.1))
    ]

not_root : (root : ℤ) (e : ℤ × ℕ) → int_mem e.0 (root ∷ []) ≡ false → e.0 ≢ root
not_root root e h same =
    let eq : int_eq e.0 root ≡ true = (int_eq_iff e.0 root).1 same in cc (or_left _ false eq)
  where
    or_left : (a b : Bool) → a ≡ true → (a || b) ≡ true
    or_left a b k = rw k

abbrev WalkFacts : ℤ → List Row → List (ℤ × ℕ) → Type 0
WalkFacts root rows l =
    All (λ e. Descends root rows e.0 e.1) l × All (λ e. e.0 ≢ root) l × IsDistinct l

-- For every table, with cycles and all: the walk yields descendants of the root only, each with
-- the length of a chain of parents that leads to the root, no pid twice and never the root.
pub walk-Descends :
    (root : ℤ) (t : ProcTable)
    → All (λ e. Descends root t.rows e.0 e.1) (walk root t)
      × All (λ e. e.0 ≢ root) (walk root t)
      × IsDistinct (walk root t)
unfolding walk walk_all
walk-Descends root t =
    let (l, e) = walk_all_total root t.rows in
    let first = at_depth 1 (children root t.rows) in
    let apart = walk_loop-IsDistinct (length t.rows) t.rows (root ∷ []) first l e in
    subst (λ o. WalkFacts root t.rows (found o)) (sym e)
      (
        walk_sound (length t.rows) root t.rows (root ∷ []) first l
            (All-at_depth (λ x. Descends root t.rows x.0 x.1) 1 (children root t.rows)
              (λ q c. child c))
            e,
        All-map (λ (x : ℤ × ℕ). int_mem x.0 (root ∷ []) ≡ false) (λ x. x.0 ≢ root) l (not_root root)
            apart.0,
        apart.1,
      )

-- Every descendant of the root but the root itself is yielded.
pub walk_complete :
    (root : ℤ) (t : ProcTable) {pid : ℤ} {d : ℕ}
    → Descends root t.rows pid d
    → pid ≢ root
    → int_mem pid (pids (walk root t)) ≡ true
unfolding walk
walk_complete root t {pid} r ne =
    let (l, e) = walk_all_total root t.rows in
    elim (walk_reaches root t.rows l e r) [
      | inl h ↦ absurd (ne ((int_eq_iff pid root).0 h))
      | inr h ↦ rw (e, found) h
    ]
