-- ===== src/Process/Walk/Yields.antt =====
-- Descent in a table of processes, and what one round of the walk yields.
use pty.Base.{
  ℕ, suc, ◌≡◌, refl, arith, true, false, List, [], ◌∷◌, ◌++◌, Option, none, some, ℤ, int_eq,
  int_mem, int_eq_iff, int_eq_refl, inl, inr, Bool-cases, All, or_true,
}
use pty.Process.Table.{Row}
use pty.Process.Walk.{children, at_depth, walk_loop}

-- A chain of `d` parents leads from `pid` to the root.
pub data Descends (root : ℤ) (rows : List Row) : ℤ → ℕ → Type 0 where
  child : {pid : ℤ} → int_mem pid (children root rows) ≡ true → Descends root rows pid 1
  deeper :
      {parent pid : ℤ} {d : ℕ}
      → Descends root rows parent d
      → int_mem pid (children parent rows) ≡ true
      → Descends root rows pid (suc d)

abbrev pub pids : List (ℤ × ℕ) → List ℤ
pids [] = []
pids ((p, d) ∷ l) = p ∷ pids l

pub All-append {ℓ κ} :
    {A : Type ℓ} (P : A → Type κ) (xs ys : List A) → All P xs → All P ys → All P (xs ++ ys)
All-append P [] ys hx hy = hy
All-append P (x ∷ xs) ys hx hy = (hx.0, All-append P xs ys hx.1 hy)

pub All-left {ℓ κ} : {A : Type ℓ} (P : A → Type κ) (xs ys : List A) → All P (xs ++ ys) → All P xs
All-left P [] ys h = tt
All-left P (x ∷ xs) ys h = (h.0, All-left P xs ys h.1)

pub All-right {ℓ κ} : {A : Type ℓ} (P : A → Type κ) (xs ys : List A) → All P (xs ++ ys) → All P ys
All-right P [] ys h = h
All-right P (x ∷ xs) ys h = All-right P xs ys h.1

pub All-at_depth :
    (P : ℤ × ℕ → Type 0) (d : ℕ) (ps : List ℤ)
    → ((p : ℤ) → int_mem p ps ≡ true → P (p, d))
    → All P (at_depth d ps)
All-at_depth P d [] h = tt
All-at_depth P d (p ∷ ps) h =
    (h p (rw (int_eq_refl p)), All-at_depth P d ps (λ q m. h q (later q m)))
  where
    later : (q : ℤ) → int_mem q ps ≡ true → int_mem q (p ∷ ps) ≡ true
    later q m = elim (Bool-cases (int_eq q p)) [ inl e ↦ rw e | inr e ↦ rw (e, m) ]

pub All-at_depth_mem :
    (P : ℤ → Type 0) (d : ℕ) (ps : List ℤ) (q : ℤ)
    → All (λ (e : ℤ × ℕ). P e.0) (at_depth d ps)
    → int_mem q ps ≡ true
    → P q
All-at_depth_mem P d [] q h m = cc
All-at_depth_mem P d (p ∷ ps) q h m = elim (or_true (int_eq q p) (int_mem q ps) m) [
  | inl e ↦ rw ((int_eq_iff q p).0 e) h.0
  | inr e ↦ All-at_depth_mem P d ps q h.1 e
]

-- What one round yields.
pub walk_round :
    (fuel : ℕ) (rows : List Row) (seen : List ℤ) (pid : ℤ) (d : ℕ) (queue : List (ℤ × ℕ))
    {l : List (ℤ × ℕ)}
    → int_mem pid seen ≡ false
    → walk_loop (suc fuel) rows seen ((pid, d) ∷ queue) ≡ some l
    → (rest : List (ℤ × ℕ)) × (l ≡ (pid, d) ∷ rest)
      × (walk_loop fuel rows (pid ∷ seen) (queue ++ at_depth (suc d) (children pid rows))
          ≡ some rest)
unfolding walk_loop
walk_round fuel rows seen pid d queue {l} m h =
    by_rest (walk_loop fuel rows (pid ∷ seen) (queue ++ at_depth (suc d) (children pid rows))) refl
  where
    by_rest :
        (o : Option (List (ℤ × ℕ)))
        → walk_loop fuel rows (pid ∷ seen) (queue ++ at_depth (suc d) (children pid rows)) ≡ o
        → (rest : List (ℤ × ℕ)) × (l ≡ (pid, d) ∷ rest)
          × (walk_loop fuel rows (pid ∷ seen) (queue ++ at_depth (suc d) (children pid rows))
              ≡ some rest)
    by_rest none e = absurd (ground arith)
    by_rest (some rest) e = (rest, ground arith, e)

pub All-map {ℓ κ μ} :
    {A : Type ℓ} (P : A → Type κ) (Q : A → Type μ) (xs : List A)
    → ((a : A) → P a → Q a)
    → All P xs
    → All Q xs
All-map P Q [] f h = tt
All-map P Q (x ∷ xs) f h = (f x h.0, All-map P Q xs f h.1)

pub All-mem :
    (P : ℤ × ℕ → Type 0) (l : List (ℤ × ℕ)) (p : ℤ)
    → All P l
    → int_mem p (pids l) ≡ true
    → (d : ℕ) × P (p, d)
All-mem P [] p h m = cc
All-mem P ((q, d) ∷ l) p h m = elim (or_true (int_eq p q) (int_mem p (pids l)) m) [
  | inl e ↦ (d, rw ((int_eq_iff p q).0 e) h.0)
  | inr e ↦ All-mem P l p h.1 e
]
