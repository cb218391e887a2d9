-- ===== src/Process/Sweep/Waits.antt =====
-- What the two waits of crates/pty-core/src/process_tree.rs come to: `wait_loop` of a sweep, and the
-- polls of `terminate_process_group_with`.
use mathlib.Core.Path.{subst}
use pty.Base.{
  Bool, true, false, ◌∙◌, sym, ℕ, zero, suc, ◌+◌, ◌≡◌, ◌≤◌, ◌<◌, ◌==◌, refl, ap, arith, List, ℤ,
  ◌⊎◌, inl, inr, Bool-cases,
}
use pty.Process.Sweep.{no_pids, wait_loop, poll_gone}

-- A wait that begins with the reading `first`, whose clock is before the deadline `polls` times: it
-- answers the reading `last`, each one before it was not empty, and it is empty itself or the
-- deadline is over.
pub record Waited (live : ℕ → List ℤ → List ℤ) (targets : List ℤ) (first polls : ℕ)
    (answer : List ℤ) : Type 0 where
  pub last : ℕ
  pub from_first : first ≤ last
  pub in_time : last ≤ first + polls
  pub answers : answer ≡ live last targets
  pub before : (i : ℕ) → first ≤ i → i < last → no_pids (live i targets) ≡ false
  pub ends : (no_pids answer ≡ true) ⊎ (last ≡ first + polls)

-- The loop, with the readings it has made.
pub wait_loop-Waited :
    (live : ℕ → List ℤ → List ℤ) (targets : List ℤ) (polls n : ℕ) (remaining : List ℤ)
    → remaining ≡ live n targets
    → (w : Waited live targets n polls (wait_loop live targets polls (suc n) remaining).0)
      × ((wait_loop live targets polls (suc n) remaining).1 ≡ suc w.last)
unfolding wait_loop
wait_loop-Waited live targets zero n remaining e = (
  record {
    last = n;
    from_first = omega arith;
    in_time = omega arith;
    answers = e;
    before = λ i a b. absurd (omega arith);
    ends = inr (omega arith);
  },
  refl,
)
wait_loop-Waited live targets (suc polls) n remaining e = elim (Bool-cases (no_pids remaining)) [
  | inl k ↦
      rw (k, wait_loop)
        (
          record {
            last = n;
            from_first = omega arith;
            in_time = omega arith;
            answers = e;
            before = λ i a b. absurd (omega arith);
            ends = inl k;
          },
          refl,
        )
  | inr k ↦
      let (w, made) = wait_loop-Waited live targets polls (suc n) (live (suc n) targets) refl in
      rw (k, wait_loop)
        (
          record {
            last = w.last;
            from_first = omega (arith, w.from_first);
            in_time = omega (arith, w.in_time);
            answers = w.answers;
            before = λ i a b. earlier w.last w.before k i a b;
            ends = elim w.ends [ inl h ↦ inl h | inr h ↦ inr (omega (arith, h)) ];
          },
          made,
        )
]
  where
    earlier :
        (m : ℕ)
        → ((i : ℕ) → suc n ≤ i → i < m → no_pids (live i targets) ≡ false)
        → no_pids remaining ≡ false
        → (i : ℕ) → n ≤ i
        → i < m
        → no_pids (live i targets) ≡ false
    earlier m rest k i a b = elim (Bool-cases (i == n)) [
      | inl same ↦
          let eq : n ≡ i = ground arith in
          subst (λ j. no_pids (live j targets) ≡ false) eq (ap no_pids (sym e) ∙ k)
      | inr other ↦ let above : suc n ≤ i = ground arith in rest i above b
    ]

-- The polls that ask from the number `first` on, with the clock before the deadline `polls` times,
-- and the number of the next question: all but the last were told that the group exists, and the
-- last that it does not, or the deadline is over.
pub record Polled (exists : ℕ → Bool) (first polls next : ℕ) : Type 0 where
  pub last : ℕ
  pub asked : next ≡ suc last
  pub from_first : first ≤ last
  pub in_time : last ≤ first + polls
  pub before : (i : ℕ) → first ≤ i → i < last → exists i ≡ true
  pub ends : (exists last ≡ false) ⊎ (last ≡ first + polls)

pub poll_gone-Polled :
    (exists : ℕ → Bool) (polls n : ℕ) → Polled exists n polls (poll_gone exists polls n)
unfolding poll_gone
poll_gone-Polled exists zero n = record {
  last = n;
  asked = refl;
  from_first = omega arith;
  in_time = omega arith;
  before = λ i a b. absurd (omega arith);
  ends = inr (omega arith);
}
poll_gone-Polled exists (suc polls) n = elim (Bool-cases (exists n)) [
  | inr k ↦
      rw (k, poll_gone)
        (record {
          last = n;
          asked = refl;
          from_first = omega arith;
          in_time = omega arith;
          before = λ i a b. absurd (omega arith);
          ends = inl k;
        })
  | inl k ↦
      let w = poll_gone-Polled exists polls (suc n) in
      rw (k, poll_gone)
        (record {
          last = w.last;
          asked = w.asked;
          from_first = omega (arith, w.from_first);
          in_time = omega (arith, w.in_time);
          before = λ i a b. earlier w.last w.before k i a b;
          ends = elim w.ends [ inl h ↦ inl h | inr h ↦ inr (omega (arith, h)) ];
        })
]
  where
    earlier :
        (m : ℕ)
        → ((i : ℕ) → suc n ≤ i → i < m → exists i ≡ true)
        → exists n ≡ true
        → (i : ℕ) → n ≤ i
        → i < m
        → exists i ≡ true
    earlier m rest k i a b = elim (Bool-cases (i == n)) [
      | inl same ↦ let eq : n ≡ i = ground arith in subst (λ j. exists j ≡ true) eq k
      | inr other ↦ let above : suc n ≤ i = ground arith in rest i above b
    ]
