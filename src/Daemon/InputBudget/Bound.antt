-- ===== src/Daemon/InputBudget/Bound.antt =====
-- What is pending is what is held, and it is within the limit but for one packet alone.
use mathlib.Core.Path.{subst}
use pty.Base.{
  ℕ, zero, suc, ◌+◌, ◌≤◌, ◌<◌, ◌≡◌, refl, arith, true, false, List, [], ◌∷◌, ◌++◌, Option, none,
  some, max, All, ◌⊎◌, inl, inr, if_intro,
}
use pty.Daemon.InputBudget.{
  InputBudget, new_budget, must_wait, granted, hold, remove_at, resume_with, resume, drop_with,
  drop_hold, notify_due, notify_all, stir_with, stir, Event, ask, release, goes_on, wakes, notify,
  run,
}

abbrev pub sum : List ℕ → ℕ
sum [] = 0
sum (x ∷ xs) = x + sum xs

-- What is pending is the sum of the holds, none of which is over `most`, and is not over the
-- larger of the limit and `most`.
pub record IsKept (limit most : ℕ) (b : InputBudget) : Type 0 where
  pub same_limit : b.limit ≡ limit
  pub adds_up : b.pending ≡ sum b.holds
  pub each : All (λ n. n ≤ most) b.holds
  pub bounded : b.pending ≤ max limit most

must_wait-room :
    (limit most bytes : ℕ) (b : InputBudget)
    → bytes ≤ most
    → b.limit ≡ limit
    → must_wait b bytes ≡ false
    → b.pending + bytes ≤ max limit most
unfolding must_wait
must_wait-room limit most bytes b small same e = ground arith

-- The threads that wait ask for no more than `most` either, and a thread sleeps only while it must
-- wait, or while a drop is still to tell of itself.
pub record Inv (limit most : ℕ) (b : InputBudget) : Type 0 where
  pub kept : IsKept limit most b
  pub asleep_small : All (λ n. n ≤ most) b.asleep
  pub woken_small : All (λ n. n ≤ most) b.woken
  pub sleeps : All (λ n. must_wait b n ≡ true) b.asleep ⊎ (0 < b.to_notify)

-- What makes a thread wait goes on doing so when more is pending.
must_wait-more :
    (b : InputBudget) (bytes : ℕ) (l : List ℕ)
    → All (λ n. must_wait b n ≡ true) l
    → All (λ n. must_wait (granted b bytes) n ≡ true) l
unfolding must_wait
must_wait-more b bytes [] a = tt
must_wait-more b bytes (n ∷ l) a = (ground (arith, a.0), must_wait-more b bytes l a.1)

hold-Inv :
    (limit most bytes : ℕ) (b : InputBudget)
    → bytes ≤ most
    → Inv limit most b
    → Inv limit most (hold b bytes)
unfolding hold must_wait
hold-Inv limit most bytes b small k =
    if_intro (Inv limit most) (must_wait b bytes)
      (λ e. record {
        kept = record {
          same_limit = k.kept.same_limit;
          adds_up = k.kept.adds_up;
          each = k.kept.each;
          bounded = k.kept.bounded;
        };
        asleep_small = (small, k.asleep_small);
        woken_small = k.woken_small;
        sleeps = elim k.sleeps [ inl a ↦ inl (e, a) | inr p ↦ inr p ];
      })
      (λ e. record {
        kept = record {
          same_limit = k.kept.same_limit;
          adds_up = omega (arith, k.kept.adds_up);
          each = (small, k.kept.each);
          bounded = must_wait-room limit most bytes b small k.kept.same_limit e;
        };
        asleep_small = k.asleep_small;
        woken_small = k.woken_small;
        sleeps = elim k.sleeps [ inl a ↦ inl (must_wait-more b bytes b.asleep a) | inr p ↦ inr p ];
      })

-- Removing an entry takes it out of the sum.
remove_at-sum :
    (i : ℕ) (xs : List ℕ) (p : ℕ × List ℕ) → remove_at i xs ≡ some p → (sum xs ≡ p.0 + sum p.1)
remove_at-sum i [] p h = cc
remove_at-sum zero (x ∷ xs) p h = ground arith
remove_at-sum (suc i) (x ∷ xs) p h = by_rest (remove_at i xs) refl h (remove_at-sum i xs)
  where
    by_rest :
        (o : Option (ℕ × List ℕ))
        → remove_at i xs ≡ o
        → elim o as (λ x. Option (ℕ × List ℕ)) [ none ↦ none | some p ↦ some (p.0, x ∷ p.1) ]
          ≡ some p
        → ((q : ℕ × List ℕ) → remove_at i xs ≡ some q → sum xs ≡ q.0 + sum q.1)
        → sum (x ∷ xs) ≡ p.0 + sum p.1
    by_rest none e h ih = cc
    by_rest (some q) e h ih = let rest = ih q e in ground arith

remove_at-All :
    (P : ℕ → Type 0) (i : ℕ) (xs : List ℕ) (p : ℕ × List ℕ)
    → remove_at i xs ≡ some p
    → All P xs
    → All P p.1
remove_at-All P i [] p h a = cc
remove_at-All P zero (x ∷ xs) p h a = ground (arith, a)
remove_at-All P (suc i) (x ∷ xs) p h a =
    by_rest (remove_at i xs) refl h (λ q e. remove_at-All P i xs q e a.1)
  where
    by_rest :
        (o : Option (ℕ × List ℕ))
        → remove_at i xs ≡ o
        → elim o as (λ x. Option (ℕ × List ℕ)) [ none ↦ none | some p ↦ some (p.0, x ∷ p.1) ]
          ≡ some p
        → ((q : ℕ × List ℕ) → remove_at i xs ≡ some q → All P q.1)
        → All P p.1
    by_rest none e h ih = cc
    by_rest (some q) e h ih =
        let same : x ∷ q.1 ≡ p.1 = ground arith in subst (All P) same (a.0, ih q e)

drop_hold-Inv :
    (limit most i : ℕ) (b : InputBudget) → Inv limit most b → Inv limit most (drop_hold b i)
unfolding drop_hold
drop_hold-Inv limit most i b k = by_removed (remove_at i b.holds) refl
  where
    by_removed :
        (o : Option (ℕ × List ℕ)) → remove_at i b.holds ≡ o → Inv limit most (drop_with b o)
    by_removed none e = k
    by_removed (some p) e =
        let adds = remove_at-sum i b.holds p e in
        record {
          kept = record {
            same_limit = k.kept.same_limit;
            adds_up = omega (arith, k.kept.adds_up);
            each = remove_at-All (λ n. n ≤ most) i b.holds p e k.kept.each;
            bounded = omega (arith, k.kept.bounded);
          };
          asleep_small = k.asleep_small;
          woken_small = k.woken_small;
          sleeps = inr (omega arith);
        }

-- What is left of a list, and the entry taken out, are what the list was.
remove_at-entry :
    (P : ℕ → Type 0) (i : ℕ) (xs : List ℕ) (p : ℕ × List ℕ)
    → remove_at i xs ≡ some p
    → All P xs
    → P p.0
remove_at-entry P i [] p h a = cc
remove_at-entry P zero (x ∷ xs) p h a = ground (arith, a)
remove_at-entry P (suc i) (x ∷ xs) p h a =
    by_rest (remove_at i xs) refl h (λ q e. remove_at-entry P i xs q e a.1)
  where
    by_rest :
        (o : Option (ℕ × List ℕ))
        → remove_at i xs ≡ o
        → elim o as (λ x. Option (ℕ × List ℕ)) [ none ↦ none | some p ↦ some (p.0, x ∷ p.1) ]
          ≡ some p
        → ((q : ℕ × List ℕ) → remove_at i xs ≡ some q → P q.0)
        → P p.0
    by_rest none e h ih = cc
    by_rest (some q) e h ih = let same : q.0 ≡ p.0 = ground arith in subst P same (ih q e)

resume-Inv : (limit most i : ℕ) (b : InputBudget) → Inv limit most b → Inv limit most (resume b i)
unfolding must_wait
resume-Inv limit most i b k = by_removed (remove_at i b.woken) refl
  where
    by_removed :
        (o : Option (ℕ × List ℕ)) → remove_at i b.woken ≡ o → Inv limit most (resume_with b o)
    by_removed none e = k
    by_removed (some p) e =
        hold-Inv limit most p.0 (record b { woken = p.1 })
          (remove_at-entry (λ n. n ≤ most) i b.woken p e k.woken_small)
          (record {
            kept = record {
              same_limit = k.kept.same_limit;
              adds_up = k.kept.adds_up;
              each = k.kept.each;
              bounded = k.kept.bounded;
            };
            asleep_small = k.asleep_small;
            woken_small = remove_at-All (λ n. n ≤ most) i b.woken p e k.woken_small;
            sleeps = k.sleeps;
          })

stir-Inv : (limit most i : ℕ) (b : InputBudget) → Inv limit most b → Inv limit most (stir b i)
unfolding must_wait
stir-Inv limit most i b k = by_removed (remove_at i b.asleep) refl
  where
    by_removed :
        (o : Option (ℕ × List ℕ)) → remove_at i b.asleep ≡ o → Inv limit most (stir_with b o)
    by_removed none e = k
    by_removed (some p) e = record {
      kept = record {
        same_limit = k.kept.same_limit;
        adds_up = k.kept.adds_up;
        each = k.kept.each;
        bounded = k.kept.bounded;
      };
      asleep_small = remove_at-All (λ n. n ≤ most) i b.asleep p e k.asleep_small;
      woken_small = (remove_at-entry (λ n. n ≤ most) i b.asleep p e k.asleep_small, k.woken_small);
      sleeps = elim k.sleeps [
        | inl a ↦ inl (remove_at-All (λ n. must_wait b n ≡ true) i b.asleep p e a)
        | inr h ↦ inr h
      ];
    }

All-append : (P : ℕ → Type 0) (xs ys : List ℕ) → All P xs → All P ys → All P (xs ++ ys)
All-append P [] ys a b = b
All-append P (x ∷ xs) ys a b = (a.0, All-append P xs ys a.1 b)

notify_all-Inv :
    (limit most : ℕ) (b : InputBudget) → Inv limit most b → Inv limit most (notify_all b)
unfolding notify_all
notify_all-Inv limit most b k = by_due b.to_notify
  where
    by_due : (n : ℕ) → Inv limit most (notify_due n b)
    by_due zero = k
    by_due (suc n) = record {
      kept = record {
        same_limit = k.kept.same_limit;
        adds_up = k.kept.adds_up;
        each = k.kept.each;
        bounded = k.kept.bounded;
      };
      asleep_small = tt;
      woken_small = All-append (λ n. n ≤ most) b.asleep b.woken k.asleep_small k.woken_small;
      sleeps = inl tt;
    }

-- The packets asked for are no larger than `most`.
abbrev pub AsksAtMost : ℕ → List Event → Type 0
AsksAtMost most [] = Unit
AsksAtMost most (ask bytes ∷ es) = (bytes ≤ most) × AsksAtMost most es
AsksAtMost most (_ ∷ es) = AsksAtMost most es

pub run-Inv :
    (limit most : ℕ) (es : List Event) (b : InputBudget)
    → Inv limit most b
    → AsksAtMost most es
    → Inv limit most (run es b)
unfolding run
run-Inv limit most [] b k h = k
run-Inv limit most (ask bytes ∷ es) b k h =
    run-Inv limit most es _ (hold-Inv limit most bytes b h.0 k) h.1
run-Inv limit most (release i ∷ es) b k h =
    run-Inv limit most es _ (drop_hold-Inv limit most i b k) h
run-Inv limit most (goes_on i ∷ es) b k h = run-Inv limit most es _ (resume-Inv limit most i b k) h
run-Inv limit most (wakes i ∷ es) b k h = run-Inv limit most es _ (stir-Inv limit most i b k) h
run-Inv limit most (notify ∷ es) b k h = run-Inv limit most es _ (notify_all-Inv limit most b k) h

pub new_budget-Inv : (limit most : ℕ) → Inv limit most (new_budget limit)
unfolding new_budget
new_budget-Inv limit most = record {
  kept = record { same_limit = refl; adds_up = refl; each = tt; bounded = omega arith };
  asleep_small = tt;
  woken_small = tt;
  sleeps = inl tt;
}

-- However the threads of the clients ask, sleep, wake and drop: what is pending is the sum of the
-- holds that live, and is never over the larger of the limit and the largest packet.
pub run-IsKept :
    (limit most : ℕ) (events : List Event)
    → AsksAtMost most events
    → IsKept limit most (run events (new_budget limit))
run-IsKept limit most events small =
    (run-Inv limit most events (new_budget limit) (new_budget-Inv limit most) small).kept
