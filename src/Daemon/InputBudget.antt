-- ===== src/Daemon/InputBudget.antt =====
-- `InputBudget` of crates/pty/src/daemon/input_budget.rs, with its mutex and its condition variable.
-- What a thread does while it has the lock is one step, and so is `notify_all`, which a dropped
-- hold calls after it has given the lock back; the steps of all threads are one sequence. The
-- threads asleep on the condition variable, and those that are woken and do not have the lock yet,
-- are lists of the bytes that they ask for. A condition variable may wake a thread without a call.
pub mod Bound
pub mod Wakeup
use pty.Base.{
  ℕ, zero, suc, ◌+◌, ◌-◌, ◌*◌, Bool, true, false, ◌&&◌, List, [], ◌∷◌, ◌++◌, Option, none, some,
  ltb, if◌then◌else◌,
}

pub record InputBudget : Type 0 where
  pub limit : ℕ
  pub pending : ℕ
  -- the bytes of the holds that live
  pub holds : List ℕ
  pub asleep : List ℕ
  pub woken : List ℕ
  -- the calls of `notify_all` that are still to come
  pub to_notify : ℕ

abbrev pub input_budget : ℕ
input_budget = 1048576

unfoldable pub new_budget : ℕ → InputBudget
new_budget limit = record {
  limit = limit;
  pending = 0;
  holds = [];
  asleep = [];
  woken = [];
  to_notify = 0;
}

-- The condition of the wait.
unfoldable pub must_wait : InputBudget → ℕ → Bool
must_wait b bytes = ltb 0 b.pending && ltb b.limit (b.pending + bytes)

abbrev pub granted : InputBudget → ℕ → InputBudget
granted b bytes = record b { pending = b.pending + bytes; holds = bytes ∷ b.holds }

-- `hold`, when its thread has the lock: one test of the loop, and then a wait or the hold.
unfoldable pub hold : InputBudget → ℕ → InputBudget
hold b bytes = if must_wait b bytes then record b { asleep = bytes ∷ b.asleep } else granted b bytes

-- The list without one entry, and that entry.
abbrev pub remove_at : ℕ → List ℕ → Option (ℕ × List ℕ)
remove_at i [] = none
remove_at zero (x ∷ xs) = some (x, xs)
remove_at (suc i) (x ∷ xs) = elim (remove_at i xs) [ none ↦ none | some p ↦ some (p.0, x ∷ p.1) ]

-- A woken thread gets the lock again, and is back at the test of the loop.
abbrev pub resume_with : InputBudget → Option (ℕ × List ℕ) → InputBudget
resume_with b none = b
resume_with b (some (bytes, rest)) = hold (record b { woken = rest }) bytes

abbrev pub resume : InputBudget → ℕ → InputBudget
resume b i = resume_with b (remove_at i b.woken)

-- The drop of a hold up to where it gives the lock back.
abbrev pub drop_with : InputBudget → Option (ℕ × List ℕ) → InputBudget
drop_with b none = b
drop_with b (some (bytes, rest)) = record b {
  pending = b.pending - bytes;
  holds = rest;
  to_notify = suc b.to_notify;
}

unfoldable pub drop_hold : InputBudget → ℕ → InputBudget
drop_hold b i = drop_with b (remove_at i b.holds)

-- The end of the drop: `notify_all`.
abbrev pub notify_due : ℕ → InputBudget → InputBudget
notify_due zero b = b
notify_due (suc n) b = record b { asleep = []; woken = b.asleep ++ b.woken; to_notify = n }

unfoldable pub notify_all : InputBudget → InputBudget
notify_all b = notify_due b.to_notify b

-- A wakeup without a call.
abbrev pub stir_with : InputBudget → Option (ℕ × List ℕ) → InputBudget
stir_with b none = b
stir_with b (some (bytes, rest)) = record b { asleep = rest; woken = bytes ∷ b.woken }

abbrev pub stir : InputBudget → ℕ → InputBudget
stir b i = stir_with b (remove_at i b.asleep)

-- What the threads do: ask for bytes; drop a hold; tell of a drop; go on after a wakeup; or wake up
-- by themselves. A step that no thread can do changes nothing.
pub data Event : Type 0 where
  ask release goes_on wakes : ℕ → Event
  notify : Event

abbrev pub step : Event → InputBudget → InputBudget
step (ask bytes) b = hold b bytes
step (release i) b = drop_hold b i
step (goes_on i) b = resume b i
step (wakes i) b = stir b i
step notify b = notify_all b

unfoldable pub run : List Event → InputBudget → InputBudget
run [] b = b
run (e ∷ es) b = run es (step e b)
