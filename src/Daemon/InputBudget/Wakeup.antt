-- ===== src/Daemon/InputBudget/Wakeup.antt =====
-- No wakeup is lost: a thread sleeps on the budget only while something is held that makes it wait,
-- and once what is held is dropped and the drop has told of itself, no thread sleeps.
use pty.Base.{ℕ, zero, suc, ◌≡◌, List, [], ◌∷◌}
use pty.Daemon.InputBudget.{InputBudget, hold, Event, release, notify}

-- Each hold that lives is dropped, and one `notify_all` is called behind that.
abbrev pub releases : ℕ → List Event
releases zero = notify ∷ []
releases (suc n) = release 0 ∷ releases n

-- Nothing is pending, nobody sleeps, and each woken thread gets its hold when it goes on.
pub record IsFree (b : InputBudget) : Type 0 where
  pub nothing_pending : b.pending ≡ 0
  pub nobody_asleep : b.asleep ≡ []
  pub gets_through : (bytes : ℕ) → (hold b bytes).holds ≡ bytes ∷ []
  pub stays_awake : (bytes : ℕ) → (hold b bytes).asleep ≡ []
