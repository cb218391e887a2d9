-- ===== src/Actor/Safe.antt =====
-- What holds of the operation actor of crates/pty/src/daemon/operation.rs between two events, and
-- what a write and an end do to it.
pub mod Decides
pub mod Retires
pub mod Hands
pub mod Steps
pub mod Exclusive
use mathlib.Core.Path.{subst}
use pty.Base.{
  ℕ, ◌≡◌, ◌⊎◌, refl, sym, ap, inl, inr, Bool, true, false, List, [], ◌∷◌, Option, none, some, arith,
  if◌then◌else◌, if_intro, Bool-cases, Bytes, Result, ok, err, All,
}
use pty.Operation.Record.{OperationRecord, Phase, check, is_ok, is_consistent}
use pty.Operation.Store.{
  Disk, stored, Landing, lands, fails_before, fails_after, WriteError, stamped, landed, compared,
  swapped, when_consistent, write_cas_as, read_file, OperationRecord_discrete, ReadError,
}
use pty.Actor.{
  Actor, Env, Effect, Label, Stage, deciding, starting, held, ready, done, Pending, decide,
  transfer_commit, transfer_release, transfer_ack, emit, accept, write, branch, finish, abandon,
  ended, worker, WorkerCmd, message, Msg, close,
}
use pty.Actor.Events.Owner.{in_held_phase}
use pty.Actor.Outcome.{
  Outcome, undecided, refused, launched, retiring, retired, transferred, outcome, view, ◌⟶*◌, here,
  Follows, IsJustified, extend,
}

-- From the start, over each entry of the log, to `o`, the way follows the edges.
abbrev pub IsChain : Outcome → List (Effect × Disk) → Type 0
IsChain o [] = undecided ⟶* o
IsChain o ((e, d) ∷ log) = (view d ⟶* o) × IsChain (view d) log

IsChain-extend :
    (o p : Outcome) (log : List (Effect × Disk)) → IsChain o log → Follows o p → IsChain p log
IsChain-extend o p [] c f = extend c f
IsChain-extend o p ((e, d) ∷ log) (c, rest) f = (extend c f, rest)

-- The log is justified, entry by entry, and what is on the disk was reached along the edges.
pub record IsTraced (a : Actor) : Type 0 where
  pub justified : All (λ e. IsJustified e.0 e.1) a.log
  pub path : IsChain (view a.disk) a.log

abbrev pub IsQuiet : Option Pending → Type 0
IsQuiet none = Unit
IsQuiet (some decide) = Unit
IsQuiet (some _) = ⊥

abbrev pub IsUnreleased : Option Pending → Type 0
IsUnreleased none = Unit
IsUnreleased (some decide) = Unit
IsUnreleased (some (transfer_commit request_id)) = Unit
IsUnreleased (some _) = ⊥

abbrev pub IsEarly : Stage → Phase → Type 0
IsEarly deciding p = in_held_phase p ≡ false
IsEarly starting p = in_held_phase p ≡ false
IsEarly _ p = Unit

abbrev pub IsCalm : Stage → Option Pending → Type 0
IsCalm ready p = Unit
IsCalm _ p = IsQuiet p

abbrev pub IsReady : Stage → Type 0
IsReady ready = Unit
IsReady _ = ⊥

abbrev pub IsLate : Stage → Type 0
IsLate deciding = ⊥
IsLate done = ⊥
IsLate _ = Unit

-- After the launch: retiring, launched and not, or handed over.
abbrev pub IsAfter : Stage → Actor → Type 0
IsAfter s a =
    ((a.retiring ≡ true) × (outcome a.op_record ≡ retiring) × IsQuiet a.pending)
    ⊎ (((a.retiring ≡ false) × (outcome a.op_record ≡ launched) × IsUnreleased a.pending)
        ⊎ ((a.retiring ≡ false) × (outcome a.op_record ≡ transferred) × IsReady s))

abbrev pub IsSynced : Actor → Type 0
IsSynced a = a.disk ≡ some (stored a.op_record)

pub record IsLaunched (s : Stage) (a : Actor) : Type 0 where
  pub synced : IsSynced a
  pub after : IsAfter s a
  pub early : IsEarly s a.op_record.phase
  pub calm : IsCalm s a.pending

pub record IsUndecided (a : Actor) : Type 0 where
  pub synced : IsSynced a
  pub undecided : outcome a.op_record ≡ undecided
  pub fresh : a.op_record.retirement ≡ none
  pub steady : a.retiring ≡ false
  pub ticketless : a.tickets ≡ []
  pub early : in_held_phase a.op_record.phase ≡ false
  pub calm : IsQuiet a.pending

abbrev pub IsLive : Stage → Actor → Type 0
IsLive done a = Unit
IsLive deciding a = IsUndecided a
IsLive s a = IsLaunched s a

pub record IsSafe (a : Actor) : Type 0 where
  pub traced : IsTraced a
  pub live : IsLive a.stage a

pub emit-IsTraced :
    (e : Effect) (a : Actor) → IsJustified e a.disk → IsTraced a → IsTraced (emit e a)
emit-IsTraced e a j t = record { justified = (j, t.justified); path = (here, t.path) }

pub emit-IsLive : (s : Stage) (e : Effect) (a : Actor) → IsLive s a → IsLive s (emit e a)
emit-IsLive deciding e a h = record {
  synced = h.synced;
  undecided = h.undecided;
  fresh = h.fresh;
  steady = h.steady;
  ticketless = h.ticketless;
  early = h.early;
  calm = h.calm;
}
emit-IsLive done e a h = tt
emit-IsLive starting e a h = record {
  synced = h.synced;
  after = h.after;
  early = h.early;
  calm = h.calm;
}
emit-IsLive held e a h = record {
  synced = h.synced;
  after = h.after;
  early = h.early;
  calm = h.calm;
}
emit-IsLive ready e a h = record {
  synced = h.synced;
  after = h.after;
  early = h.early;
  calm = h.calm;
}

pub emit-IsSafe : (e : Effect) (a : Actor) → IsJustified e a.disk → IsSafe a → IsSafe (emit e a)
emit-IsSafe e a j h = record {
  traced = emit-IsTraced e a j h.traced;
  live = emit-IsLive a.stage e a h.live;
}

pub finish-IsSafe : (code : ℕ) (a : Actor) → IsTraced a → IsSafe (finish code a)
unfolding finish
finish-IsSafe code a t =
    if_intro IsSafe a.serving
      (λ e. record {
        traced = record { justified = (tt, (tt, t.justified)); path = (here, (here, t.path)) };
        live = tt;
      })
      (λ e. record {
        traced = record { justified = (tt, (tt, t.justified)); path = (here, (here, t.path)) };
        live = tt;
      })

pub abandon-IsSafe : (a : Actor) → IsTraced a → IsSafe (abandon a)
unfolding abandon
abandon-IsSafe a t = finish-IsSafe 1 a t

-- The actor after a write that landed.
abbrev pub saved : Bytes → OperationRecord → Actor → Actor
saved now next a = record a {
  disk = some (stored (stamped now a.op_record next));
  op_record = stamped now a.op_record next;
}

-- What a write leaves: the record that was to be written, or only a disk that the edges reach.
abbrev Landed : Actor → OperationRecord → Bytes → Actor × Bool → Type 0
Landed a next now (b, true) = (is_consistent next ≡ true) × (b ≡ saved now next a)
Landed a next now (b, false) =
    (d : Disk) × (b ≡ record a { disk = d })
    × IsChain (view d) a.log
    × ((d ≡ a.disk) ⊎ (view d ≡ outcome next))

module _ (env : Env) (next : OperationRecord) (a : Actor) (t : IsTraced a) (synced : IsSynced a)
    (follows : Follows (outcome a.op_record) (outcome next)) where
  reached : IsChain (outcome next) a.log
  reached = IsChain-extend _ _ a.log (subst (λ d. IsChain (view d) a.log) synced t.path) follows

  landed-Landed :
      (l : Landing)
      → is_consistent next ≡ true
      → Landed a next env.now (accept a (landed l (stamped env.now a.op_record next) a.disk))
  landed-Landed lands c = (c, refl)
  landed-Landed fails_before c = (a.disk, refl, t.path, inl refl)
  landed-Landed fails_after c =
      (some (stored (stamped env.now a.op_record next)), refl, reached, inr refl)

  compared-Landed :
      (l : Landing)
      → is_consistent next ≡ true
      → (current : OperationRecord) {P : Type 0} (d : Dec P)
      → Landed a next env.now (accept a (compared l env.now a.op_record next a.disk current d))
  compared-Landed l c current (yes p) = landed-Landed l c
  compared-Landed l c current (no n) = (a.disk, refl, t.path, inl refl)

  swapped-Landed :
      (l : Landing)
      → is_consistent next ≡ true
      → (r : Result (Option OperationRecord) ReadError)
      → Landed a next env.now (accept a (swapped l env.now a.op_record next a.disk r))
  swapped-Landed l c (err e) = (a.disk, refl, t.path, inl refl)
  swapped-Landed l c (ok none) = (a.disk, refl, t.path, inl refl)
  swapped-Landed l c (ok (some current)) =
      compared-Landed l c current (OperationRecord_discrete current a.op_record)

  checked-Landed :
      (l : Landing) (r : Result Unit Bytes)
      → check next ≡ r
      → Landed a next env.now (accept a (when_consistent l env.now a.op_record next a.disk r))
  unfolding is_consistent
  checked-Landed l (err e) h = (a.disk, refl, t.path, inl refl)
  checked-Landed l (ok u) h = swapped-Landed l (ap is_ok h) (read_file a.disk)

  write-Landed : (label : Label) → Landed a next env.now (write env next label a)
  unfolding write write_cas_as
  write-Landed label =
      if_intro (Landed a next env.now) a.locked
        (λ e. checked-Landed (env.landing label) (check next) refl)
        (λ e. (a.disk, refl, t.path, inl refl))

  branched :
      (k f : Actor → Actor) (P : Actor → Type 0) (x : Actor × Bool)
      → Landed a next env.now x
      → (is_consistent next ≡ true → IsTraced (saved env.now next a) → P (k (saved env.now next a)))
      → ((d : Disk)
          → IsTraced (record a { disk = d })
          → (d ≡ a.disk) ⊎ (view d ≡ outcome next)
          → P (f (record a { disk = d })))
      → P (branch x k f)
  branched k f P (b, true) (c, e) good bad =
      subst (λ x. P (k x)) (sym e) (good c (record { justified = t.justified; path = reached }))
  branched k f P (b, false) (d, e, p, v) good bad =
      subst (λ x. P (f x)) (sym e) (bad d (record { justified = t.justified; path = p }) v)

  -- A write and what follows it, in either case.
  pub write-IsSafe :
      (k f : Actor → Actor) (label : Label)
      → (is_consistent next ≡ true
          → IsTraced (saved env.now next a)
          → IsSafe (k (saved env.now next a)))
      → ((d : Disk)
          → IsTraced (record a { disk = d })
          → (d ≡ a.disk) ⊎ (view d ≡ outcome next)
          → IsSafe (f (record a { disk = d })))
      → IsSafe (branch (write env next label a) k f)
  write-IsSafe k f label good bad =
      branched k f IsSafe (write env next label a) (write-Landed label) good bad

pub IsQuiet-IsUnreleased : (p : Option Pending) → IsQuiet p → IsUnreleased p
IsQuiet-IsUnreleased none h = tt
IsQuiet-IsUnreleased (some decide) h = tt
IsQuiet-IsUnreleased (some (transfer_commit request_id)) h = absurd h
IsQuiet-IsUnreleased (some transfer_release) h = absurd h
IsQuiet-IsUnreleased (some (transfer_ack sent)) h = absurd h
