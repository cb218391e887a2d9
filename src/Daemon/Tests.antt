-- ===== src/Daemon/Tests.antt =====
-- Runs and instances of the theorems on the daemon.
use pty.Base.{◌≡◌, refl, arith, true, false, List, [], ◌∷◌}
use pty.Protocol.Encode.{max_packet_length, encode_geometry}
use pty.Base.{ℕ, pos, none}
use pty.Daemon.Clients.{
  writable, Client, new_client, Terminal, Daemon, constrains_size, negotiated, narrow, is_refused,
  resize_pty, broadcast_geometry, resize_all, negotiate_size,
}
use pty.Daemon.Clients.{settling, attach_cut}
use pty.Daemon.Clients.Current.{Message, connects, attaches, peeks, prints}
use pty.Daemon.InputBudget
use pty.Daemon.InputBudget.{input_budget, new_budget, hold, drop_hold, notify_all, must_wait}
use pty.Daemon.InputBudget.Bound.{IsKept, run-IsKept}
use pty.Daemon.Outbound
use pty.Daemon.Outbound.{
  Outbound, new_outbound, send, send_out, checked_add, take_next, finish, reject_slow_client, end,
}
use pty.Daemon.Outbound.Budget.{IsBalanced, run-IsBalanced}
use pty.Daemon.Outbound.InOrder.{given, run_in_order}

-- A packet larger than the budget passes alone; the next one waits until it is dropped.
abbrev large_first : List InputBudget.Event
large_first =
    InputBudget.ask 2000000 ∷ InputBudget.ask 5 ∷ InputBudget.release 0 ∷ InputBudget.ask 7 ∷ []

run-IsKept_example :
    IsKept input_budget max_packet_length (InputBudget.run large_first (new_budget input_budget))
run-IsKept_example =
    run-IsKept input_budget max_packet_length large_first
      (omega arith, (omega arith, (omega arith, tt)))

-- The second thread sleeps until the drop has told of itself.
sleeps_until_notified :
    ((InputBudget.run
        (InputBudget.ask 2000000 ∷ InputBudget.ask 5 ∷ InputBudget.release 0 ∷ [])
        (new_budget input_budget)).asleep
      ≡ 5 ∷ [])
    × ((InputBudget.run
          (InputBudget.ask 2000000
            ∷ InputBudget.ask 5
            ∷ InputBudget.release 0
            ∷ InputBudget.notify
            ∷ InputBudget.goes_on 0
            ∷ [])
          (new_budget input_budget)).holds
        ≡ 5 ∷ [])
unfolding InputBudget.run new_budget hold drop_hold notify_all must_wait
sleeps_until_notified = (refl, refl)

-- Two packets, the first of which is written.
abbrev two_sent : List Outbound.Event
two_sent =
    Outbound.sends true 8 (1 ∷ 2 ∷ [])
    ∷ Outbound.takes
    ∷ Outbound.sends true 3 (3 ∷ [])
    ∷ Outbound.writes true
    ∷ Outbound.closes end
    ∷ []

two_sent_open : (Outbound.run two_sent new_outbound).shut_down ≡ false
unfolding Outbound.run send send_out checked_add take_next finish
two_sent_open = refl

run-IsBalanced_example : IsBalanced (Outbound.run two_sent new_outbound)
run-IsBalanced_example = run-IsBalanced two_sent

run_in_order_example : given (Outbound.run two_sent new_outbound) ≡ (1 ∷ 2 ∷ []) ∷ (3 ∷ []) ∷ []
run_in_order_example = run_in_order two_sent two_sent_open

-- A packet over what is left of the budget is rejected, and the socket is shut down.
too_slow : (send true 67108900 (1 ∷ []) new_outbound).shut_down ≡ true
unfolding send checked_add reject_slow_client
too_slow = refl

-- A terminal that is its size and its cells, and shows nothing.
abbrev Blank : Type 0
Blank = (ℕ × ℕ) × (ℕ × ℕ)

abbrev blank : Terminal Blank
blank = record {
  rows_of = λ t. t.0.0;
  cols_of = λ t. t.0.1;
  cell_of = λ t. t.1;
  resize = λ c r t. ((r, c), t.1);
  set_cell = λ w h t. (t.0, (w, h));
  take_replies = λ t. ([], t);
  serialize = λ k t. [];
}

abbrev idle : List (ℕ × Client) → Daemon Blank
idle clients = record {
  clients = clients;
  attach_counter = 0;
  actor = ((24, 80), (8, 16));
  exited = false;
  exit_code = pos 0;
  last_resize = none;
  settle = 80;
  pty_sizes = [];
  pty_input = [];
}

-- A client that attached with this size.
abbrev sized : ℕ → ℕ → ℕ → Client
sized seq rows cols = record (new_client rows cols) { role = writable; attach_seq = seq }

abbrev two_clients : List (ℕ × Client)
two_clients = (1, sized 1 30 100) ∷ (2, sized 2 40 90) ∷ []

two_clients_resize : (negotiate_size blank 7 (idle two_clients)).1.actor.0 ≡ (30, 90)
unfolding negotiate_size resize_all resize_pty broadcast_geometry negotiated narrow constrains_size
    is_refused
two_clients_resize = refl

-- A client with a size of zero makes the loop forget the smaller client before it.
zero_forgets :
    negotiated ((1, sized 1 5 20) ∷ (2, sized 2 0 0) ∷ (3, sized 3 7 30) ∷ []) (0, 0) ≡ (7, 30)
unfolding negotiated narrow constrains_size
zero_forgets = refl

-- A client attaches, prints are broadcast, and another peeks.
abbrev busy : List Message
busy =
    connects 1
    ∷ attaches 5 1 (0 ∷ 30 ∷ 0 ∷ 100 ∷ [])
    ∷ prints (0 ∷ 0 ∷ 0 ∷ 0 ∷ 1 ∷ b'x' ∷ [])
    ∷ connects 2
    ∷ peeks 6 2 (1 ∷ [])
    ∷ []

abbrev waiting : Client
waiting = record {
  role = writable;
  rows = 30;
  cols = 100;
  attach_seq = 1;
  generation = 1;
  phase = settling 85 1 (attach_cut false);
  sent = encode_geometry 30 100 ∷ [];
}
