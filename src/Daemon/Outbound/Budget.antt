-- ===== src/Daemon/Outbound/Budget.antt =====
-- The counter of a client's queue is what the queue holds, within the budget; and a socket that is
-- open has been given every packet, in order.
use pty.Base.{
  ℕ, ◌+◌, ◌-◌, ◌≤◌, ◌≡◌, refl, sym, ap, ◌∙◌, arith, Bool, true, false, List, [], ◌∷◌, ◌++◌, Option,
  none, some, Bytes, if_intro, option_intro,
}
use pty.Daemon.Outbound.{
  QueuedBytes, Out, queued, end, destroy, Outbound, new_outbound, checked_add, release, send_out,
  reject_slow_client, within_budget, charged, with_charge, send, release_all, stop, taken,
  take_next, finished, finish, Event, sends, closes, takes, writes, apply, run,
}

abbrev pub charges : List Out → ℕ
charges [] = 0
charges (queued q ∷ outs) = q.charge + charges outs
charges (end ∷ outs) = charges outs
charges (destroy ∷ outs) = charges outs

abbrev pub charge_of : Option QueuedBytes → ℕ
charge_of none = 0
charge_of (some q) = q.charge

pub record IsBalanced (c : Outbound) : Type 0 where
  pub adds_up : c.pending_bytes ≡ charges c.channel + charge_of c.in_flight
  pub bounded : c.pending_bytes ≤ 67108864
  pub rejected_shut : c.rejected ≡ true → c.shut_down ≡ true
  pub unheard_shut : c.receiving ≡ false → c.shut_down ≡ true

charges-append : (xs ys : List Out) → charges (xs ++ ys) ≡ charges xs + charges ys
charges-append [] ys = omega arith
charges-append (queued q ∷ xs) ys = omega (arith, charges-append xs ys)
charges-append (end ∷ xs) ys = charges-append xs ys
charges-append (destroy ∷ xs) ys = charges-append xs ys

release_all-charges : (outs : List Out) (n : ℕ) → release_all outs n ≡ n - charges outs
release_all-charges [] n = omega arith
release_all-charges (queued q ∷ outs) n = omega (arith, release_all-charges outs (n - q.charge))
release_all-charges (end ∷ outs) n = release_all-charges outs n
release_all-charges (destroy ∷ outs) n = release_all-charges outs n

stop-IsBalanced :
    (c : Outbound)
    → charges c.channel + charge_of c.in_flight ≡ c.pending_bytes
    → c.pending_bytes ≤ 67108864
    → IsBalanced (stop c)
unfolding stop
stop-IsBalanced c h b = record {
  adds_up = omega (arith, release_all-charges c.channel c.pending_bytes);
  bounded = omega (arith, release_all-charges c.channel c.pending_bytes);
  rejected_shut = λ e. refl;
  unheard_shut = λ e. refl;
}

pub reject_slow_client-IsBalanced :
    (lock_free : Bool) (c : Outbound) → IsBalanced c → IsBalanced (reject_slow_client lock_free c)
unfolding reject_slow_client
reject_slow_client-IsBalanced lock_free c k =
    if_intro IsBalanced c.rejected (λ e. k)
      (λ e. record {
        adds_up = k.adds_up;
        bounded = k.bounded;
        rejected_shut = λ h. refl;
        unheard_shut = λ h. refl;
      })

-- What `send_out` is given is counted already.
pub send_out-IsBalanced :
    (out : Out) (c : Outbound)
    → c.pending_bytes ≡ charges c.channel + charge_of c.in_flight + charges (out ∷ [])
    → c.pending_bytes ≤ 67108864
    → (c.rejected ≡ true → c.shut_down ≡ true)
    → IsBalanced (send_out out c)
unfolding send_out
send_out-IsBalanced out c h b r =
    if_intro IsBalanced c.receiving
      (λ e. record {
        adds_up = omega (arith, charges-append c.channel (out ∷ []));
        bounded = b;
        rejected_shut = r;
        unheard_shut = λ k. cc;
      })
      (λ e. dropped out h)
  where
    dropped :
        (o : Out)
        → c.pending_bytes ≡ charges c.channel + charge_of c.in_flight + charges (o ∷ [])
        → IsBalanced (record c { pending_bytes = release o c.pending_bytes; shut_down = true })
    dropped (queued q) h = record {
      adds_up = omega arith;
      bounded = omega arith;
      rejected_shut = λ h. refl;
      unheard_shut = λ h. refl;
    }
    dropped end h = record {
      adds_up = omega arith;
      bounded = b;
      rejected_shut = λ h. refl;
      unheard_shut = λ h. refl;
    }
    dropped destroy h = record {
      adds_up = omega arith;
      bounded = b;
      rejected_shut = λ h. refl;
      unheard_shut = λ h. refl;
    }

-- What passes the budget is the sum, and is within it.
fits :
    (pending charge total : ℕ)
    → within_budget (checked_add pending charge) ≡ some total
    → (total ≡ pending + charge) × (total ≤ 67108864)
unfolding checked_add
fits pending charge total h = (ground arith, ground arith)

charged-IsBalanced :
    (lock_free : Bool) (bytes : Bytes) (charge : ℕ) (c : Outbound) (o : Option ℕ)
    → within_budget (checked_add c.pending_bytes charge) ≡ o
    → IsBalanced c
    → IsBalanced (charged lock_free bytes charge o c)
charged-IsBalanced lock_free bytes charge c none e k = reject_slow_client-IsBalanced lock_free c k
charged-IsBalanced lock_free bytes charge c (some total) e k =
    let (sum, small) = fits c.pending_bytes charge total e in
    send_out-IsBalanced (queued (record { bytes = bytes; charge = charge }))
      (record c { pending_bytes = total }) (omega (arith, k.adds_up)) small k.rejected_shut

send-IsBalanced :
    (lock_free : Bool) (capacity : ℕ) (bytes : Bytes) (c : Outbound)
    → IsBalanced c
    → IsBalanced (send lock_free capacity bytes c)
unfolding send
send-IsBalanced lock_free capacity bytes c k =
    if_intro IsBalanced c.rejected (λ e. k) (λ e. by_charge (checked_add capacity 64))
  where
    by_charge : (o : Option ℕ) → IsBalanced (with_charge lock_free bytes o c)
    by_charge none = reject_slow_client-IsBalanced lock_free c k
    by_charge (some charge) = charged-IsBalanced lock_free bytes charge c _ refl k

take_next-IsBalanced : (c : Outbound) → IsBalanced c → IsBalanced (take_next c)
unfolding take_next
take_next-IsBalanced c k =
    option_intro IsBalanced c.in_flight (λ f. by_channel c.channel refl f) (λ q f. k)
  where
    counted :
        (outs : List Out)
        → c.channel ≡ outs
        → c.in_flight ≡ none
        → c.pending_bytes ≡ charges outs + charge_of none
    counted outs e f =
        k.adds_up
        ∙ ap (λ l. charges l + charge_of c.in_flight) e
        ∙ ap (λ o. charges outs + charge_of o) f

    by_channel :
        (outs : List Out) → c.channel ≡ outs → c.in_flight ≡ none → IsBalanced (taken outs c)
    by_channel [] e f = k
    by_channel (queued q ∷ outs) e f = record {
      adds_up = omega (arith, counted (queued q ∷ outs) e f);
      bounded = k.bounded;
      rejected_shut = k.rejected_shut;
      unheard_shut = k.unheard_shut;
    }
    by_channel (end ∷ outs) e f = record {
      adds_up = k.adds_up ∙ ap (λ l. charges l + charge_of c.in_flight) e;
      bounded = k.bounded;
      rejected_shut = k.rejected_shut;
      unheard_shut = k.unheard_shut;
    }
    by_channel (destroy ∷ outs) e f =
        stop-IsBalanced (record c { channel = outs })
          (sym (k.adds_up ∙ ap (λ l. charges l + charge_of c.in_flight) e)) k.bounded

finish-IsBalanced : (ok : Bool) (c : Outbound) → IsBalanced c → IsBalanced (finish ok c)
unfolding finish
finish-IsBalanced ok c k = option_intro IsBalanced c.in_flight (λ f. k) (λ q f. by_ok ok q f)
  where
    counted :
        (q : QueuedBytes) → c.in_flight ≡ some q → c.pending_bytes ≡ charges c.channel + q.charge
    counted q f = k.adds_up ∙ ap (λ o. charges c.channel + charge_of o) f

    by_ok : (b : Bool) (q : QueuedBytes) → c.in_flight ≡ some q → IsBalanced (finished b q c)
    by_ok true q f = record {
      adds_up = omega (arith, counted q f);
      bounded = omega (arith, k.bounded);
      rejected_shut = k.rejected_shut;
      unheard_shut = k.unheard_shut;
    }
    by_ok false q f =
        stop-IsBalanced (record c { in_flight = none; pending_bytes = c.pending_bytes - q.charge })
          (omega (arith, counted q f)) (omega (arith, k.bounded))

closes-IsBalanced : (out : Out) (c : Outbound) → IsBalanced c → IsBalanced (apply (closes out) c)
closes-IsBalanced (queued q) c k = k
closes-IsBalanced end c k =
    send_out-IsBalanced end c (omega (arith, k.adds_up)) k.bounded k.rejected_shut
closes-IsBalanced destroy c k =
    send_out-IsBalanced destroy c (omega (arith, k.adds_up)) k.bounded k.rejected_shut

pub apply-IsBalanced : (e : Event) (c : Outbound) → IsBalanced c → IsBalanced (apply e c)
apply-IsBalanced (sends lock_free capacity bytes) c k = send-IsBalanced lock_free capacity bytes c k
apply-IsBalanced (closes out) c k = closes-IsBalanced out c k
apply-IsBalanced takes c k = take_next-IsBalanced c k
apply-IsBalanced (writes ok) c k = finish-IsBalanced ok c k

-- However the daemon and the writer interleave: the counter is the sum of what the queue and the
-- packet being written were charged, it is within 64 MiB, and a client that was rejected, or that
-- has no writer any more, has its socket shut down.
pub run-IsBalanced : (events : List Event) → IsBalanced (run events new_outbound)
unfolding run
run-IsBalanced events = go events new_outbound (record {
  adds_up = refl;
  bounded = omega arith;
  rejected_shut = λ h. cc;
  unheard_shut = λ h. cc;
})
  where
    go : (es : List Event) (c : Outbound) → IsBalanced c → IsBalanced (run es c)
    go [] c k = k
    go (e ∷ es) c k = go es (apply e c) (apply-IsBalanced e c k)
