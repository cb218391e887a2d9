-- ===== src/Daemon/Outbound/InOrder.antt =====
-- No packet is lost unseen: as long as the socket of a client is not shut down, what was written,
-- is being written and is queued are the packets sent, in order.
use pty.Base.{
  ℕ, ◌≡◌, refl, sym, ap, ◌∙◌, Bool, true, false, List, [], ◌∷◌, ◌++◌, Option, none, some, Bytes,
  if_intro, option_intro, append_assoc, append-nil,
}
use pty.Daemon.Outbound.{
  QueuedBytes, Out, queued, end, destroy, Outbound, new_outbound, checked_add, send_out,
  reject_slow_client, charged, with_charge, send, stop, taken, take_next, finished, finish, Event,
  sends, closes, takes, writes, apply, run,
}
use pty.Daemon.Outbound.Budget.{IsBalanced, apply-IsBalanced, run-IsBalanced}

abbrev pub packets_of : List Out → List Bytes
packets_of [] = []
packets_of (queued q ∷ outs) = q.bytes ∷ packets_of outs
packets_of (end ∷ outs) = packets_of outs
packets_of (destroy ∷ outs) = packets_of outs

abbrev pub packet_of : Option QueuedBytes → List Bytes
packet_of none = []
packet_of (some q) = q.bytes ∷ []

-- All that the client was, is or will be given.
abbrev pub given : Outbound → List Bytes
given c = c.written ++ (packet_of c.in_flight ++ packets_of c.channel)

-- The packets that the daemon sends.
abbrev pub asked : List Event → List Bytes
asked [] = []
asked (sends lock_free capacity bytes ∷ es) = bytes ∷ asked es
asked (closes out ∷ es) = asked es
asked (takes ∷ es) = asked es
asked (writes ok ∷ es) = asked es

-- While the socket is open, the client was given these packets.
abbrev IsGiven : List Bytes → Outbound → Type 0
IsGiven sent c = c.shut_down ≡ false → given c ≡ sent

packets_of-append : (xs ys : List Out) → packets_of (xs ++ ys) ≡ packets_of xs ++ packets_of ys
packets_of-append [] ys = refl
packets_of-append (queued q ∷ xs) ys = ap (◌∷◌ q.bytes) (packets_of-append xs ys)
packets_of-append (end ∷ xs) ys = packets_of-append xs ys
packets_of-append (destroy ∷ xs) ys = packets_of-append xs ys

shut-IsGiven : (sent : List Bytes) (c : Outbound) → c.shut_down ≡ true → IsGiven sent c
shut-IsGiven sent c h e = cc

reject_slow_client-IsGiven :
    (lock_free : Bool) (sent : List Bytes) (c : Outbound)
    → (c.rejected ≡ true → c.shut_down ≡ true)
    → IsGiven sent (reject_slow_client lock_free c)
unfolding reject_slow_client
reject_slow_client-IsGiven lock_free sent c r =
    if_intro (IsGiven sent) c.rejected (λ e. shut-IsGiven sent c (r e)) (λ e h. cc)

send_out-IsGiven :
    (out : Out) (sent : List Bytes) (c : Outbound)
    → IsGiven sent c
    → IsGiven (sent ++ packets_of (out ∷ [])) (send_out out c)
unfolding send_out
send_out-IsGiven out sent c k =
    if_intro (IsGiven (sent ++ packets_of (out ∷ []))) c.receiving (λ e h. longer (k h)) (λ e h. cc)
  where
    longer :
        given c ≡ sent
        → c.written ++ (packet_of c.in_flight ++ packets_of (c.channel ++ out ∷ []))
          ≡ sent ++ packets_of (out ∷ [])
    longer e = rw (packets_of-append c.channel (out ∷ [])) (
        ap (λ l. c.written ++ l)
          (sym
            (append_assoc (packet_of c.in_flight) (packets_of c.channel) (packets_of (out ∷ []))))
        ∙ sym (
            append_assoc c.written (packet_of c.in_flight ++ packets_of c.channel)
              (packets_of (out ∷ [])))
        ∙ ap (λ l. l ++ packets_of (out ∷ [])) e)

charged-IsGiven :
    (lock_free : Bool) (bytes : Bytes) (charge : ℕ) (sent : List Bytes) (c : Outbound)
    (o : Option ℕ)
    → (c.rejected ≡ true → c.shut_down ≡ true)
    → IsGiven sent c
    → IsGiven (sent ++ bytes ∷ []) (charged lock_free bytes charge o c)
charged-IsGiven lock_free bytes charge sent c none r k =
    reject_slow_client-IsGiven lock_free (sent ++ bytes ∷ []) c r
charged-IsGiven lock_free bytes charge sent c (some total) r k =
    send_out-IsGiven (queued (record { bytes = bytes; charge = charge })) sent
      (record c { pending_bytes = total }) k

send-IsGiven :
    (lock_free : Bool) (capacity : ℕ) (bytes : Bytes) (sent : List Bytes) (c : Outbound)
    → (c.rejected ≡ true → c.shut_down ≡ true)
    → IsGiven sent c
    → IsGiven (sent ++ bytes ∷ []) (send lock_free capacity bytes c)
unfolding send
send-IsGiven lock_free capacity bytes sent c r k =
    if_intro (IsGiven (sent ++ bytes ∷ [])) c.rejected
      (λ e. shut-IsGiven (sent ++ bytes ∷ []) c (r e)) (λ e. by_charge (checked_add capacity 64))
  where
    by_charge : (o : Option ℕ) → IsGiven (sent ++ bytes ∷ []) (with_charge lock_free bytes o c)
    by_charge none = reject_slow_client-IsGiven lock_free (sent ++ bytes ∷ []) c r
    by_charge (some charge) = charged-IsGiven lock_free bytes charge sent c _ r k

take_next-IsGiven : (sent : List Bytes) (c : Outbound) → IsGiven sent c → IsGiven sent (take_next c)
unfolding take_next stop
take_next-IsGiven sent c k =
    option_intro (IsGiven sent) c.in_flight (λ f. by_channel c.channel refl f) (λ q f. k)
  where
    same :
        (outs : List Out)
        → c.channel ≡ outs
        → c.in_flight ≡ none
        → given c ≡ c.written ++ packets_of outs
    same outs e f =
        ap (λ o. c.written ++ (packet_of o ++ packets_of c.channel)) f
        ∙ ap (λ l. c.written ++ packets_of l) e

    by_channel :
        (outs : List Out) → c.channel ≡ outs → c.in_flight ≡ none → IsGiven sent (taken outs c)
    by_channel [] e f h = k h
    by_channel (queued q ∷ outs) e f h = sym (same (queued q ∷ outs) e f) ∙ k h
    by_channel (end ∷ outs) e f h =
        ap (λ o. c.written ++ (packet_of o ++ packets_of outs)) f
        ∙ sym (same (end ∷ outs) e f)
        ∙ k h
    by_channel (destroy ∷ outs) e f h = cc

finish-IsGiven :
    (ok : Bool) (sent : List Bytes) (c : Outbound) → IsGiven sent c → IsGiven sent (finish ok c)
unfolding finish stop
finish-IsGiven ok sent c k = option_intro (IsGiven sent) c.in_flight (λ f. k) (λ q f. by_ok ok q f)
  where
    by_ok : (b : Bool) (q : QueuedBytes) → c.in_flight ≡ some q → IsGiven sent (finished b q c)
    by_ok true q f h =
        append_assoc c.written (q.bytes ∷ []) (packets_of c.channel)
        ∙ ap (λ o. c.written ++ (packet_of o ++ packets_of c.channel)) (sym f)
        ∙ k h
    by_ok false q f h = cc

closes-IsGiven :
    (out : Out) (sent : List Bytes) (c : Outbound)
    → IsGiven sent c
    → IsGiven sent (apply (closes out) c)
closes-IsGiven (queued q) sent c k h = k h
closes-IsGiven end sent c k h = send_out-IsGiven end sent c k h ∙ append-nil sent
closes-IsGiven destroy sent c k h = send_out-IsGiven destroy sent c k h ∙ append-nil sent

apply-IsGiven :
    (e : Event) (sent : List Bytes) (c : Outbound)
    → IsBalanced c
    → IsGiven sent c
    → IsGiven (sent ++ asked (e ∷ [])) (apply e c)
apply-IsGiven (sends lock_free capacity bytes) sent c b k h =
    send-IsGiven lock_free capacity bytes sent c b.rejected_shut k h
apply-IsGiven (closes out) sent c b k h = closes-IsGiven out sent c k h ∙ sym (append-nil sent)
apply-IsGiven takes sent c b k h = take_next-IsGiven sent c k h ∙ sym (append-nil sent)
apply-IsGiven (writes ok) sent c b k h = finish-IsGiven ok sent c k h ∙ sym (append-nil sent)

asked-cons : (e : Event) (es : List Event) → asked (e ∷ []) ++ asked es ≡ asked (e ∷ es)
asked-cons (sends lock_free capacity bytes) es = refl
asked-cons (closes out) es = refl
asked-cons takes es = refl
asked-cons (writes ok) es = refl

-- However the daemon and the writer interleave: a client whose socket is not shut down was given
-- each packet sent to it, in order. What is written, being written and queued is what was sent.
pub run_in_order :
    (events : List Event)
    → (run events new_outbound).shut_down ≡ false
    → given (run events new_outbound) ≡ asked events
unfolding run
run_in_order events h = go events [] new_outbound (run-IsBalanced []) (λ e. refl) h
  where
    go :
        (es : List Event) (sent : List Bytes) (c : Outbound)
        → IsBalanced c
        → IsGiven sent c
        → IsGiven (sent ++ asked es) (run es c)
    go [] sent c b k h = k h ∙ sym (append-nil sent)
    go (e ∷ es) sent c b k h =
        go es (sent ++ asked (e ∷ [])) (apply e c) (apply-IsBalanced e c b)
          (apply-IsGiven e sent c b k) h
        ∙ append_assoc sent (asked (e ∷ [])) (asked es)
        ∙ ap (λ l. sent ++ l) (asked-cons e es)
