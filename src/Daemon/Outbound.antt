-- ===== src/Daemon/Outbound.antt =====
-- The queue of packets to one client of crates/pty/src/daemon/clients.rs: `send`, `send_out`,
-- `reject_slow_client`, and the drop of `QueuedBytes`; and the writer thread that
-- `spawn_client` of crates/pty/src/daemon/lifecycle.rs starts. Each side changes the counter by
-- one atomic operation, so that the two interleave by whole operations.
pub mod Budget
pub mod InOrder
use pty.Base.{
  ℕ, zero, suc, ◌+◌, ◌-◌, Bool, true, false, not, ◌&&◌, List, [], ◌∷◌, ◌++◌, Option, none, some,
  ltb, leb, if◌then◌else◌, Bytes,
}
use pty.Protocol.Encode.{encode_connection_error, client_too_slow}

abbrev pub outbound_queue_bytes : ℕ
outbound_queue_bytes = 67108864

abbrev pub outbound_item_overhead : ℕ
outbound_item_overhead = 64

pub record QueuedBytes : Type 0 where
  pub bytes : Bytes
  pub charge : ℕ

pub data Out : Type 0 where
  queued : QueuedBytes → Out
  end destroy : Out

-- The queue's part of a `Client`: the entries that the writer has not taken, the one it writes,
-- what it has written, whether it still receives, the frame sent on the socket around it, and
-- whether the socket was shut down.
pub record Outbound : Type 0 where
  pub channel : List Out
  pub in_flight : Option QueuedBytes
  pub written : List Bytes
  pub receiving : Bool
  pub pending_bytes : ℕ
  pub rejected : Bool
  pub direct : List Bytes
  pub shut_down : Bool

abbrev pub new_outbound : Outbound
new_outbound = record {
  channel = [];
  in_flight = none;
  written = [];
  receiving = true;
  pending_bytes = 0;
  rejected = false;
  direct = [];
  shut_down = false;
}

-- `checked_add` on `usize`.
unfoldable pub checked_add : ℕ → ℕ → Option ℕ
checked_add a b = if ltb (a + b) 18446744073709551616 then some (a + b) else none

-- The entry goes back to the counter when it is dropped.
abbrev pub release : Out → ℕ → ℕ
release (queued q) pending = pending - q.charge
release end pending = pending
release destroy pending = pending

-- A send that fails drops what it was given and shuts the socket down.
unfoldable pub send_out : Out → Outbound → Outbound
send_out out c =
    if c.receiving
    then record c { channel = c.channel ++ out ∷ [] }
    else record c { pending_bytes = release out c.pending_bytes; shut_down = true }

-- `lock_free` is whether `try_lock` succeeds.
unfoldable pub reject_slow_client : Bool → Outbound → Outbound
reject_slow_client lock_free c = if c.rejected then c else record c {
  rejected = true;
  direct = if lock_free then c.direct ++ encode_connection_error client_too_slow ∷ [] else c.direct;
  shut_down = true;
}

-- The closure of `fetch_update`.
abbrev pub within_budget : Option ℕ → Option ℕ
within_budget none = none
within_budget (some total) = if leb total outbound_queue_bytes then some total else none

abbrev pub charged : Bool → Bytes → ℕ → Option ℕ → Outbound → Outbound
charged lock_free bytes charge none c = reject_slow_client lock_free c
charged lock_free bytes charge (some total) c =
    send_out (queued (record { bytes = bytes; charge = charge }))
      (record c { pending_bytes = total })

abbrev pub with_charge : Bool → Bytes → Option ℕ → Outbound → Outbound
with_charge lock_free bytes none c = reject_slow_client lock_free c
with_charge lock_free bytes (some charge) c =
    charged lock_free bytes charge (within_budget (checked_add c.pending_bytes charge)) c

-- `capacity` is that of the vector, which its allocation decides.
unfoldable pub send : Bool → ℕ → Bytes → Outbound → Outbound
unfolding reject_slow_client checked_add send_out
send lock_free capacity bytes c =
    if c.rejected
    then c
    else with_charge lock_free bytes (checked_add capacity outbound_item_overhead) c

-- Everything that is left goes back to the counter.
abbrev pub release_all : List Out → ℕ → ℕ
release_all [] pending = pending
release_all (out ∷ outs) pending = release_all outs (release out pending)

-- The writer leaves its loop: the receiver is dropped with what it holds.
unfoldable pub stop : Outbound → Outbound
stop c = record c {
  channel = [];
  receiving = false;
  pending_bytes = release_all c.channel c.pending_bytes;
  shut_down = true;
}

-- `recv`, when the writer holds no packet: a packet is taken to be written, `end` closes the
-- sending side alone, and `destroy` ends the loop.
abbrev pub taken : List Out → Outbound → Outbound
taken [] c = c
taken (queued q ∷ rest) c = record c { channel = rest; in_flight = some q }
taken (end ∷ rest) c = record c { channel = rest }
taken (destroy ∷ rest) c = stop (record c { channel = rest })

unfoldable pub take_next : Outbound → Outbound
unfolding stop
take_next c = elim c.in_flight [ none ↦ taken c.channel c | some q ↦ c ]

-- The end of `write_all`, and the drop of the packet.
abbrev pub finished : Bool → QueuedBytes → Outbound → Outbound
finished true q c = record c {
  in_flight = none;
  written = c.written ++ q.bytes ∷ [];
  pending_bytes = c.pending_bytes - q.charge;
}
finished false q c =
    stop (record c { in_flight = none; pending_bytes = c.pending_bytes - q.charge })

unfoldable pub finish : Bool → Outbound → Outbound
unfolding stop
finish ok c = elim c.in_flight [ none ↦ c | some q ↦ finished ok q c ]

-- What the two threads do: the daemon sends, or closes; the writer takes and writes.
pub data Event : Type 0 where
  sends : Bool → ℕ → Bytes → Event
  closes : Out → Event
  takes : Event
  writes : Bool → Event

abbrev pub apply : Event → Outbound → Outbound
apply (sends lock_free capacity bytes) c = send lock_free capacity bytes c
apply (closes (queued q)) c = c
apply (closes end) c = send_out end c
apply (closes destroy) c = send_out destroy c
apply takes c = take_next c
apply (writes ok) c = finish ok c

unfoldable pub run : List Event → Outbound → Outbound
run [] c = c
run (e ∷ es) c = run es (apply e c)
