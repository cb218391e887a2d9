-- ===== src/Lib.antt =====
-- A verification library for pty, a session daemon for terminal programs with its clients.
--
-- A daemon owns the pseudo-terminal of one child. Clients talk to it in frames over a Unix socket:
-- the frames of crates/pty-core/src/protocol.rs, read by its `PacketReader`. What the child prints
-- goes through the scanner of crates/pty-terminal/src/strip.rs, which takes out the queries that
-- the session's own terminal answers. The daemon bounds what it holds for a child that does not
-- read (crates/pty/src/daemon/input_budget.rs) and for a client that does not
-- (crates/pty/src/daemon/clients.rs). Ending a session stops and signals a tree of processes
-- (crates/pty-core/src/process_tree.rs) that is read from the process table (proctable.rs). The
-- session manager draws lists with crates/pty-tui/src/scroll.rs. A launch operation starts a
-- session for an owner who may still withdraw: a durable record (crates/pty-core/src/operation/)
-- says how far it is, the new daemon's operation actor (crates/pty/src/daemon/operation.rs) moves
-- the record and acts, and `settle` and `retire` judge and end an operation whose daemon is gone.
--
-- The modules:
-- - Base: the shared names, Boolean tests, lists, words and integers.
-- - Protocol: protocol.rs. Message has `MessageType` and `Packet`; Encode the encoders and
--   decoders of payloads; Reader `PacketReader::feed` and `read_packet`. A payload in JSON is left
--   out, since serde writes it.
-- - Terminal: strip.rs. Csi and Osc have the parsers and the predicates of a sequence; Scanner has
--   `OutputScanner`, one function for each state of the match in `feed`, and
--   `strip_terminal_queries`; Broadcast what `TerminalActor::write` of actor.rs hands on to clients.
-- - Process: Table has the answers of proctable.rs on a table that was read; Walk, Snapshot,
--   Freeze and Sweep have `walk`, the snapshots, `freeze_descendants`, and the sweeps of
--   process_tree.rs. Their closures (reads of the table, signals sent) are numbered answers, and
--   time is the number of rounds that a wait is given. Reading the machine's table is left out.
-- - Daemon: InputBudget has `hold` with its wait, and the drop of a hold with `notify_all`; Outbound has `send`, `send_out`,
--   `reject_slow_client` and the writer thread of crates/pty/src/daemon/lifecycle.rs. Threads
--   interleave as lists of events, each a whole operation on the shared counter. Clients has
--   `negotiate_size` of crates/pty/src/daemon/geometry.rs, and in its child Handlers the handlers of
--   clients.rs with the SCREEN cuts. The session's terminal is an interface there, of which nothing
--   is assumed, its rendering being a library's; the packets handed to a client are a list, and Outbound has the way on from
--   there.
-- - Operation: crates/pty-core/src/operation/. Record has the record and `check`; Liveness whether
--   a recorded process is gone; Store the file of a record with `write_cas_as`; Occupancy the
--   launch's rule and the birth marker; Settle and its child Verdict `settle`; Retire and its child
--   Run `retire`; Launcher the records that crates/pty/src/cli/run_operation.rs writes. Strings are
--   bytes, a JSON value is its text, and each write of the file lands, fails before the new file is
--   in place, or fails behind that. The locks' exclusion is the kernel's: between two reads of one
--   call nobody else writes.
-- - Actor: crates/pty/src/daemon/operation.rs, the actor as a state with a function for each event.
--   Handlers has the decision and the retirement, Transfers the transfer, Events the rest with
--   the loop, and its child Owner the owner's input. What the machine answers, the end of each write
--   and the barriers of a test included, comes with the event; what the actor does is a log in which
--   each entry keeps what was on the disk. Outcome has the contract of outcomes, Safe what holds
--   between two events, Writes each write of launcher, actor and recovery as a step from record to
--   record. The worker and the control thread are left out: their messages are events
--   in any order.
-- - Tui: Scroll has `ScrollRegion` and `GroupedLayout`.
--
-- Numbers: a byte is a number, with its range as a hypothesis where it matters. `u16` and `u32`
-- fields wrap as they are encoded; sums of `usize` in Tui wrap at 2^64; `i32` is an integer.
--
-- Fuel: `feed` is given one round for each byte of its buffer and one more, since a round drops a
-- header at least. `walk` is given one round for each row of the table, since a row is queued by
-- its parent alone.
--
-- The loop of `settle` that tries the lock again has the eight rounds of the source; the wait for a
-- zombie has as many reads as the machine is given.
--
-- Left out: the registry's files, the locks of an operation, spawning, the client's terminal, the
-- rest of the command line, and what draws a screen; these call the system, or libraries that are not here.
pub mod Base
pub mod Protocol
pub mod Terminal
pub mod Process
pub mod Daemon
pub mod Tui
pub mod Actor
pub mod Operation
