-- ===== src/Lib.antt =====
-- A model of the overlay of cwnd-warm-up-proxy: a proxy that carries the streams of its clients over
-- several TCP connections (subflows), to use the congestion windows of all of them at once.
--
-- A stream cuts the bytes of a local connection into DATA frames with sequence numbers, as far as the
-- window of its peer has credit (internal/overlay/stream.go, window.go). The session sends each frame
-- on the subflow that the scheduler picks (session.go, scheduler.go), in the wire format of
-- internal/overlay/protocol/frame.go. The peer puts the frames in order again (reorder.go), writes them
-- to its connection, and answers with ACKs, which return credit and name the bytes that arrived early,
-- so that the sender sends again what is missing.
--
-- The files:
--   Prelude and its children: shared names, lists, big-endian words, maps as association lists, Go's
--     (value, error) pairs, and the 64-bit integers.
--   Protocol: internal/overlay/protocol/frame.go. `encode` is Frame.Encode, `payload_bytes`
--     Frame.payloadBytes, `decode` Decode; Crc computes CRC-32C bit by bit; Io is the reader and the
--     writer they use, the writer with a bound after which it fails.
--   Reorder: internal/overlay/reorder.go. `push` is ReorderBuffer.Push, `pop_ready` popReadyLocked,
--     `sack_ranges` SACKRanges.
--   Window: internal/overlay/window.go. `acquire`, `release` and `close` are the methods; `acquire` is
--     the body of the loop, made again after each broadcast.
--   Scheduler: internal/overlay/scheduler.go. `next` is Scheduler.Next; the goodput of a subflow, which
--     the code measures, is an argument.
--   Stream: internal/overlay/stream.go, and what Session.sendData and Session.retransmit do to a stream.
--     Send has queueFrame and onSendFailure, Ack has onAck, Data has onData, sendAck and the four pumps.
--     The outcome of a send, a write (which may break off half-way) or an ACK is an argument.
--   Session: internal/overlay/session.go. The file has the state, prepareSubflowSpawn to onSubflowError and
--     Close; Spawn has the goroutines that dial, as a step relation; Send is sendFrame with the
--     connections as an environment; Control has handleControlFrame and handleStreamOpen; Dispatch is
--     dispatchFrame; Open is OpenStream, dialSubflow and NewClient of client.go.
--   Server: internal/overlay/server.go. `handle_conn` is handleConn.
--   Pipe: a sender, its frames on their way and the receiver's reorder buffer composed, and the pipe of bytes
--     that they implement. The pump that reads the sender's connection is one goroutine.
--   Payload: cmd/test-consumer/main.go, the file that the test consumer makes for its upload. The size is an
--     argument, and the loop runs on a number of rounds, of which one for each piece and one more are enough.
--   Proxy: cmd/client/main.go, a connection of a SOCKS client from its handshake to its stream.
--   Metrics: internal/metrics/sliding.go, the counter behind a subflow's goodput.
--   Subflow: internal/overlay/subflow.go. The file has the counters, `header_length` is headerBytes;
--     Transfer has `send` and the loop `run`, on the bytes that the connection still gives.
--   Socks: internal/socks/handshake.go, and in Socks/Client the other side of it from
--     cmd/test-consumer/main.go. An address is its bytes and a port, not the text printed from it.
--
-- A method that holds a mutex from start to end is one step. Numbers are unbounded naturals, and the
-- wrap of uint32 and uint64 is written out where the code can reach it. The loop of popReadyLocked runs
-- on the number of entries, which is enough since each round takes one out; the loop of Scheduler.Next
-- runs once for each entry as in the code; the loop of onData runs for any given number of rounds, since
-- it need not end. The read loop of a subflow takes a header at least from the connection in each round, so
-- as many rounds as there are bytes are enough.
--
-- A select that finds a stream done as well as a channel ready may take either: how many chunks still get into
-- `inbound` is an argument, and a pump runs on the chunks that it takes. What other goroutines do to a new
-- client's session while it dials its subflows is an argument too.
--
-- encoding/json is a parameter with what the frames need of it as a hypothesis; hash/crc32 and
-- encoding/binary are computed. Not modelled: deadlines and TLS; Serve and the listeners; the snapshots and
-- the terminal display under internal/tui, which only draw; the rest of the programs under cmd/.
pub mod Prelude
pub mod Protocol
pub mod Reorder
pub mod Window
pub mod Scheduler
pub mod Stream
pub mod Socks
pub mod Pipe
pub mod Payload
pub mod Proxy
pub mod Session
pub mod Server
pub mod Metrics
pub mod Subflow
