-- ===== src/Stream.antt =====
-- internal/overlay/stream.go: the state of a stream, and how it opens, fails and ends.
pub mod Send
pub mod Ack
pub mod Data
pub mod Held
pub mod Holes
pub mod Balance
pub mod Stuck
pub mod Forward
pub mod Ends
pub mod Finish
pub mod Delivery
pub mod Pending
mod Examples
use cwnd_warm_up_proxy.Prelude.{
  ℕ, ◌+◌, ◌*◌, ◌-◌, ◌/◌, ◌^◌, List, [], ◌∷◌, Bool, true, false, ◌&&◌, Option, none, some, ltb, ◌==◌,
  if◌then◌else◌,
}
use cwnd_warm_up_proxy.Protocol.{Frame}
use cwnd_warm_up_proxy.Reorder.{ReorderBuffer, Chunk}
use cwnd_warm_up_proxy.Reorder
use cwnd_warm_up_proxy.Window.{Window}
use cwnd_warm_up_proxy.Window

-- `other` stands for the errors of connections and subflows.
pub data Error : Type 0 where
  stream_closed eof remote_reset open_timeout no_subflow wrong_role : Error
  other : ℕ → Error

-- A `*pendingEntry`: `address` tells the pointers apart, and `last_send` is none for the zero time.
pub record PendingEntry : Type 0 where
  pub address : ℕ
  pub seq : ℕ
  pub length : ℕ  -- uint32
  pub frame : Frame
  pub last_send : Option ℕ

-- A connection that may be attached, with whether it has CloseWrite, and whether it was closed.
pub data Conn : Type 0 where
  detached half_closed closed : Conn
  attached : Bool → Conn

pub record Stream : Type 0 where
  pub id : ℕ
  pub send_window : Window
  pub reorder : ReorderBuffer
  pub send_seq : ℕ  -- uint64
  pub recv_seq : ℕ  -- uint64
  pub pending : List PendingEntry
  pub next_address : ℕ
  pub inbound : List Chunk
  pub done : Bool
  pub accepted : Bool
  pub error : Option Error
  pub target : Conn
  pub local : Conn
  pub send_closed : Bool
  pub local_done : Bool
  pub remote_done : Bool
  pub inflight : ℕ  -- uint32

-- 256 << 10
abbrev pub default_reorder_capacity : ℕ
default_reorder_capacity = 262144

-- 50 ms, in nanoseconds.
abbrev pub retransmit_interval : ℕ
retransmit_interval = 50000000

-- Twice the window, or the default; the doubling stops at the largest uint32.
pub reorder_capacity : ℕ → ℕ
reorder_capacity initial_window =
    let cap = if initial_window == 0 then default_reorder_capacity else initial_window in
    if ltb ((2 ^ 32 - 1) / 2) cap then 2 ^ 32 - 1 else cap * 2

unfoldable pub new_stream : ℕ → ℕ → Stream
unfolding reorder_capacity
new_stream initial_window id = record {
  id = id;
  send_window = Window.new initial_window;
  reorder = Reorder.new (reorder_capacity initial_window);
  send_seq = 0;
  recv_seq = 0;
  pending = [];
  next_address = 0;
  inbound = [];
  done = false;
  accepted = false;
  error = none;
  target = Conn.detached;
  local = Conn.detached;
  send_closed = false;
  local_done = false;
  remote_done = false;
  inflight = 0;
}

abbrev or_stream_closed : Option Error → Error
or_stream_closed none = stream_closed
or_stream_closed (some e) = e

abbrev pub close_conn : Conn → Conn
close_conn Conn.detached = Conn.detached
close_conn _ = Conn.closed

-- The stream's `done` channel and its window are closed once; its connections are closed each time.
unfoldable pub fail : Stream → Option Error → Stream
fail s e = record s {
  error = some (or_stream_closed e);
  done = true;
  send_window = if s.done then s.send_window else Window.close s.send_window;
  local = close_conn s.local;
  target = close_conn s.target;
}

-- `close`
unfoldable pub close_stream : Stream → Error → Stream
unfolding fail
close_stream s e = fail s (some e)

unfoldable pub accept : Stream → Stream
accept s = record s { accepted = true }

-- What a wait has come to: it goes on, or it is over with an error or none.
pub data Wait : Type 0 where
  waits : Wait
  over : Option Error → Wait

-- `waitForAccept`, with whether the ten seconds have passed; where both have come, the code takes either,
-- and the ACCEPT is taken here.
unfoldable pub wait_for_accept : Stream → Bool → Wait
wait_for_accept s timed_out =
    if s.accepted then over none else if timed_out then over (some open_timeout) else waits

-- The argument is whether the connection has CloseWrite.
unfoldable pub bind_client : Bool → Stream → Stream
bind_client close_write s = record s { local = Conn.attached close_write }

unfoldable pub bind_server : Bool → Stream → Stream
bind_server close_write s = record s { target = Conn.attached close_write }

-- `halfCloseWrite`: a connection without CloseWrite is closed whole.
abbrev pub half_close_write : Conn → Conn
half_close_write (Conn.attached true) = Conn.half_closed
half_close_write (Conn.attached false) = Conn.closed
half_close_write c = c

unfoldable pub maybe_finalize : Stream → Stream
unfolding close_stream
maybe_finalize s = if s.local_done && s.remote_done then close_stream s eof else s
