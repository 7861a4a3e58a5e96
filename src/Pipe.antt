-- ===== src/Pipe.antt =====
-- internal/overlay: one direction of a stream from end to end. The pump that reads the sender's connection
-- calls queueFrame, the frames travel over the subflows, and the receiver's reorder buffer takes what
-- arrives. Any frame that was queued may arrive at any time, again and again, or never.
pub mod Cuts
pub mod Front
pub mod Kept
pub mod Tiles
pub mod Run
pub mod Refine
pub mod Whole
mod Examples
use cwnd_warm_up_proxy.Prelude.{
  ℕ, ◌<◌, ◌^◌, ◌≡◌, List, [], ◌∷◌, ◌++◌, Bool, true, false, ◌||◌, Option, none, some, length,
  get_elem?,
}
use cwnd_warm_up_proxy.Protocol.{Frame, AckPayload}
use cwnd_warm_up_proxy.Reorder.{Chunk, ReorderBuffer, push}
use cwnd_warm_up_proxy.Reorder
use cwnd_warm_up_proxy.Reorder.Deliver.{chunk_bytes, chunks_of}
use cwnd_warm_up_proxy.Reorder.Receive.{Packet}
use cwnd_warm_up_proxy.Reorder.Last.{any_end}
use cwnd_warm_up_proxy.Stream.{Error, PendingEntry, Stream, new_stream, close_stream}
use cwnd_warm_up_proxy.Stream.Send.{
  Queued, queued, already_closed, blocked, queue, queue_frame, send_queued,
}
use cwnd_warm_up_proxy.Stream.Ack.{on_ack}
use cwnd_warm_up_proxy.Stream.Data.{is_end}

-- The specification: a pipe of bytes, which gives what was put in, in order, each byte once, and tells of
-- its end when all bytes were given.
pub record Pipe : Type 0 where
  pub sent : List ℕ
  pub ended : Bool
  pub received : List ℕ
  pub finished : Bool

pub data PipeStep (p : Pipe) : Pipe → Type 0 where
  stays : PipeStep p p
  puts : (bytes : List ℕ) → p.ended ≡ false → PipeStep p (record p { sent = p.sent ++ bytes })
  ends :
      (bytes : List ℕ)
      → p.ended ≡ false
      → PipeStep p (record p { sent = p.sent ++ bytes; ended = true })
  gives :
      (bytes later : List ℕ)
      → p.sent ≡ p.received ++ (bytes ++ later)
      → PipeStep p (record p { received = p.received ++ bytes })
  finishes :
      (bytes : List ℕ)
      → p.ended ≡ true
      → p.sent ≡ p.received ++ bytes
      → PipeStep p (record p { received = p.received ++ bytes; finished = true })

-- The sender, the frame for which its pump waits in queueFrame, the frames queued so far and their bytes,
-- the frames that have arrived, the receiver's buffer and the chunks that it has handed on.
pub record Link : Type 0 where
  pub sender : Stream
  pub waiting : Option (List ℕ × Bool)
  pub history : List Packet
  pub sent : List ℕ
  pub arrivals : List Packet
  pub receiver : ReorderBuffer
  pub chunks : List Chunk

unfoldable pub new_link : ℕ → ℕ → ℕ → Link
unfolding new_stream Reorder.new
new_link initial_window id capacity = record {
  sender = new_stream initial_window id;
  waiting = none;
  history = [];
  sent = [];
  arrivals = [];
  receiver = Reorder.new capacity;
  chunks = [];
}

abbrev pub any_last : List Packet → Bool
any_last [] = false
any_last (f ∷ fs) = f.end || any_last fs

abbrev pub view : Link → Pipe
view l = record {
  sent = l.sent;
  ended = any_last l.history;
  received = chunk_bytes l.chunks;
  finished = any_end l.chunks;
}

-- The pump has read bytes or the end; it wakes in queueFrame; sendData goes on; an ACK comes in; the
-- stream closes; a frame arrives.
pub data Event : Type 0 where
  reads : List ℕ → Bool → Event
  wakes : Event
  sends : ℕ → ℕ → PendingEntry → Option Error → Event
  acks : (Frame → Option Error) → ℕ → ℕ → AckPayload → Event
  closes : Error → Event
  arrives : ℕ → Event

abbrev pub packet_of : Frame → Packet
packet_of frame = record { seq = frame.seq; payload = frame.payload; end = is_end frame }

-- What a call of queueFrame leaves.
unfoldable pub commit : List ℕ → Bool → Link → Stream × Queued → Link
commit payload end l (s, queued entry) = record l {
  sender = s;
  waiting = none;
  history = l.history ++ (packet_of entry.frame ∷ []);
  sent = l.sent ++ payload;
}
commit payload end l (s, already_closed) = record l { sender = s; waiting = none }
commit payload end l (s, blocked) = record l { sender = s; waiting = some (payload, end) }

-- The pump is one goroutine: while it waits it reads nothing.
unfoldable pub read : List ℕ → Bool → Link → Option (List ℕ × Bool) → Link
unfolding commit queue_frame
read payload end l none = commit payload end l (queue_frame l.sender payload end)
read payload end l (some waiting) = l

unfoldable pub wake : Link → Option (List ℕ × Bool) → Link
unfolding commit queue
wake l none = l
wake l (some (payload, end)) = commit payload end l (queue l.sender payload end)

unfoldable pub arrive : Link → Option Packet → Link
unfolding push
arrive l none = l
arrive l (some f) =
    let t = push l.receiver f.seq f.payload f.end in
    record l {
      arrivals = l.arrivals ++ (f ∷ []);
      receiver = t.0;
      chunks = l.chunks ++ chunks_of t.1;
    }

unfoldable pub step : Event → Link → Link
unfolding read wake arrive send_queued on_ack close_stream
step (reads payload end) l = read payload end l l.waiting
step wakes l = wake l l.waiting
step (sends session_id now entry outcome) l = record l {
  sender = send_queued l.sender session_id now entry outcome;
}
step (acks send session_id now ack) l = record l {
  sender = on_ack send session_id now ack l.sender;
}
step (closes e) l = record l { sender = close_stream l.sender e }
step (arrives i) l = arrive l (get_elem? l.history i)

unfoldable pub run : List Event → Link → Link
unfolding step
run [] l = l
run (event ∷ events) l = run events (step event l)

-- A read of the connection yields bytes or its end, and never 2 ^ 32 bytes.
abbrev pub IsRead : Event → Type 0
IsRead (reads payload end) = (length payload < 2 ^ 32) × (end ≡ false → 0 < length payload)
IsRead _ = Unit {0}
