-- ===== src/Stream/Send.antt =====
-- internal/overlay/stream.go and session.go: the sending of a DATA frame, and the entries that wait for
-- an ACK. The outcome of `sendFrame` is an argument, an error or none.
use cwnd_warm_up_proxy.Prelude.{
  ℕ, ◌+◌, ◌-◌, ◌^◌, List, [], ◌∷◌, ◌++◌, Bool, true, false, Option, none, some, length, ◌==◌,
  if◌then◌else◌,
}
use cwnd_warm_up_proxy.Prelude.Bytes.{u32, u64}
use cwnd_warm_up_proxy.Protocol.{Frame, frame_data, flag_end_of_stream}
use cwnd_warm_up_proxy.Window.{Window, Outcome, granted, refused, waiting, acquire, release}
use cwnd_warm_up_proxy.Stream.{Error, PendingEntry, Stream}

-- What `queueFrame` comes to: an entry, `errStreamClosed`, or a wait for credit.
pub data Queued : Type 0 where
  queued : PendingEntry → Queued
  already_closed blocked : Queued

unfoldable pub data_frame : Stream → List ℕ → Bool → Frame
data_frame s payload end = record {
  version = 0;
  frame_type = frame_data;
  flags = if end then flag_end_of_stream else 0;
  session_id = 0;
  stream_id = s.id;
  seq = s.send_seq;
  payload = payload;
  checksum = 0;
  is_duplicate = false;
  wire_length = 0;
  ack = none;
  control = none;
  heartbeat = none;
}

-- The entry that the frame waits in, once the window has granted its length.
unfoldable pub entry_of : Stream → List ℕ → Bool → PendingEntry
unfolding data_frame
entry_of s payload end = record {
  address = s.next_address;
  seq = s.send_seq;
  length = u32 (length payload);
  frame = data_frame s payload end;
  last_send = none;
}

unfoldable pub enter : Stream → List ℕ → Bool → Stream
unfolding entry_of
enter s payload end =
    let n = u32 (length payload) in
    record s {
      send_seq = u64 (s.send_seq + n);
      pending = s.pending ++ (entry_of s payload end ∷ []);
      next_address = s.next_address + 1;
      inflight = if n == 0 then s.inflight else u32 (s.inflight + n);
    }

-- What follows the call of Acquire.
unfoldable pub settle : Stream → List ℕ → Bool → Window × Outcome → Stream × Queued
unfolding entry_of enter
settle s payload end (w, granted) =
    let s = record s { send_window = w } in (enter s payload end, queued (entry_of s payload end))
settle s payload end (w, refused) = (record s { send_window = w }, already_closed)
settle s payload end (w, waiting) = (record s { send_window = w }, blocked)

-- From the call of Acquire on; a blocked sender makes this step again when it wakes.
unfoldable pub queue : Stream → List ℕ → Bool → Stream × Queued
unfolding settle
queue s payload end = settle s payload end (acquire s.send_window (u32 (length payload)))

-- `queueFrame`: the frame with the END flag closes the sending side, also when it has to wait.
unfoldable pub queue_frame : Stream → List ℕ → Bool → Stream × Queued
unfolding queue
queue_frame s payload end =
    if s.send_closed
    then (s, already_closed)
    else queue (if end then record s { send_closed = true } else s) payload end

-- The first entry with this address is taken out.
unfoldable pub remove : ℕ → List PendingEntry → List PendingEntry
remove address [] = []
remove address (e ∷ es) = if e.address == address then es else e ∷ remove address es

unfoldable pub on_send_failure : Stream → PendingEntry → Stream
unfolding remove
on_send_failure s entry =
    let pending = remove entry.address s.pending in
    if entry.length == 0 then record s { pending = pending } else record s {
      pending = pending;
      send_window = release s.send_window entry.length;
      inflight = u32 (s.inflight + (2 ^ 32 - entry.length));
    }

-- A write through the pointer to the entry with this address.
unfoldable pub update : ℕ → (PendingEntry → PendingEntry) → List PendingEntry → List PendingEntry
update address f [] = []
update address f (e ∷ es) = if e.address == address then f e ∷ es else e ∷ update address f es

abbrev pub mark : ℕ → Bool → PendingEntry → PendingEntry
mark session_id duplicate e = record e {
  frame = record e.frame { session_id = session_id; is_duplicate = duplicate };
}

abbrev pub stamp : ℕ → PendingEntry → PendingEntry
stamp now e = record e { last_send = some now }

-- The rest of `sendData` once the frame is queued.
unfoldable pub send_queued : Stream → ℕ → ℕ → PendingEntry → Option Error → Stream
unfolding update on_send_failure
send_queued s session_id now entry outcome =
    let s = record s { pending = update entry.address (mark session_id false) s.pending } in
    elim outcome [
      | none ↦ record s { pending = update entry.address (stamp now) s.pending }
      | some e ↦ on_send_failure s entry
    ]
