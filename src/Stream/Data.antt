-- ===== src/Stream/Data.antt =====
-- internal/overlay/stream.go: DATA that arrives, its way to the connection, and the ACKs it causes. The
-- outcome of `Session.sendAck` is an argument, an error or none.
use cwnd_warm_up_proxy.Prelude.{
  ℕ, zero, suc, ◌+◌, List, [], ◌∷◌, ◌++◌, Bool, true, false, not, ◌&&◌, Option, none, some, length,
  take, ltb, ◌==◌, if◌then◌else◌,
}
use cwnd_warm_up_proxy.Prelude.Bytes.{u32, u64}
use cwnd_warm_up_proxy.Prelude.Results.{Result, ok, err}
use cwnd_warm_up_proxy.Protocol.{Frame, AckPayload, has_flag, flag_end_of_stream}
use cwnd_warm_up_proxy.Reorder.{Chunk, ReorderBuffer, push, has_terminal, reorder_overflow}
use cwnd_warm_up_proxy.Reorder
use cwnd_warm_up_proxy.Reorder.Ranges.{sack_ranges}
use cwnd_warm_up_proxy.Stream.{Error, stream_closed, Stream, fail, half_close_write, maybe_finalize}

abbrev is_empty {ℓ} : {A : Type ℓ} → List A → Bool
is_empty [] = true
is_empty (x ∷ xs) = false

-- The ACK that `sendAck` gives to the session, if it sends one.
unfoldable pub ack_of : Stream → ℕ → Option AckPayload
ack_of s credit =
    let ranges = sack_ranges s.reorder in
    if (credit == 0) && is_empty ranges && not (has_terminal s.reorder)
    then none
    else some (record { ack_seq = s.recv_seq; credit = credit; ranges = ranges })

unfoldable pub fail_on_error : Stream → Option Error → Stream
fail_on_error s none = s
fail_on_error s (some e) = fail s (some e)

abbrev pub is_end : Frame → Bool
is_end frame = has_flag frame.flags flag_end_of_stream

module _ (session_ack : AckPayload → Option Error) where
  -- `sendAck`
  unfoldable pub send_ack : Stream → ℕ → Option Error
  unfolding ack_of
  send_ack s credit = elim (ack_of s credit) [ none ↦ none | some ack ↦ session_ack ack ]

  -- The callers of `sendAck` fail the stream on an error.
  unfoldable pub acknowledge : Stream → ℕ → Stream
  unfolding send_ack fail_on_error
  acknowledge s credit = fail_on_error s (send_ack s credit)

-- The chunks that get into `inbound`, where its reader is another goroutine: all of them while the stream is
-- open. Once it is done, the select may take either case, and `n` of them get there.
abbrev pub passed : Bool → ℕ → List Chunk → List Chunk
passed done n chunks = if done then take n chunks else chunks

module _ (session_ack : AckPayload → Option Error) (n : ℕ) where
  -- A round of the loop in onData after the call of Push, and whether the loop ends there.
  unfoldable pub finish_round :
      Stream → ReorderBuffer × Result Reorder.Error (List Chunk) → Stream × Bool
  unfolding acknowledge
  finish_round s (r, err reorder_overflow) =
      (acknowledge session_ack (record s { reorder = r }) 0, false)
  finish_round s (r, ok []) = (acknowledge session_ack (record s { reorder = r }) 0, true)
  finish_round s (r, ok (chunk ∷ chunks)) =
      (record s { reorder = r; inbound = s.inbound ++ passed s.done n (chunk ∷ chunks) }, true)

  unfoldable pub on_data_round : Frame → Stream → Stream × Bool
  unfolding finish_round
  on_data_round frame s = finish_round s (push s.reorder frame.seq frame.payload (is_end frame))

  -- `rounds` rounds at most, and whether the loop has ended.
  unfoldable pub on_data : ℕ → Frame → Stream → Stream × Bool
  unfolding on_data_round
  on_data zero frame s = (s, false)
  on_data (suc rounds) frame s =
      let round = on_data_round frame s in
      let rest = on_data rounds frame round.0 in if round.1 then round else rest

-- The two directions of BindClient and BindServer differ in the connection.
pub data Side : Type 0 where
  local target : Side

abbrev pub half_close : Side → Stream → Stream
half_close local s = record s { local = half_close_write s.local }
half_close target s = record s { target = half_close_write s.target }

-- What a pump does after a step: it goes on, or it has returned.
pub data Pump : Type 0 where
  running returned : Pump

unfoldable pub after_chunk : Side → Stream → Chunk → Stream × Pump
unfolding maybe_finalize
after_chunk side s chunk =
    if chunk.end
    then (maybe_finalize (half_close side (record s { remote_done = true })), returned)
    else (s, running)

-- The rest of the round after `sendAck`.
unfoldable pub after_ack : Side → Stream → Chunk → Option Error → Stream × Pump
unfolding fail_on_error after_chunk
after_ack side s chunk none = after_chunk side s chunk
after_ack side s chunk (some e) = (fail_on_error s (some e), returned)

-- What a write comes to: all bytes are on the connection, or so many of them at most, with an error.
pub data Write : Type 0 where
  whole : Write
  part : ℕ → Error → Write

module _ (session_ack : AckPayload → Option Error) where
  unfoldable pub acknowledge_chunk : Side → Stream → Chunk → Stream × Pump
  unfolding send_ack after_ack
  acknowledge_chunk side s chunk =
      after_ack side s chunk (send_ack session_ack s (u32 (length chunk.bytes)))

  -- A round with data, and with the outcome of the write.
  unfoldable pub after_write : Side → Stream → Chunk → Write → Stream × Pump
  unfolding acknowledge_chunk fail_on_error
  after_write side s chunk whole =
      acknowledge_chunk side (record s { recv_seq = u64 (s.recv_seq + length chunk.bytes) }) chunk
  after_write side s chunk (part n e) = (fail_on_error s (some e), returned)

  -- A round of pumpOverlayToLocal or pumpOverlayToTarget with a chunk it took from `inbound`.
  unfoldable pub forward : Side → Write → Stream → Chunk → Stream × Pump
  unfolding acknowledge_chunk after_write
  forward side write s chunk =
      if length chunk.bytes == 0
      then acknowledge_chunk side s chunk
      else after_write side s chunk write

-- The bytes that a write puts on the connection.
abbrev pub written_by : Write → Chunk → List ℕ
written_by whole chunk = chunk.bytes
written_by (part n e) chunk = take n chunk.bytes

-- The bytes of a round, which writes nothing for a chunk without data.
abbrev pub output : Write → Chunk → List ℕ
output write chunk = if length chunk.bytes == 0 then [] else written_by write chunk

abbrev pub is_running : Pump → Bool
is_running running = true
is_running returned = false

module _ (acks : ℕ → AckPayload → Option Error) (writes : ℕ → Write) where
  -- The loop of these pumps over the chunks that it takes of `inbound`, from its round `k` on, and the bytes
  -- it has written. Each round has its own outcomes of the write and the ACK.
  unfoldable pub pump : Side → ℕ → Stream → List Chunk → Stream × List ℕ
  unfolding forward
  pump side k s [] = (s, [])
  pump side k s (chunk ∷ chunks) =
      let out = output (writes k) chunk in
      let round = forward (acks k) side (writes k) s chunk in
      let rest = pump side (suc k) round.0 chunks in
      if is_running round.1 then (rest.0, out ++ rest.1) else (round.0, out)

-- What a read of the connection yields at its end or on an error.
pub data ReadEnd : Type 0 where
  more eof : ReadEnd
  failed : Error → ReadEnd

-- The end of a round of pumpLocalToOverlay or pumpTargetToOverlay.
unfoldable pub after_read : Stream → ReadEnd → Stream × Pump
unfolding fail_on_error maybe_finalize
after_read s more = (s, running)
after_read s ReadEnd.eof = (maybe_finalize (record s { local_done = true }), returned)
after_read s (failed e) = (fail_on_error s (some e), returned)

-- A round of these pumps after the read of `n` bytes, where `sent` is the outcome of sendData if the
-- round calls it, and the stream is the one after that call.
unfoldable pub collect : Stream → ℕ → ReadEnd → Option Error → Stream × Pump
unfolding after_read fail_on_error maybe_finalize
collect s n read none = after_read s read
collect s n read (some stream_closed) =
    if ltb 0 n
    then (maybe_finalize (record s { local_done = true }), returned)
    else after_read s read
collect s n read (some e) =
    if ltb 0 n
    then (fail_on_error s (some e), returned)
    else elim read [ ReadEnd.eof ↦ (fail_on_error s (some e), returned) | r ↦ after_read s r ]
