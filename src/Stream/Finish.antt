-- ===== src/Stream/Finish.antt =====
-- internal/overlay/stream.go: the two directions of a stream and its end.
use cwnd_warm_up_proxy.Prelude.{ℕ, List, [], ◌∷◌, Bool, false, ◌&&◌, ◌||◌, none, ltb}
use cwnd_warm_up_proxy.Protocol.{Frame, AckPayload}
use cwnd_warm_up_proxy.Reorder.{Chunk}
use cwnd_warm_up_proxy.Stream.{PendingEntry, Stream}
use cwnd_warm_up_proxy.Stream.Send.{queue_frame, send_queued}
use cwnd_warm_up_proxy.Stream.Ack.{on_ack}
use cwnd_warm_up_proxy.Stream.Data.{Side, on_data_round, whole, forward, collect}
use cwnd_warm_up_proxy.Stream.Ends.{no_error, read_end, send_outcome}

-- A turn of a stream in which nothing fails: the pump to the connection takes a chunk and writes it, the pump
-- from it has read so many bytes or the end and has sent them (or was told that the sending side is closed),
-- a DATA frame or an ACK comes in, a frame is queued or sent.
pub data Turn : Type 0 where
  takes : Chunk → Turn
  reads : ℕ → Bool → Bool → Turn
  arrives : ℕ → Frame → Turn
  acks : ℕ → ℕ → AckPayload → Turn
  queues : List ℕ → Bool → Turn
  sends : ℕ → ℕ → PendingEntry → Turn

unfoldable pub turn : Side → Turn → Stream → Stream
unfolding forward collect on_data_round on_ack queue_frame send_queued
turn side (takes chunk) s = (forward no_error side whole s chunk).0
turn side (reads n end told) s = (collect s n (read_end end) (send_outcome told)).0
turn side (arrives taken frame) s = (on_data_round no_error taken frame s).0
turn side (acks session_id now ack) s = on_ack no_error session_id now ack s
turn side (queues payload end) s = (queue_frame s payload end).0
turn side (sends session_id now entry) s = send_queued s session_id now entry none

unfoldable pub turns : Side → List Turn → Stream → Stream
unfolding turn
turns side [] s = s
turns side (t ∷ ts) s = turns side ts (turn side t s)

-- A turn that ends the direction from the connection, or the one to it.
abbrev pub ends_local : Turn → Bool
ends_local (reads n end told) = end || (told && ltb 0 n)
ends_local _ = false

abbrev pub ends_remote : Turn → Bool
ends_remote (takes chunk) = chunk.end
ends_remote _ = false

abbrev pub some_turn : (Turn → Bool) → List Turn → Bool
some_turn p [] = false
some_turn p (t ∷ ts) = p t || some_turn p ts
