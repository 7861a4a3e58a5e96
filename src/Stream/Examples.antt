-- ===== src/Stream/Examples.antt =====
-- A stream that holds ten bytes of its peer, and frames, ACKs and chunks for it.
use cwnd_warm_up_proxy.Prelude.{
  ℕ, ◌≤◌, ◌+◌, ◌<◌, ◌≡◌, ◌⊎◌, ◌↔◌, refl, List, [], ◌∷◌, true, false, Option, none, some, length,
  take, arith,
}
use cwnd_warm_up_proxy.Prelude.Bytes.{u32, u64}
use cwnd_warm_up_proxy.Prelude.Table.{lookup}
use cwnd_warm_up_proxy.Protocol.{Frame, AckPayload}
use cwnd_warm_up_proxy.Reorder.{Chunk, ReorderBuffer}
use cwnd_warm_up_proxy.Reorder.Ranges.{
  sack_ranges, ranges_of, range_at, payload_length, sort_keys, insert_key, data_keys, coalesce,
}
use cwnd_warm_up_proxy.Reorder.Ranges.Sound.{InRanges, Held}
use cwnd_warm_up_proxy.Reorder.Ranges.Order.{ApartFrom}
use cwnd_warm_up_proxy.Reorder.Deliver.{chunk_bytes}
use cwnd_warm_up_proxy.Stream.{Error, other, PendingEntry, Stream, new_stream, fail}
use cwnd_warm_up_proxy.Stream.Send.{queue_frame, data_frame}
use cwnd_warm_up_proxy.Stream.Ack.{
  ack_covers_entry, some_range_covers, compute_ack_holes, should_retransmit_entry, is_recent,
  on_ack,
}
use cwnd_warm_up_proxy.Stream.Data.{
  ack_of, on_data, local, pump, Write, whole, part, forward, after_write, acknowledge_chunk,
  send_ack, after_ack, after_chunk, fail_on_error,
}
use cwnd_warm_up_proxy.Stream.Held.{covered-Held}
use cwnd_warm_up_proxy.Stream.Holes.{
  Missing, Lacks, compute_ack_holes-Missing, should_retransmit_entry-Lacks,
}
use cwnd_warm_up_proxy.Stream.Balance.{here, next, queues, acks, Steps-sum}
use cwnd_warm_up_proxy.Stream.Stuck.{IsRefused, on_data_refused}
use cwnd_warm_up_proxy.Prelude.{All, ◌==◌, if◌then◌else◌, length, ◌<◌, ◌^◌}
use cwnd_warm_up_proxy.Reorder
use cwnd_warm_up_proxy.Reorder.Receive.{Packet, receive, IsPacket}
use cwnd_warm_up_proxy.Stream.Delivery.{delivery_prefix}
use cwnd_warm_up_proxy.Prelude.{map, not}
use cwnd_warm_up_proxy.Stream.Pending.{Distinct, sent_as, outcome, keep, on_ack-pending}
use cwnd_warm_up_proxy.Stream.Forward.{pump_written}
use cwnd_warm_up_proxy.Stream.Finish.{Turn, takes, reads}
use cwnd_warm_up_proxy.Stream.Finish

abbrev ten_bytes : List ℕ
ten_bytes = 1 ∷ 2 ∷ 3 ∷ 4 ∷ 5 ∷ 6 ∷ 7 ∷ 8 ∷ 9 ∷ 10 ∷ []

-- Ten bytes from position 20 on, in a buffer with room for no more.
abbrev full_buffer : ReorderBuffer
full_buffer = record {
  next = 4;
  buffer = (20, record { payload = ten_bytes; end = false }) ∷ [];
  buffered = 10;
  capacity = 12;
  terminal = false;
  end_seq = 0;
}

abbrev holding : Stream
holding = record (new_stream 6 1) { reorder = full_buffer; recv_seq = 4 }

abbrev holding_ack : AckPayload
holding_ack = record { ack_seq = 4; credit = 0; ranges = record { start = 20; end = 30 } ∷ [] }

holding_ack_made : ack_of holding 0 ≡ some holding_ack
unfolding ack_of new_stream sack_ranges ranges_of range_at payload_length sort_keys insert_key
    data_keys coalesce lookup
holding_ack_made = refl

-- The peer's frame for the same ten bytes.
abbrev sent_entry : PendingEntry
sent_entry = record {
  address = 3;
  seq = 20;
  length = 10;
  frame = data_frame holding ten_bytes false;
  last_send = some 0;
}

sent_entry_covered : ack_covers_entry holding_ack sent_entry ≡ true
unfolding ack_covers_entry some_range_covers
sent_entry_covered = refl

covered-Held_example : (25 < holding.recv_seq) ⊎ Held holding.reorder.buffer 25
covered-Held_example =
    covered-Held holding 0 holding_ack sent_entry 25 holding_ack_made (omega arith)
      (omega arith, omega arith) sent_entry_covered

holding_ack-ApartFrom : ApartFrom 0 holding_ack.ranges
holding_ack-ApartFrom = (omega arith, omega arith, tt)

compute_ack_holes-Missing_example :
    (InRanges 9 (compute_ack_holes holding_ack)) ↔ Missing holding_ack.ack_seq 9 holding_ack.ranges
compute_ack_holes-Missing_example = compute_ack_holes-Missing holding_ack 9 holding_ack-ApartFrom

-- A frame in the gap, sent at time 0.
abbrev lost_entry : PendingEntry
lost_entry = record sent_entry { seq = 8; length = 6 }

should_retransmit_entry-Lacks_example :
    (should_retransmit_entry lost_entry (compute_ack_holes holding_ack) 60000000 ≡ true)
    ↔ ((is_recent lost_entry 60000000 ≡ false) × Lacks holding_ack lost_entry)
should_retransmit_entry-Lacks_example =
    should_retransmit_entry-Lacks holding_ack lost_entry 60000000 holding_ack-ApartFrom
      (omega arith)

abbrev too_much : Frame
too_much = record (data_frame holding (1 ∷ 2 ∷ 3 ∷ []) false) { seq = 4 }

too_much-IsRefused : IsRefused holding.reorder too_much
unfolding data_frame
too_much-IsRefused = record { ahead = omega arith; absent = unfold lookup in refl; over = refl }

abbrev no_error : AckPayload → Option Error
no_error ack = none

on_data_refused_example :
    ((on_data no_error 0 1000 too_much holding).1 ≡ false)
    × ((on_data no_error 0 1000 too_much holding).0.reorder ≡ full_buffer)
on_data_refused_example = on_data_refused no_error 0 1000 too_much holding too_much-IsRefused

abbrev queued_five : Stream
queued_five = (queue_frame (new_stream 8 1) (1 ∷ 2 ∷ 3 ∷ 4 ∷ 5 ∷ []) true).0

-- The connection of every subflow is broken.
abbrev broken : Frame → Option Error
broken frame = some (other 1)

Steps-sum_example :
    let t = on_ack broken 5 60000000 holding_ack queued_five in
    u32 (t.send_window.available + t.inflight) ≡ u32 8
Steps-sum_example = Steps-sum 8 1 (
    next (next here (queues (1 ∷ 2 ∷ 3 ∷ 4 ∷ 5 ∷ []) true))
      (acks broken 5 60000000 holding_ack (omega arith)))

abbrev two_chunks : List Chunk
two_chunks = record { bytes = 5 ∷ 6 ∷ []; end = false } ∷ record { bytes = 7 ∷ []; end = true } ∷ []

abbrev three_bytes : List ℕ
three_bytes = 5 ∷ 6 ∷ 7 ∷ []

abbrev no_errors : ℕ → AckPayload → Option Error
no_errors round ack = none

-- The second write breaks off behind its first byte.
abbrev second_breaks : ℕ → Write
second_breaks k = if k == 1 then part 1 (other 2) else whole

pump_written_example :
    let t = pump no_errors second_breaks local 0 holding two_chunks in
    (n : ℕ) × (t.0.recv_seq ≡ u64 (4 + n))
    × (n ≤ length t.1)
    × ((n ≡ length t.1) ⊎ (t.0.done ≡ true))
    × (take (length t.1) (chunk_bytes two_chunks) ≡ t.1)
pump_written_example = pump_written no_errors second_breaks local 0 holding two_chunks (omega arith)

test_broken_write :
    let t = pump no_errors second_breaks local 0 holding two_chunks in
    (t.0.recv_seq ≡ 6) × (t.0.done ≡ true) × (t.1 ≡ three_bytes)
unfolding pump forward after_write acknowledge_chunk send_ack ack_of new_stream sack_ranges
    ranges_of range_at payload_length sort_keys insert_key data_keys coalesce lookup after_ack
    after_chunk fail_on_error fail
test_broken_write = (refl, refl, refl)

abbrev two_and_one : ℕ → Option (List ℕ)
two_and_one n = if n == 0 then some (5 ∷ 6 ∷ []) else if n == 2 then some (7 ∷ []) else none

abbrev last_first : List Packet
last_first =
    record { seq = 2; payload = 7 ∷ []; end = true }
    ∷ record { seq = 0; payload = 5 ∷ 6 ∷ []; end = false }
    ∷ []

three_bytes_short : length three_bytes < 2 ^ 64
three_bytes_short = omega arith

last_first-IsPacket : All (IsPacket three_bytes two_and_one three_bytes_short) last_first
last_first-IsPacket = (
  record { known = refl; fits = omega arith; content = refl; last = λ _. refl },
  (record { known = refl; fits = omega arith; content = refl; last = λ h. absurd (cc) }, tt),
)

new_stream-recv_seq : (new_stream 6 1).recv_seq ≡ 0
unfolding new_stream
new_stream-recv_seq = refl

delivery_prefix_example :
    let t =
      pump no_errors second_breaks local 0
        (new_stream 6 1)
        (take 2 (receive (Reorder.new 8) last_first).1) in
    (t.1 ≡ take (length t.1) three_bytes)
    × (t.0.recv_seq ≤ length t.1)
    × ((t.0.recv_seq ≡ length t.1) ⊎ (t.0.done ≡ true))
delivery_prefix_example =
    delivery_prefix three_bytes two_and_one three_bytes_short no_errors second_breaks local
      (new_stream 6 1) 8 2 last_first new_stream-recv_seq last_first-IsPacket

-- An entry in the gap behind one that has arrived.
abbrev two_pending : Stream
two_pending = record holding { pending = sent_entry ∷ record lost_entry { address = 4 } ∷ [] }

two_pending-Distinct : Distinct two_pending.pending
unfolding Distinct
two_pending-Distinct = ((ground arith, tt), (tt, tt))

on_ack-pending_example :
    (on_ack broken 5 60000000 holding_ack two_pending).pending
    ≡ map
        (λ e.
          if should_retransmit_entry e (compute_ack_holes holding_ack) 60000000
          then sent_as 5 60000000 (outcome broken 5 60000000 e) e
          else e)
        (keep (λ e. not (ack_covers_entry holding_ack e)) two_pending.pending)
on_ack-pending_example =
    on_ack-pending broken 5 60000000 holding_ack two_pending two_pending-Distinct

-- One pump comes to its end, an ACK comes in, and the other pump takes the last chunk.
abbrev both_ways : List Turn
both_ways =
    reads 0 true false
    ∷ Finish.acks 7 5 holding_ack
    ∷ takes (record { bytes = 5 ∷ []; end = true })
    ∷ []
