-- ===== src/Protocol/Decode/Payload.antt =====
-- Each kind of payload read back from the bytes that `payloadBytes` makes of it.
use cwnd_warm_up_proxy.Prelude.{
  ℕ, ◌+◌, ◌-◌, ◌*◌, ◌%◌, ◌^◌, ◌≤◌, ◌≡◌, refl, List, [], ◌∷◌, false, not, ◌||◌, arith, length, take,
  ltb, ◌==◌, min, length-take, le→ltb_false, All, All-take,
}
use cwnd_warm_up_proxy.Prelude.Bytes.{get_be-put_be, IsU32, IsU64}
use cwnd_warm_up_proxy.Prelude.Int.{IsInt64, to_uint64-lt, to_int64-to_uint64}
use cwnd_warm_up_proxy.Prelude.Results.{ok}
use cwnd_warm_up_proxy.Protocol.{SackRange, AckPayload, HeartbeatPayload, max_sack_ranges}
use cwnd_warm_up_proxy.Protocol.Encode.{range_bytes, ack_bytes, heartbeat_bytes}
use cwnd_warm_up_proxy.Protocol.Decode.{parse_ranges, parse_ack, parse_heartbeat}

-- A range of sequence numbers, its end not before its start.
pub record IsRange (r : SackRange) : Type 0 where
  pub start : IsU64 r.start
  pub end : IsU64 r.end
  pub ordered : r.start ≤ r.end

pub record IsAck (a : AckPayload) : Type 0 where
  pub ack_seq : IsU64 a.ack_seq
  pub credit : IsU32 a.credit
  pub ranges : All IsRange a.ranges

length-range_bytes : (rs : List SackRange) → length (range_bytes rs) ≡ length rs * 16
unfolding range_bytes
length-range_bytes [] = refl
length-range_bytes (r ∷ rs) = omega (arith, length-range_bytes rs)

parse_ranges-range_bytes :
    (rs : List SackRange) (i : ℕ)
    → All IsRange rs
    → parse_ranges (length rs) i (range_bytes rs) ≡ ok rs
unfolding range_bytes parse_ranges
parse_ranges-range_bytes [] i h = refl
parse_ranges-range_bytes (r ∷ rs) i (hr, hrs) =
    rw
      (
        get_be-put_be 8 r.start hr.start,
        get_be-put_be 8 r.end hr.end,
        le→ltb_false r.end r.start hr.ordered,
        parse_ranges-range_bytes rs (i + 1) hrs,
      )
      refl

length_test : (n len : ℕ) → len ≡ 16 + n * 16 → (ltb len 16 || not ((len - 16) % 16 == 0)) ≡ false
length_test n len e = ground arith

count_test : (n len : ℕ) → len ≡ 16 + n * 16 → not (len == 16 + n * 16) ≡ false
count_test n len e = ground arith

length-ack_bytes :
    (a : AckPayload) → length (ack_bytes a) ≡ 16 + length (take max_sack_ranges a.ranges) * 16
unfolding ack_bytes
length-ack_bytes a = omega (arith, length-range_bytes (take max_sack_ranges a.ranges))

-- An ACK keeps its first four ranges.
pub parse_ack-ack_bytes :
    (a : AckPayload)
    → IsAck a
    → parse_ack (ack_bytes a) ≡ ok (record a { ranges = take max_sack_ranges a.ranges })
unfolding ack_bytes parse_ack
parse_ack-ack_bytes a h =
    rw
      (
        length_test (length kept) (length (ack_bytes a)) (length-ack_bytes a),
        count_test (length kept) (length (ack_bytes a)) (length-ack_bytes a),
        at_most_four,
        parse_ranges-range_bytes kept 0 (All-take IsRange max_sack_ranges a.ranges h.ranges),
        get_be-put_be 8 a.ack_seq h.ack_seq,
        get_be-put_be 4 a.credit h.credit,
      )
      refl
  where
    kept : List SackRange
    kept = take max_sack_ranges a.ranges

    at_most_four : min (length kept) max_sack_ranges ≡ length kept
    at_most_four = omega (arith, length-take max_sack_ranges a.ranges)

pub parse_heartbeat-heartbeat_bytes :
    (b : HeartbeatPayload) → IsInt64 b.unix_nanos → parse_heartbeat (heartbeat_bytes b) ≡ ok b
unfolding heartbeat_bytes parse_heartbeat
parse_heartbeat-heartbeat_bytes b h =
    rw (get_be-put_be 8 _ (to_uint64-lt b.unix_nanos), to_int64-to_uint64 b.unix_nanos h) refl

pub length_ack_le : (a : AckPayload) → length (ack_bytes a) ≤ 2 ^ 20
length_ack_le a = omega (arith, length-ack_bytes a, length-take max_sack_ranges a.ranges)

pub length_heartbeat_le : (b : HeartbeatPayload) → length (heartbeat_bytes b) ≤ 2 ^ 20
unfolding heartbeat_bytes
length_heartbeat_le b = omega arith
