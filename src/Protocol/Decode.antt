-- ===== src/Protocol/Decode.antt =====
-- Decode and ReadFrame of frame.go.
pub mod Wire
pub mod Safety
pub mod Kind
pub mod Payload
use cwnd_warm_up_proxy.Prelude.{
  ℕ, zero, suc, ◌+◌, ◌-◌, ◌*◌, ◌%◌, List, [], ◌∷◌, Option, none, some, not, false,
}
use cwnd_warm_up_proxy.Prelude.{length, take, drop, get_or, ltb, ◌==◌, if◌then◌else◌, min, ◌||◌}
use cwnd_warm_up_proxy.Prelude.Bytes.{get_be}
use cwnd_warm_up_proxy.Prelude.Int.{to_int64}
use cwnd_warm_up_proxy.Prelude.Results.{Result, ok, err, ◌>>=◌, ◌>>◌, fail_if}
use cwnd_warm_up_proxy.Protocol.{
  Frame, SackRange, AckPayload, ControlPayload, HeartbeatPayload, JsonCodec, Error, header_size,
  max_payload_size, max_sack_ranges, frame_data, frame_ack, frame_control, frame_heartbeat,
  has_flag, flag_checksum_present, unsupported_version, payload_too_large, invalid_frame_type,
  checksum_mismatch, ack_length, ack_count, sack_range, heartbeat_length, decode_control,
}
use cwnd_warm_up_proxy.Protocol
use cwnd_warm_up_proxy.Protocol.Io.{read_full}
use cwnd_warm_up_proxy.Protocol.Encode.{trailer_sum}

-- `xs[a:b]`
abbrev pub slice : ℕ → ℕ → List ℕ → List ℕ
slice a b xs = take (b - a) (drop a xs)

-- The frame that the header announces, before its payload is read.
unfoldable pub header_frame : List ℕ → Frame
header_frame header = record {
  version = get_or header 0 0;
  frame_type = get_or header 1 0;
  flags = get_or header 2 0;
  session_id = get_be (slice 4 8 header);
  stream_id = get_be (slice 8 12 header);
  seq = get_be (slice 12 20 header);
  payload = [];
  checksum = 0;
  is_duplicate = false;
  wire_length = 0;
  ack = none;
  control = none;
  heartbeat = none;
}

-- `i` counts the ranges read, `n` those still to read, `buf` starts at the next one.
unfoldable pub parse_ranges : ℕ → ℕ → List ℕ → Result Error (List SackRange)
parse_ranges zero i buf = ok []
parse_ranges (suc n) i buf = do
  let r : SackRange = record { start = get_be (slice 0 8 buf); end = get_be (slice 8 16 buf) }
  fail_if (ltb r.end r.start) (sack_range i r.start r.end)
  rs ← parse_ranges n (i + 1) (drop 16 buf)
  ok (r ∷ rs)

unfoldable pub parse_ack : List ℕ → Result Error AckPayload
parse_ack buf = do
  let len = length buf
  fail_if (ltb len 16 || not ((len - 16) % 16 == 0)) (ack_length len)
  let range_count = get_or buf 12 0
  fail_if (not (len == 16 + range_count * 16)) (ack_count len range_count)
  ranges ← parse_ranges (min range_count max_sack_ranges) 0 (drop 16 buf)
  ok (record {
    ack_seq = get_be (slice 0 8 buf);
    credit = get_be (slice 8 12 buf);
    ranges = ranges;
  })

unfoldable pub parse_heartbeat : List ℕ → Result Error HeartbeatPayload
parse_heartbeat buf = do
  fail_if (not (length buf == 8)) (heartbeat_length (length buf))
  ok (record { unix_nanos = to_int64 (get_be buf) })

abbrev or_decode_error : Option ControlPayload → Result Error ControlPayload
or_decode_error none = err decode_control
or_decode_error (some c) = ok c

-- The checksum behind the payload: its value, its length on the wire, and the reader behind it.
unfoldable pub read_trailer : Frame → List ℕ → List ℕ → List ℕ → Result Error (ℕ × ℕ × List ℕ)
unfolding read_full
read_trailer frame header buf r =
    if has_flag frame.flags flag_checksum_present
    then (do
      (trailer, r') ← read_full 4 r
      let expected = get_be trailer
      let sum = trailer_sum header buf
      fail_if (not (sum == expected)) (checksum_mismatch sum expected)
      ok (expected, 4, r'))
    else ok (0, 0, r)

module _ (json : JsonCodec) where
  -- The switch over the frame's type.
  unfoldable pub parse_payload : Frame → List ℕ → Result Error Frame
  parse_payload frame buf =
      if frame.frame_type == frame_data
      then ok (record frame { payload = buf })
      else if frame.frame_type == frame_ack
      then (parse_ack buf >>= λ a. ok (record frame { ack = some a }))
      else if frame.frame_type == frame_control
      then (or_decode_error (json.unmarshal buf) >>= λ c. ok (record frame { control = some c }))
      else if frame.frame_type == frame_heartbeat
      then (parse_heartbeat buf >>= λ h. ok (record frame { heartbeat = some h }))
      else err invalid_frame_type

  -- One frame off the reader, and the reader behind it.
  unfoldable pub decode : List ℕ → Result Error (Frame × List ℕ)
  decode r = do
    (header, r₁) ← read_full header_size r
    let frame = header_frame header
    fail_if (not (frame.version == Protocol.version)) (unsupported_version frame.version)
    let len = get_be (slice 20 24 header)
    fail_if (ltb max_payload_size len) payload_too_large
    (buf, r₂) ← if ltb 0 len then read_full len r₁ else ok ([], r₁)
    (checksum, checksum_len, r₃) ← read_trailer frame header buf r₂
    decoded ← parse_payload (record frame { checksum = checksum }) buf
    ok (record decoded { wire_length = header_size + len + checksum_len }, r₃)

  unfoldable pub read_frame : List ℕ → Result Error (Frame × List ℕ)
  unfolding decode
  read_frame r = decode r
