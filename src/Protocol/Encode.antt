-- ===== src/Protocol/Encode.antt =====
-- Frame.Encode and Frame.payloadBytes of frame.go.
pub mod Wire
use cwnd_warm_up_proxy.Prelude.{ℕ, ◌%◌, ◌^◌, ◌<◌, List, [], ◌∷◌, ◌++◌, Option, none, some}
use cwnd_warm_up_proxy.Prelude.{length, take, ltb, ◌==◌, if◌then◌else◌}
use cwnd_warm_up_proxy.Prelude.Bytes.{put_be}
use cwnd_warm_up_proxy.Prelude.Int.{to_uint64}
use cwnd_warm_up_proxy.Prelude.Results.{Result, ok, err}
use cwnd_warm_up_proxy.Protocol.{
  Frame, SackRange, AckPayload, ControlPayload, HeartbeatPayload, JsonCodec, Error, header_size,
  max_payload_size, max_sack_ranges, frame_data, frame_ack, frame_control, frame_heartbeat,
  has_flag, flag_checksum_present, payload_too_large, payload_mismatch, invalid_frame_type,
  marshal_control,
}
use cwnd_warm_up_proxy.Protocol
use cwnd_warm_up_proxy.Protocol.Crc.{crc_update, crc_update-lt}
use cwnd_warm_up_proxy.Protocol.Io.{Writer, CountingWriter, counting_write}

-- The fields of a frame, the state that `Encode` changes, beside the counting writer.
pub record Encoder : Type 0 where
  pub frame : Frame
  pub cw : CountingWriter

-- A statement of `Encode` either goes on or returns an error; what it wrote stays written.
infixl 5 ◌then_do◌
abbrev pub ◌then_do◌ :
    Encoder × Option Error → (Encoder → Encoder × Option Error) → Encoder × Option Error
(s, none) then_do k = k s
(s, some e) then_do k = (s, some e)

abbrev emit : List ℕ → Encoder → Encoder × Option Error
emit p s = let (cw, e) = counting_write s.cw p in (record s { cw = cw }, e)

-- The 24 bytes before the payload; byte 3 is reserved.
unfoldable pub header_bytes : Frame → ℕ → List ℕ
header_bytes f len =
    (f.version ∷ f.frame_type ∷ f.flags ∷ 0 ∷ [])
    ++ (put_be 4 f.session_id ++ (put_be 4 f.stream_id ++ (put_be 8 f.seq ++ put_be 4 len)))

unfoldable pub range_bytes : List SackRange → List ℕ
range_bytes [] = []
range_bytes (r ∷ rs) = put_be 8 r.start ++ (put_be 8 r.end ++ range_bytes rs)

-- At most four ranges; three bytes behind their number are reserved.
unfoldable pub ack_bytes : AckPayload → List ℕ
ack_bytes a =
    let ranges = take max_sack_ranges a.ranges in
    put_be 8 a.ack_seq
    ++ (put_be 4 a.credit ++ ((length ranges ∷ 0 ∷ 0 ∷ 0 ∷ []) ++ range_bytes ranges))

unfoldable pub heartbeat_bytes : HeartbeatPayload → List ℕ
heartbeat_bytes h = put_be 8 (to_uint64 h.unix_nanos)

abbrev or_mismatch : {A : Type 0} → Option A → (A → Result Error (List ℕ)) → Result Error (List ℕ)
or_mismatch none k = err payload_mismatch
or_mismatch (some a) k = k a

abbrev or_marshal_error : Option (List ℕ) → Result Error (List ℕ)
or_marshal_error none = err marshal_control
or_marshal_error (some p) = ok p

unfoldable pub trailer_sum : List ℕ → List ℕ → ℕ
trailer_sum header payload = crc_update (crc_update 0 header) payload

module _ (json : JsonCodec) where
  unfoldable pub payload_bytes : Frame → Result Error (List ℕ)
  payload_bytes f =
      if ltb 0 (length f.payload)
      then ok f.payload
      else if f.frame_type == frame_data
      then ok f.payload
      else if f.frame_type == frame_ack
      then or_mismatch f.ack (λ a. ok (ack_bytes a))
      else if f.frame_type == frame_control
      then or_mismatch f.control (λ c. or_marshal_error (json.marshal c))
      else if f.frame_type == frame_heartbeat
      then or_mismatch f.heartbeat (λ h. ok (heartbeat_bytes h))
      else err invalid_frame_type

-- The writes of `Encode`, once the payload is known.
unfoldable pub write_payload : List ℕ → Encoder → Encoder × Option Error
write_payload payload s = if ltb 0 (length payload) then emit payload s else (s, none)

unfoldable pub write_trailer : List ℕ → List ℕ → Encoder → Encoder × Option Error
write_trailer header payload s =
    let sum = trailer_sum header payload in
    if has_flag s.frame.flags flag_checksum_present
    then emit (put_be 4 sum) (record s { frame = record s.frame { checksum = sum } })
    else (s, none)

unfoldable pub record_length : Encoder → Encoder × Option Error
record_length s = (record s { frame = record s.frame { wire_length = s.cw.written } }, none)

unfoldable pub write_frame : List ℕ → Encoder → Encoder × Option Error
unfolding write_payload write_trailer record_length counting_write
write_frame payload s =
    let header = header_bytes s.frame (length payload % 2 ^ 32) in
    emit header s
    then_do write_payload payload
    then_do write_trailer header payload
    then_do record_length

abbrev pub default_version : Frame → Frame
default_version f = if f.version == 0 then record f { version = Protocol.version } else f

unfoldable pub encode_payload : Frame → Writer → Result Error (List ℕ) → Encoder × Option Error
unfolding write_frame
encode_payload f w (err e) = (record { frame = f; cw = record { w = w; written = 0 } }, some e)
encode_payload f w (ok p) =
    let s : Encoder = record { frame = f; cw = record { w = w; written = 0 } } in
    if ltb max_payload_size (length p) then (s, some payload_too_large) else write_frame p s

-- The frame with its fields set, the writer behind it, and the error.
unfoldable pub encode : JsonCodec → Frame → Writer → Encoder × Option Error
unfolding encode_payload
encode json f w = encode_payload (default_version f) w (payload_bytes json (default_version f))

pub trailer_sum-lt : (header payload : List ℕ) → trailer_sum header payload < 2 ^ 32
unfolding trailer_sum
trailer_sum-lt header payload = crc_update-lt (crc_update 0 header) payload
