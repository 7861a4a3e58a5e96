-- ===== src/Protocol/Examples.antt =====
-- A control frame with a checksum, written and read, and a DATA frame from the wire.
use cwnd_warm_up_proxy.Prelude.{
  ℕ, ◌+◌, ◌≤◌, ◌≡◌, refl, List, [], ◌∷◌, ◌++◌, Option, none, some, false, length, arith,
}
use cwnd_warm_up_proxy.Prelude.Bytes.{get_be, be_from}
use cwnd_warm_up_proxy.Prelude.Results.{ok}
use cwnd_warm_up_proxy.Protocol.{
  Frame, JsonCodec, ControlPayload, Fields, Error, frame_data, frame_control, flag_checksum_present,
  control_stream_open, header_size, max_payload_size,
}
use cwnd_warm_up_proxy.Protocol
use cwnd_warm_up_proxy.Protocol.Io.{Writer, read_full, write, counting_write}
use cwnd_warm_up_proxy.Protocol.Encode.{
  header_bytes, payload_bytes, default_version, encode, encode_payload, write_frame, write_payload,
  write_trailer, record_length,
}
use cwnd_warm_up_proxy.Protocol.Encode.Wire.{wire, sent, started, Emits, encode-Emits}
use cwnd_warm_up_proxy.Protocol.Decode.{decode, header_frame, parse_payload, read_trailer}
use cwnd_warm_up_proxy.Protocol.Decode.Wire.{HasHeader}
use cwnd_warm_up_proxy.Protocol.Decode.Safety.{decode_takes}
use cwnd_warm_up_proxy.Protocol.Decode.Kind.{Kind, decode-Kind}
use cwnd_warm_up_proxy.Protocol.RoundTrip.{Body, control_body, received, IsLossless, decode-encode}

abbrev control_of : ℕ → ControlPayload
control_of t = record {
  control_type = t;
  session_id = 0;
  stream_id = 0;
  window = 0;
  metadata = Fields.end;
  values = Fields.end;
  raw = [];
}

abbrev first_control : List ℕ → Option ControlPayload
first_control [] = none
first_control (t ∷ ts) = some (control_of t)

-- A codec that keeps the type alone.
abbrev type_codec : JsonCodec
type_codec = record { marshal = λ c. some (c.control_type ∷ []); unmarshal = first_control }

abbrev open_frame : Frame
open_frame = record {
  version = 0;
  frame_type = frame_control;
  flags = flag_checksum_present;
  session_id = 5;
  stream_id = 9;
  seq = 0;
  payload = [];
  checksum = 0;
  is_duplicate = false;
  wire_length = 0;
  ack = none;
  control = some (control_of control_stream_open);
  heartbeat = none;
}

open_frame-HasHeader : HasHeader (default_version open_frame)
open_frame-HasHeader = record {
  supported = refl;
  session_id = omega arith;
  stream_id = omega arith;
  seq = omega arith;
}

open_frame-Body : Body type_codec (default_version open_frame)
open_frame-Body =
    control_body (control_of control_stream_open) (control_stream_open ∷ []) refl refl refl refl
      (omega arith)

open_frame-IsLossless : IsLossless type_codec (default_version open_frame)
open_frame-IsLossless c p h k = ground (arith, h, k)

abbrev wide : Writer
wide = record { accepted = []; room = 100 }

open_frame-fits : (encode type_codec open_frame wide).1 ≡ none
unfolding encode encode_payload payload_bytes write_frame write_payload write_trailer record_length
    counting_write write header_bytes
open_frame-fits = refl

decode-encode_example :
    let r = encode type_codec open_frame wide in
    decode type_codec (r.0.cw.w.accepted ++ (7 ∷ [])) ≡ ok (received r.0.frame, 7 ∷ [])
decode-encode_example =
    decode-encode type_codec open_frame 100 (7 ∷ []) open_frame-HasHeader open_frame-Body
      open_frame-IsLossless open_frame-fits

-- The writer fails inside the header.
encode-Emits_example :
    let narrow : Writer = record { accepted = 1 ∷ []; room = 10 } in
    let f = default_version open_frame in
    let p = control_stream_open ∷ [] in
    Emits (started open_frame narrow) (wire f p) (sent f p) (encode type_codec open_frame narrow)
encode-Emits_example =
    encode-Emits type_codec open_frame (record { accepted = 1 ∷ []; room = 10 })
      (control_stream_open ∷ []) (unfold payload_bytes in refl) (omega arith)

abbrev data_bytes : List ℕ
data_bytes =
    1 ∷ 1 ∷ 0 ∷ 0 ∷ 0 ∷ 0 ∷ 0 ∷ 5 ∷ 0 ∷ 0 ∷ 0 ∷ 9 ∷ 0 ∷ 0 ∷ 0 ∷ 0 ∷ 0 ∷ 0 ∷ 1 ∷ 4 ∷ 0 ∷ 0 ∷ 0 ∷ 2
    ∷ 70 ∷ 71 ∷ 8 ∷ []

abbrev data_frame : Frame
data_frame = record {
  version = 1;
  frame_type = frame_data;
  flags = 0;
  session_id = 5;
  stream_id = 9;
  seq = 260;
  payload = 70 ∷ 71 ∷ [];
  checksum = 0;
  is_duplicate = false;
  wire_length = 26;
  ack = none;
  control = none;
  heartbeat = none;
}

data_bytes-decode : decode type_codec data_bytes ≡ ok (data_frame, 8 ∷ [])
unfolding decode header_frame parse_payload read_trailer read_full get_be be_from
data_bytes-decode = refl

decode_takes_example :
    (front : List ℕ) × (data_bytes ≡ front ++ (8 ∷ []))
    × (length front ≡ 26)
    × (26 ≤ header_size + max_payload_size + 4)
decode_takes_example = decode_takes type_codec data_bytes data_frame (8 ∷ []) data_bytes-decode

decode-Kind_example : Kind data_frame × (data_frame.version ≡ Protocol.version)
decode-Kind_example = decode-Kind type_codec data_bytes data_frame (8 ∷ []) data_bytes-decode
