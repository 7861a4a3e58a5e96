-- ===== src/Protocol/RoundTrip.antt =====
-- Decode after Encode, for every kind of frame.
use cwnd_warm_up_proxy.Prelude.{
  ℕ, ◌≤◌, ◌≡◌, refl, ◌∙◌, inl, inr, List, [], ◌++◌, none, some, false, arith, length, take, ◌==◌,
  take_all, if◌then◌else◌, Bool-cases,
}
use mathlib.Core.Option
use cwnd_warm_up_proxy.Prelude.Int.{IsInt64}
use cwnd_warm_up_proxy.Prelude.Results.{Result, ok, ◌>>=◌}
use cwnd_warm_up_proxy.Protocol.{
  Frame, JsonCodec, Error, AckPayload, ControlPayload, HeartbeatPayload, max_sack_ranges,
  max_payload_size, frame_data, frame_ack, frame_control, frame_heartbeat, has_flag,
  flag_checksum_present,
}
use cwnd_warm_up_proxy.Protocol.Io.{Writer}
use cwnd_warm_up_proxy.Protocol.Encode.{
  ack_bytes, heartbeat_bytes, payload_bytes, default_version, encode,
}
use cwnd_warm_up_proxy.Protocol.Encode.Wire.{wire, sent, started, encode-Emits, Emits}
use cwnd_warm_up_proxy.Protocol.Decode.{parse_payload, decode}
use cwnd_warm_up_proxy.Protocol.Decode.Wire.{HasHeader, announced, wire_checksum, decode-wire}
use cwnd_warm_up_proxy.Protocol.Decode.Payload.{
  IsAck, length_heartbeat_le, parse_ack-ack_bytes, parse_heartbeat-heartbeat_bytes, length_ack_le,
}

-- The fields that a frame's type asks for, and no raw payload beside them.
pub data Body (json : JsonCodec) (f : Frame) : Type 0 where
  data_body : f.frame_type ≡ frame_data → length f.payload ≤ max_payload_size → Body json f
  ack_body :
      (a : AckPayload)
      → f.frame_type ≡ frame_ack
      → f.payload ≡ []
      → f.ack ≡ some a
      → IsAck a
      → Body json f
  control_body :
      (c : ControlPayload) (p : List ℕ)
      → f.frame_type ≡ frame_control
      → f.payload ≡ []
      → f.control ≡ some c
      → json.marshal c ≡ some p
      → length p ≤ max_payload_size
      → Body json f
  heartbeat_body :
      (b : HeartbeatPayload)
      → f.frame_type ≡ frame_heartbeat
      → f.payload ≡ []
      → f.heartbeat ≡ some b
      → IsInt64 b.unix_nanos
      → Body json f

abbrev first_ranges : AckPayload → AckPayload
first_ranges a = record a { ranges = take max_sack_ranges a.ranges }

-- What the wire carries of a frame's fields: those of its type, and of an ACK four ranges.
abbrev pub received : Frame → Frame
received f = record f {
  payload = if f.frame_type == frame_data then f.payload else [];
  checksum = if has_flag f.flags flag_checksum_present then f.checksum else 0;
  is_duplicate = false;
  ack = if f.frame_type == frame_ack then Option.map first_ranges f.ack else none;
  control = if f.frame_type == frame_control then f.control else none;
  heartbeat = if f.frame_type == frame_heartbeat then f.heartbeat else none;
}

-- json.Unmarshal undoes json.Marshal on the control payload of the frame.
abbrev pub IsLossless : JsonCodec → Frame → Type 0
IsLossless json f =
    (c : ControlPayload) (p : List ℕ)
    → f.control ≡ some c
    → json.marshal c ≡ some p
    → json.unmarshal p ≡ some c

abbrev with_rest : ℕ → List ℕ → Frame → Result Error (Frame × List ℕ)
with_rest n rest d = ok (record d { wire_length = n }, rest)

pub record Carries (json : JsonCodec) (f : Frame) (p : List ℕ) : Type 0 where
  pub made : payload_bytes json f ≡ ok p
  pub small : length p ≤ max_payload_size
  pub parsed :
      (c n : ℕ) (rest : List ℕ)
      → (parse_payload json (record (announced f) { checksum = c }) p >>= with_rest n rest)
        ≡ ok (record (received f) { checksum = c; wire_length = n }, rest)

pub Body-Carries :
    (json : JsonCodec) (f : Frame)
    → IsLossless json f
    → Body json f
    → (p : List ℕ) × Carries json f p
unfolding payload_bytes parse_payload
Body-Carries json f l (data_body t small) =
    (f.payload, record { made = ground arith; small = small; parsed = λ c n rest. ground arith })
Body-Carries json f l (ack_body a t e h ok_a) = (
  ack_bytes a,
  record {
    made = ground arith;
    small = length_ack_le a;
    parsed = λ c n rest. ground (arith, parse_ack-ack_bytes a ok_a);
  },
)
Body-Carries json f l (control_body c p t e h m small) = (
  p,
  record { made = ground arith; small = small; parsed = λ k n rest. ground (arith, l c p h m) },
)
Body-Carries json f l (heartbeat_body b t e h fits) = (
  heartbeat_bytes b,
  record {
    made = ground arith;
    small = length_heartbeat_le b;
    parsed = λ c n rest. ground (arith, parse_heartbeat-heartbeat_bytes b fits);
  },
)

pub received-sent :
    (f : Frame) (p : List ℕ)
    → received (sent f p)
      ≡ record (received f) { checksum = wire_checksum f p; wire_length = length (wire f p) }
received-sent f p = elim (Bool-cases (has_flag f.flags flag_checksum_present)) [
  | inl e ↦ rw e (rw e refl)
  | inr e ↦ rw e (rw e refl)
]

written_all :
    (json : JsonCodec) (f : Frame) (room : ℕ) (p : List ℕ)
    → let w : Writer = record { accepted = []; room = room } in
      Emits
        (started f w)
        (wire (default_version f) p)
        (sent (default_version f) p)
        (encode json f w)
      → (encode json f w).1 ≡ none
      → (encode json f w).0.cw.w.accepted ≡ wire (default_version f) p
written_all json f room p em done =
    em.accepted ∙ take_all room (wire (default_version f) p) (ground (arith, em.error, done))

-- The frame that `Encode` leaves is what `Decode` returns from the bytes that `Encode` wrote to a
-- writer which took them all, and the reader then stands before what follows. The frame's header
-- fields fit, it carries the payload of its type, and JSON is lossless on its control payload.
pub decode-encode :
    (json : JsonCodec) (f : Frame) (room : ℕ) (rest : List ℕ)
    → HasHeader (default_version f)
    → Body json (default_version f)
    → IsLossless json (default_version f)
    → let r = encode json f (record { accepted = []; room = room }) in
      r.1 ≡ none → decode json (r.0.cw.w.accepted ++ rest) ≡ ok (received r.0.frame, rest)
decode-encode json f room rest h b l done =
    let (p, c) = Body-Carries json (default_version f) l b in
    let w : Writer = record { accepted = []; room = room } in
    let em = encode-Emits json f w p c.made c.small in
    rw
      (
        written_all json f room p em done,
        em.frame done,
        received-sent (default_version f) p,
        decode-wire json (default_version f) p rest h c.small,
        c.parsed (wire_checksum (default_version f) p) (length (wire (default_version f) p)) rest,
      )
      refl
