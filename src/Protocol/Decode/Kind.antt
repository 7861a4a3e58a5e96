-- ===== src/Protocol/Decode/Kind.antt =====
-- What `Decode` guarantees of the fields of a frame from any peer.
use cwnd_warm_up_proxy.Prelude.{
  ℕ, ◌+◌, ◌≤◌, ◌≡◌, refl, sym, ap, subst, ◌∙◌, inl, inr, List, [], none, some, arith, length, drop,
  ◌==◌, min, All, Bool-cases, Option-cases, get_or,
}
use cwnd_warm_up_proxy.Prelude.Results.{ok, Result-cases}
use cwnd_warm_up_proxy.Protocol.{
  Frame, JsonCodec, Error, SackRange, AckPayload, max_sack_ranges, max_payload_size, header_size,
  frame_data, frame_ack, frame_control, frame_heartbeat, ControlPayload, HeartbeatPayload,
  checksum_mismatch, sack_range, has_flag, flag_checksum_present,
}
use cwnd_warm_up_proxy.Protocol
use cwnd_warm_up_proxy.Protocol.Decode.Safety.{decode-Decoded, IsOrdered, parse_ranges-IsOrdered}
use cwnd_warm_up_proxy.Protocol.Decode.{
  parse_ranges, parse_ack, parse_payload, parse_heartbeat, decode, header_frame,
}

parse_ack-bounded :
    (buf : List ℕ) (a : AckPayload)
    → parse_ack buf ≡ ok a
    → All IsOrdered a.ranges × (length a.ranges ≤ max_sack_ranges)
unfolding parse_ack
parse_ack-bounded buf a h =
    let n = min (get_or buf 12 0) max_sack_ranges in
    elim (Result-cases (parse_ranges n 0 (drop 16 buf))) [
      | inl (e, q) ↦ absurd (ground (arith, q, h))
      | inr (rs, q) ↦ ground (arith, q, h, parse_ranges-IsOrdered n 0 (drop 16 buf) rs q)
    ]

-- The fields that a decoded frame of each type has, and those that it does not have.
pub data Kind (g : Frame) : Type 0 where
  data_kind :
      g.frame_type ≡ frame_data → g.ack ≡ none → g.control ≡ none → g.heartbeat ≡ none → Kind g
  ack_kind :
      (a : AckPayload)
      → g.frame_type ≡ frame_ack
      → g.payload ≡ []
      → g.ack ≡ some a
      → g.control ≡ none
      → g.heartbeat ≡ none
      → All IsOrdered a.ranges
      → length a.ranges ≤ max_sack_ranges
      → Kind g
  control_kind :
      (c : ControlPayload)
      → g.frame_type ≡ frame_control
      → g.payload ≡ []
      → g.ack ≡ none
      → g.control ≡ some c
      → g.heartbeat ≡ none
      → Kind g
  heartbeat_kind :
      (b : HeartbeatPayload)
      → g.frame_type ≡ frame_heartbeat
      → g.payload ≡ []
      → g.ack ≡ none
      → g.control ≡ none
      → g.heartbeat ≡ some b
      → Kind g

-- A frame of which only the header and the checksum are known.
record IsBare (f : Frame) : Type 0 where
  no_payload : f.payload ≡ []
  no_ack : f.ack ≡ none
  no_control : f.control ≡ none
  no_heartbeat : f.heartbeat ≡ none

parse_payload-Kind :
    (json : JsonCodec) (f : Frame) (buf : List ℕ) (g : Frame)
    → IsBare f
    → parse_payload json f buf ≡ ok g
    → (n : ℕ) → Kind (record g { wire_length = n }) × (g.version ≡ f.version)
unfolding parse_payload
parse_payload-Kind json f buf g bare h n = elim (Bool-cases (f.frame_type == frame_data)) [
  | inl t ↦ (data_kind (ground arith) (ground arith) (ground arith) (ground arith), ground arith)
  | inr t ↦ elim (Bool-cases (f.frame_type == frame_ack)) [
    | inl t₁ ↦ elim (Result-cases (parse_ack buf)) [
      | inl (e, q) ↦ absurd (ground (arith, q, h))
      | inr (a, q) ↦
          let known = parse_ack-bounded buf a q in
          (
            ack_kind a (ground (arith, t₁)) (ground (arith, q, h)) (ground (arith, q, h))
                (ground (arith, q, h)) (ground (arith, q, h)) known.0 known.1,
            ground (arith, q, h),
          )
    ]
    | inr t₁ ↦ elim (Bool-cases (f.frame_type == frame_control)) [
      | inl t₂ ↦ elim (Option-cases (json.unmarshal buf)) [
        | inl q ↦ absurd (ground (arith, q, h))
        | inr (c, q) ↦ (
          control_kind c (ground (arith, q, h)) (ground (arith, q, h)) (ground (arith, q, h))
              (ground (arith, q, h)) (ground (arith, q, h)),
          ground (arith, q, h),
        )
      ]
      | inr t₂ ↦ elim (Bool-cases (f.frame_type == frame_heartbeat)) [
        | inl t₃ ↦ elim (Result-cases (parse_heartbeat buf)) [
          | inl (e, q) ↦ absurd (ground (arith, q, h))
          | inr (b, q) ↦ (
            heartbeat_kind b (ground (arith, q, h)) (ground (arith, q, h)) (ground (arith, q, h))
                (ground (arith, q, h)) (ground (arith, q, h)),
            ground (arith, q, h),
          )
        ]
        | inr t₃ ↦ absurd (ground arith)
      ]
    ]
  ]
]

header_frame-IsBare :
    (header : List ℕ) (sum : ℕ) → IsBare (record (header_frame header) { checksum = sum })
unfolding header_frame
header_frame-IsBare header sum = record {
  no_payload = refl;
  no_ack = refl;
  no_control = refl;
  no_heartbeat = refl;
}

-- Whatever the peer sends, a frame that `Decode` returns has version 1 and one of the four types,
-- with the payload field of its type and no other; the ranges of an ACK are at most four, and none
-- ends before it starts.
pub decode-Kind :
    (json : JsonCodec) (r : List ℕ) (g : Frame) (rest : List ℕ)
    → decode json r ≡ ok (g, rest)
    → Kind g × (g.version ≡ Protocol.version)
decode-Kind json r g rest h =
    let d = decode-Decoded json r g rest h in
    let n = header_size + length d.buf + length d.trailer in
    let (kind, version) =
      parse_payload-Kind json (record (header_frame d.header) { checksum = d.sum }) d.buf d.body
        (header_frame-IsBare d.header d.sum) d.parsed n in
    (subst Kind (sym d.result) kind, ap (λ (f : Frame). f.version) d.result ∙ version ∙ d.supported)
