-- ===== src/Protocol/Decode/Safety.antt =====
-- What `Decode` guarantees of a frame from any peer, and of the bytes that it takes.
use cwnd_warm_up_proxy.Prelude.{
  ℕ, zero, suc, ◌+◌, ◌≤◌, ◌≡◌, sym, ap, ◌∙◌, inl, inr, List, [], ◌++◌, arith, length, drop, ltb,
  if◌then◌else◌, length-append, append_assoc, All, Bool-cases, length-take, take-append-drop,
}
use cwnd_warm_up_proxy.Prelude.Results.{Result, ok, Result-cases}
use cwnd_warm_up_proxy.Protocol.{
  Frame, JsonCodec, Error, SackRange, AckPayload, max_sack_ranges, max_payload_size, header_size,
  frame_data, frame_ack, frame_control, frame_heartbeat, ControlPayload, HeartbeatPayload,
  checksum_mismatch, sack_range, has_flag, flag_checksum_present,
}
use cwnd_warm_up_proxy.Protocol
use cwnd_warm_up_proxy.Protocol.Io.{read_full}
use cwnd_warm_up_proxy.Prelude.Bytes.{get_be}
use cwnd_warm_up_proxy.Protocol.Decode.{
  slice, parse_ranges, parse_payload, read_trailer, decode, header_frame,
}

-- A successful read splits the reader.
pub read_full-eq-ok :
    (n : ℕ) (r xs ys : List ℕ) → read_full n r ≡ ok (xs, ys) → (r ≡ xs ++ ys) × (length xs ≡ n)
unfolding read_full
read_full-eq-ok n r xs ys h = ground (arith, take-append-drop n r, length-take n r)

read_trailer-eq-ok :
    (f : Frame) (header buf r : List ℕ) (sum n : ℕ) (rest : List ℕ)
    → read_trailer f header buf r ≡ ok (sum, n, rest)
    → (xs : List ℕ) × (r ≡ xs ++ rest) × (length xs ≡ n) × (n ≤ 4)
unfolding read_trailer
read_trailer-eq-ok f header buf r sum n rest h =
    elim (Bool-cases (has_flag f.flags flag_checksum_present)) [
      | inl e ↦ elim (Result-cases (read_full 4 r)) [
        | inl (x, q) ↦ absurd (ground (arith, e, q, h))
        | inr ((xs, ys), q) ↦
            let split = read_full-eq-ok 4 r xs ys q in
            (
              xs,
              ground (arith, e, q, h, split),
              ground (arith, e, q, h, split),
              ground (arith, e, q, h),
            )
      ]
      | inr e ↦ ([], ground arith, ground arith, ground arith)
    ]

abbrev pub IsOrdered : SackRange → Type 0
IsOrdered r = r.start ≤ r.end

pub parse_ranges-IsOrdered :
    (n i : ℕ) (buf : List ℕ) (rs : List SackRange)
    → parse_ranges n i buf ≡ ok rs
    → All IsOrdered rs × (length rs ≡ n)
unfolding parse_ranges
parse_ranges-IsOrdered zero i buf rs h = ground arith
parse_ranges-IsOrdered (suc n) i buf rs h =
    elim (Result-cases (parse_ranges n (i + 1) (drop 16 buf))) [
      | inl (e, q) ↦ absurd (ground (arith, q, h))
      | inr (tail, q) ↦ ground (arith, q, h, parse_ranges-IsOrdered n (i + 1) (drop 16 buf) tail q)
    ]

-- The parts that `Decode` found in the reader when it returned the frame `g`.
pub record Decoded (json : JsonCodec) (r : List ℕ) (g : Frame) (rest : List ℕ) : Type 0 where
  pub header : List ℕ
  pub buf : List ℕ
  pub trailer : List ℕ
  pub sum : ℕ
  pub body : Frame
  pub split : r ≡ header ++ (buf ++ (trailer ++ rest))
  pub header_length : length header ≡ header_size
  pub supported : (header_frame header).version ≡ Protocol.version
  pub small : length buf ≤ max_payload_size
  pub trailer_small : length trailer ≤ 4
  pub parsed : parse_payload json (record (header_frame header) { checksum = sum }) buf ≡ ok body
  pub result : g ≡ record body { wire_length = header_size + length buf + length trailer }

read_buf : ℕ → List ℕ → Result Error (List ℕ × List ℕ)
read_buf len r = if ltb 0 len then read_full len r else ok ([], r)

read_buf-eq-ok :
    (n : ℕ) (r xs ys : List ℕ) → read_buf n r ≡ ok (xs, ys) → (r ≡ xs ++ ys) × (length xs ≡ n)
unfolding read_buf
read_buf-eq-ok n r xs ys h = ground (arith, read_full-eq-ok n r xs ys)

pub decode-Decoded :
    (json : JsonCodec) (r : List ℕ) (g : Frame) (rest : List ℕ)
    → decode json r ≡ ok (g, rest)
    → Decoded json r g rest
unfolding decode read_buf
decode-Decoded json r g rest h = elim (Result-cases (read_full header_size r)) [
  | inl (x, q) ↦ absurd (ground (arith, q, h))
  | inr ((header, r₁), q) ↦
      let len = get_be (slice 20 24 header) in
      elim (Result-cases (read_buf len r₁)) [
        | inl (x, q₁) ↦ absurd (ground (arith, q, q₁, h))
        | inr ((buf, r₂), q₁) ↦
            elim (Result-cases (read_trailer (header_frame header) header buf r₂)) [
              | inl (x, q₂) ↦ absurd (ground (arith, q, q₁, q₂, h))
              | inr ((sum, n, r₃), q₂) ↦
                  elim (Result-cases
                    (parse_payload json (record (header_frame header) { checksum = sum }) buf)) [
                      | inl (x, q₃) ↦ absurd (ground (arith, q, q₁, q₂, q₃, h))
                      | inr (body, q₃) ↦
                          let s = read_full-eq-ok header_size r header r₁ q in
                          let s₁ = read_buf-eq-ok len r₁ buf r₂ q₁ in
                          let (trailer, s₂, l₂, four) =
                            read_trailer-eq-ok (header_frame header) header buf r₂ sum n r₃ q₂ in
                          record {
                            header = header;
                            buf = buf;
                            trailer = trailer;
                            sum = sum;
                            body = body;
                            split = ground (arith, s, s₁, s₂, q, q₁, q₂, q₃, h);
                            header_length = s.1;
                            supported = ground (arith, q, q₁, q₂, q₃, h);
                            small = ground (arith, s₁, q, q₁, q₂, q₃, h);
                            trailer_small = ground (arith, l₂, four);
                            parsed = q₃;
                            result = ground (arith, s₁, l₂, q, q₁, q₂, q₃, h);
                          }
                    ]
            ]
      ]
]

module _ (json : JsonCodec) (r : List ℕ) (g : Frame) (rest : List ℕ)
    (d : Decoded json r g rest) where
  measured : length (d.header ++ (d.buf ++ d.trailer)) ≡ g.wire_length
  measured = omega (
    arith,
    length-append d.header (d.buf ++ d.trailer),
    length-append d.buf d.trailer,
    d.header_length,
    ap (λ (f : Frame). f.wire_length) d.result,
  )

  bounded : g.wire_length ≤ header_size + max_payload_size + 4
  bounded = omega (arith, ap (λ (f : Frame). f.wire_length) d.result, d.small, d.trailer_small)

-- `Decode` takes from the reader exactly the bytes that it reports as the frame's length on the
-- wire, never more than a header, the largest payload and a checksum, and leaves the rest.
pub decode_takes :
    (json : JsonCodec) (r : List ℕ) (g : Frame) (rest : List ℕ)
    → decode json r ≡ ok (g, rest)
    → (front : List ℕ) × (r ≡ front ++ rest)
      × (length front ≡ g.wire_length)
      × (g.wire_length ≤ header_size + max_payload_size + 4)
decode_takes json r g rest h =
    let d = decode-Decoded json r g rest h in
    (
      d.header ++ (d.buf ++ d.trailer),
      d.split
          ∙ ap (λ l. d.header ++ l) (sym (append_assoc d.buf d.trailer rest))
          ∙ sym (append_assoc d.header (d.buf ++ d.trailer) rest),
      measured json r g rest d,
      bounded json r g rest d,
    )
