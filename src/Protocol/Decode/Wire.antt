-- ===== src/Protocol/Decode/Wire.antt =====
-- What `Decode` reads off the bytes that `Encode` puts on the wire.
use cwnd_warm_up_proxy.Prelude.{
  ℕ, ◌+◌, ◌%◌, ◌^◌, ◌≤◌, ◌≡◌, refl, ◌∙◌, inl, inr, List, [], ◌∷◌, ◌++◌, none, false, not,
  append_assoc, arith, length, ltb, ◌==◌, if◌then◌else◌, length-append, take-append, drop-append,
  Bool-cases, lt→ltb, le→ltb_false, ==_refl,
}
use cwnd_warm_up_proxy.Prelude.Bytes.{put_be, get_be, get_be-put_be, IsU32, IsU64}
use cwnd_warm_up_proxy.Prelude.Results.{ok, ◌>>=◌}
use cwnd_warm_up_proxy.Protocol.{
  Frame, JsonCodec, Error, max_payload_size, header_size, has_flag, flag_checksum_present,
}
use cwnd_warm_up_proxy.Protocol
use cwnd_warm_up_proxy.Protocol.Io.{read_full}
use cwnd_warm_up_proxy.Protocol.Encode.{header_bytes, trailer_sum, trailer_sum-lt}
use cwnd_warm_up_proxy.Protocol.Encode.Wire.{wire, trailer_bytes}
use cwnd_warm_up_proxy.Protocol.Decode.{slice, header_frame, read_trailer, parse_payload, decode}

-- The header's fields fit their widths, and the version is the supported one.
pub record HasHeader (f : Frame) : Type 0 where
  pub supported : f.version ≡ Protocol.version
  pub session_id : IsU32 f.session_id
  pub stream_id : IsU32 f.stream_id
  pub seq : IsU64 f.seq

-- The fields of a frame that its header carries.
abbrev pub announced : Frame → Frame
announced f = record f {
  payload = [];
  checksum = 0;
  is_duplicate = false;
  wire_length = 0;
  ack = none;
  control = none;
  heartbeat = none;
}

abbrev pub wire_checksum : Frame → List ℕ → ℕ
wire_checksum f p =
    if has_flag f.flags flag_checksum_present
    then trailer_sum (header_bytes f (length p % 2 ^ 32)) p
    else 0

pub read_full-append :
    (n : ℕ) (xs ys : List ℕ) → length xs ≡ n → read_full n (xs ++ ys) ≡ ok (xs, ys)
unfolding read_full
read_full-append n xs ys h =
    ground (arith, length-append xs ys, take-append xs ys n h, drop-append xs ys n h)

length-header_bytes : (f : Frame) (len : ℕ) → length (header_bytes f len) ≡ 24
unfolding header_bytes
length-header_bytes f len = refl

header_frame-header_bytes :
    (f : Frame) (len : ℕ) → HasHeader f → header_frame (header_bytes f len) ≡ announced f
unfolding header_frame header_bytes
header_frame-header_bytes f len h = λ i. record {
  version = f.version;
  frame_type = f.frame_type;
  flags = f.flags;
  session_id = get_be-put_be 4 f.session_id h.session_id i;
  stream_id = get_be-put_be 4 f.stream_id h.stream_id i;
  seq = get_be-put_be 8 f.seq h.seq i;
  payload = [];
  checksum = 0;
  is_duplicate = false;
  wire_length = 0;
  ack = none;
  control = none;
  heartbeat = none;
}

length_field : (f : Frame) (len : ℕ) → IsU32 len → get_be (slice 20 24 (header_bytes f len)) ≡ len
unfolding header_bytes
length_field f len h = get_be-put_be 4 len h

read_trailer-trailer_bytes :
    (f : Frame) (header p rest : List ℕ)
    → read_trailer f header p (trailer_bytes f header p ++ rest)
      ≡ ok (
        if has_flag f.flags flag_checksum_present then trailer_sum header p else 0,
        length (trailer_bytes f header p),
        rest,
      )
unfolding read_trailer
read_trailer-trailer_bytes f header p rest =
    elim (Bool-cases (has_flag f.flags flag_checksum_present)) [
      | inl e ↦ rw e (
          rw (read_full-append 4 (put_be 4 (trailer_sum header p)) rest refl)
            (rw sum_back (rw (==_refl (trailer_sum header p)))))
      | inr e ↦ rw e refl
    ]
  where
    sum_back : get_be (put_be 4 (trailer_sum header p)) ≡ trailer_sum header p
    sum_back = get_be-put_be 4 (trailer_sum header p) (trailer_sum-lt header p)

length-wire :
    (f : Frame) (p : List ℕ)
    → length (wire f p)
      ≡ header_size + length p + length (trailer_bytes f (header_bytes f (length p % 2 ^ 32)) p)
length-wire f p = ground (
  arith,
  length-append (header_bytes f (length p % 2 ^ 32) ++ p)
      (trailer_bytes f (header_bytes f (length p % 2 ^ 32)) p),
  length-append (header_bytes f (length p % 2 ^ 32)) p,
  length-header_bytes f (length p % 2 ^ 32),
)

read_payload :
    (p ys : List ℕ)
    → (if ltb 0 (length p) then read_full (length p) (p ++ ys) else ok ([], p ++ ys)) ≡ ok (p, ys)
read_payload [] ys = refl
read_payload (b ∷ bs) ys =
    rw (lt→ltb 0 (length (b ∷ bs)) (omega arith))
      (read_full-append (length (b ∷ bs)) (b ∷ bs) ys refl)

module _ (json : JsonCodec) where
  -- `Decode` takes the wire bytes of one frame off the reader and parses its payload.
  pub decode-wire :
      (f : Frame) (p rest : List ℕ)
      → HasHeader f
      → length p ≤ max_payload_size
      → decode json (wire f p ++ rest) ≡ (
          parse_payload json (record (announced f) { checksum = wire_checksum f p }) p >>= λ d.
          ok (record d { wire_length = length (wire f p) }, rest))
  unfolding decode
  decode-wire f p rest h small =
      rw
        (
          split,
          read_header,
          header_frame-header_bytes f (length p % 2 ^ 32) h,
          version_ok,
          len,
          le→ltb_false max_payload_size (length p) small,
          read_payload p (trailer ++ rest),
          read_trailer-trailer_bytes (announced f) header p rest,
          length-wire f p,
        )
        refl
    where
      header : List ℕ
      header = header_bytes f (length p % 2 ^ 32)

      trailer : List ℕ
      trailer = trailer_bytes f header p

      split : wire f p ++ rest ≡ header ++ (p ++ (trailer ++ rest))
      split = append_assoc (header ++ p) trailer rest ∙ append_assoc header p (trailer ++ rest)

      read_header :
          read_full 24 (header ++ (p ++ (trailer ++ rest))) ≡ ok (header, p ++ (trailer ++ rest))
      read_header = read_full-append 24 header _ (length-header_bytes f (length p % 2 ^ 32))

      version_ok : not (f.version == Protocol.version) ≡ false
      version_ok = ground (arith, h.supported)

      len : get_be (slice 20 24 header) ≡ length p
      len = length_field f (length p % 2 ^ 32) (omega arith) ∙ omega arith
