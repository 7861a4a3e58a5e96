-- ===== src/Protocol/Encode/Wire.antt =====
-- What `Encode` puts on the wire, for any writer, and what the header means to `Decode`.
use cwnd_warm_up_proxy.Prelude.{
  ℕ, ◌+◌, ◌-◌, ◌%◌, ◌^◌, ◌≤◌, ◌<◌, ◌≡◌, refl, sym, ap, ap₂, subst, ◌∙◌, inl, inr, List, [], ◌∷◌,
  ◌++◌, Option, none, some, append_assoc, append-nil, arith, length, take, ltb, if◌then◌else◌,
  length-append, take_append_split, take_nil, Bool-cases, lt→ltb, le→ltb_false,
}
use cwnd_warm_up_proxy.Prelude.Bytes.{put_be}
use cwnd_warm_up_proxy.Prelude.Results.{ok}
use cwnd_warm_up_proxy.Protocol.{
  Frame, JsonCodec, Error, short_write, max_payload_size, has_flag, flag_checksum_present,
}
use cwnd_warm_up_proxy.Protocol.Io.{Writer, counting_write}
use cwnd_warm_up_proxy.Protocol.Encode.{
  Encoder, ◌then_do◌, emit, header_bytes, trailer_sum, payload_bytes, write_payload, write_trailer,
  record_length, write_frame, default_version, encode,
}

-- The checksum behind the payload, if the flag asks for one.
abbrev pub trailer_bytes : Frame → List ℕ → List ℕ → List ℕ
trailer_bytes f header p =
    if has_flag f.flags flag_checksum_present then put_be 4 (trailer_sum header p) else []

-- All the bytes of a frame with payload `p`.
abbrev pub wire : Frame → List ℕ → List ℕ
wire f p =
    let header = header_bytes f (length p % 2 ^ 32) in (header ++ p) ++ trailer_bytes f header p

abbrev pub with_checksum : Frame → List ℕ → List ℕ → Frame
with_checksum f header p =
    if has_flag f.flags flag_checksum_present
    then record f { checksum = trailer_sum header p }
    else f

-- From `s` a piece of `Encode` writes `bytes` as far as the writer takes them, fails exactly if it
-- does not take them all, and otherwise leaves the frame `f`.
pub record Emits (s : Encoder) (bytes : List ℕ) (f : Frame) (r : Encoder × Option Error)
    : Type 0 where
  pub accepted : r.0.cw.w.accepted ≡ s.cw.w.accepted ++ take s.cw.w.room bytes
  pub error : r.1 ≡ (if ltb s.cw.w.room (length bytes) then some short_write else none)
  pub room : r.1 ≡ none → r.0.cw.w.room ≡ s.cw.w.room - length bytes
  pub written : r.1 ≡ none → r.0.cw.written ≡ s.cw.written + length bytes
  pub frame : r.1 ≡ none → r.0.frame ≡ f

emit-Emits : (p : List ℕ) (s : Encoder) (f : Frame) → Emits s p f (emit p (record s { frame = f }))
unfolding counting_write
emit-Emits p s f = record {
  accepted = refl;
  error = refl;
  room = λ _. refl;
  written = λ e. ground arith;
  frame = λ _. refl;
}

-- Nothing more is written after an error, and nothing fits behind bytes that filled the room.
then_do-Emits :
    (s : Encoder) (xs ys : List ℕ) (f g : Frame) (r : Encoder × Option Error)
    (k : Encoder → Encoder × Option Error)
    → Emits s xs f r
    → (r.1 ≡ none → Emits r.0 ys g (k r.0))
    → Emits s (xs ++ ys) g (r then_do k)
then_do-Emits s xs ys f g (t, none) k h next = record {
  accepted =
      (next refl).accepted
      ∙ rw (h.accepted, h.room refl)
          (append_assoc s.cw.w.accepted (take s.cw.w.room xs) (take (s.cw.w.room - length xs) ys)
            ∙ ap (λ l. s.cw.w.accepted ++ l) (sym (take_append_split s.cw.w.room xs ys)));
  error = ground (arith, (next refl).error, h.error, h.room refl, length-append xs ys);
  room = λ e. ground (arith, (next refl).room e, h.room refl, length-append xs ys);
  written = λ e. ground (arith, (next refl).written e, h.written refl, length-append xs ys);
  frame = (next refl).frame;
}
then_do-Emits s xs ys f g (t, some e) k h next = record {
  accepted = h.accepted ∙ ap (λ l. s.cw.w.accepted ++ l) (sym (full ∙ append-nil _));
  error = ground (arith, h.error, length-append xs ys);
  room = λ e. cc;
  written = λ e. cc;
  frame = λ e. cc;
}
  where
    short : s.cw.w.room < length xs
    short = ground (arith, h.error)

    full : take s.cw.w.room (xs ++ ys) ≡ take s.cw.w.room xs ++ []
    full =
        let none_left : s.cw.w.room - length xs ≡ 0 = omega (arith, short) in
        take_append_split s.cw.w.room xs ys ∙ rw none_left

skip-Emits : (s : Encoder) → Emits s [] s.frame (s, none)
skip-Emits s = record {
  accepted = rw (take_nil s.cw.w.room) (sym (append-nil s.cw.w.accepted));
  error = ground arith;
  room = λ _. omega arith;
  written = λ _. omega arith;
  frame = λ _. refl;
}

write_payload-Emits : (p : List ℕ) (s : Encoder) → Emits s p s.frame (write_payload p s)
unfolding write_payload
write_payload-Emits [] s = skip-Emits s
write_payload-Emits (b ∷ bs) s =
    rw (lt→ltb 0 (length (b ∷ bs)) (omega arith)) (emit-Emits (b ∷ bs) s s.frame)

write_trailer-Emits :
    (header p : List ℕ) (s : Encoder)
    → Emits s
        (trailer_bytes s.frame header p)
        (with_checksum s.frame header p)
        (write_trailer header p s)
unfolding write_trailer
write_trailer-Emits header p s = elim (Bool-cases (has_flag s.frame.flags flag_checksum_present)) [
  | inl e ↦ rw e (
      emit-Emits (put_be 4 (trailer_sum header p)) s
        (record s.frame { checksum = trailer_sum header p }))
  | inr e ↦ rw e (skip-Emits s)
]

record_length-Emits :
    (s : Encoder) (f : Frame) (n : ℕ)
    → s.frame ≡ f
    → s.cw.written ≡ n
    → Emits s [] (record f { wire_length = n }) (record_length s)
unfolding record_length
record_length-Emits s f n e h = record {
  accepted = rw (take_nil s.cw.w.room) (sym (append-nil s.cw.w.accepted));
  error = ground arith;
  room = λ _. omega arith;
  written = λ _. omega arith;
  frame = λ _. ap₂ (λ (g : Frame) (m : ℕ). record g { wire_length = m }) e h;
}

-- `Encode` once the payload is known.
write_frame-Emits :
    (p : List ℕ) (s : Encoder)
    → s.cw.written ≡ 0
    → Emits s
        (wire s.frame p)
        (record (with_checksum s.frame (header_bytes s.frame (length p % 2 ^ 32)) p) {
          wire_length = length (wire s.frame p);
        })
        (write_frame p s)
unfolding write_frame
write_frame-Emits p s start =
    subst
      (λ bytes.
        Emits s bytes (record checked { wire_length = length (wire s.frame p) }) (write_frame p s))
      (append-nil (wire s.frame p))
      (then_do-Emits s (wire s.frame p) [] checked _ _ record_length through_trailer λ e.
        record_length-Emits _ checked (length (wire s.frame p)) (through_trailer.frame e)
          (omega (arith, through_trailer.written e, start)))
  where
    header : List ℕ
    header = header_bytes s.frame (length p % 2 ^ 32)

    checked : Frame
    checked = with_checksum s.frame header p

    so_far : Encoder
    so_far = (emit header s then_do write_payload p).0

    through_payload : Emits s (header ++ p) s.frame (emit header s then_do write_payload p)
    through_payload =
        then_do-Emits s header p s.frame s.frame (emit header s) (write_payload p)
          (emit-Emits header s s.frame) (λ _. write_payload-Emits p _)

    through_trailer :
        Emits s
          (wire s.frame p)
          checked
          (emit header s then_do write_payload p then_do write_trailer header p)
    through_trailer =
        then_do-Emits s (header ++ p) (trailer_bytes s.frame header p) s.frame checked _
          (write_trailer header p) through_payload
          λ e.
            subst
              (λ h.
                Emits so_far (trailer_bytes h header p) (with_checksum h header p)
                  (write_trailer header p so_far))
              (through_payload.frame e) (write_trailer-Emits header p so_far)

-- What `Encode` leaves when the payload is `p`: the frame that it sent, were nothing to fail.
abbrev pub sent : Frame → List ℕ → Frame
sent f p = record (with_checksum f (header_bytes f (length p % 2 ^ 32)) p) {
  wire_length = length (wire f p);
}

abbrev pub started : Frame → Writer → Encoder
started f w = record { frame = default_version f; cw = record { w = w; written = 0 } }

-- Where the payload is known and not too large, `Encode` writes the wire bytes as far as the writer
-- takes them.
pub encode-Emits :
    (json : JsonCodec) (f : Frame) (w : Writer) (p : List ℕ)
    → payload_bytes json (default_version f) ≡ ok p
    → length p ≤ max_payload_size
    → Emits
        (started f w)
        (wire (default_version f) p)
        (sent (default_version f) p)
        (encode json f w)
unfolding encode
encode-Emits json f w p e h =
    rw e (rw (le→ltb_false max_payload_size (length p) h) (write_frame-Emits p (started f w) refl))
