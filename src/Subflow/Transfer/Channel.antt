-- ===== src/Subflow/Transfer/Channel.antt =====
-- internal/overlay/subflow.go: what one end of a connection sends, the other end hands to its session.
use cwnd_warm_up_proxy.Prelude.{
  ℕ, zero, suc, ◌≤◌, ◌<◌, ◌≡◌, refl, sym, ap, ap₂, subst, ◌∙◌, inl, inr, List, [], ◌∷◌, ◌++◌, Bool,
  true, false, not, ◌&&◌, Option, none, some, map, append_assoc, append-nil, length, take_all, All,
  arith, Bool-cases, ◌==◌,
}
use Prim.Native.Nat.{bit_or}
use cwnd_warm_up_proxy.Prelude.Results.{ok}
use cwnd_warm_up_proxy.Protocol.{Frame, JsonCodec, Error, eof, has_flag, flag_checksum_present}
use cwnd_warm_up_proxy.Protocol.Io.{Writer, read_full}
use cwnd_warm_up_proxy.Protocol.Encode.{Encoder, default_version, encode}
use cwnd_warm_up_proxy.Protocol.Encode.Wire.{wire, sent, started, Emits, encode-Emits}
use cwnd_warm_up_proxy.Protocol.Decode.{read_frame, decode}
use cwnd_warm_up_proxy.Protocol.Decode.Wire.{HasHeader, wire_checksum, decode-wire}
use cwnd_warm_up_proxy.Protocol.RoundTrip.{
  Body, received, IsLossless, Carries, Body-Carries, received-sent,
}
use cwnd_warm_up_proxy.Subflow.{Subflow, record_send, record_receive}
use cwnd_warm_up_proxy.Subflow.Transfer.{
  Sending, flagged, finish_send, send, send_first, send_all, unreadable, Running, judge, run,
}

-- A test that holds of every number below a bound.
holds_below : ℕ → (ℕ → Bool) → Bool
holds_below zero test = true
holds_below (suc n) test = test n && holds_below n test

holds_below_at : (n k : ℕ) (test : ℕ → Bool) → k < n → holds_below n test ≡ true → test k ≡ true
unfolding holds_below
holds_below_at zero k test l h = absurd (omega (arith, l))
holds_below_at (suc n) k test l h = ground (arith, holds_below_at n k test)

every_byte :
    holds_below 256 (λ flags. has_flag (bit_or flags flag_checksum_present) flag_checksum_present)
    ≡ true
unfolding holds_below
every_byte = refl

-- What `send` asks of a frame, whose flags are a byte.
pub record IsSendable (json : JsonCodec) (checksums : Bool) (f : Frame) : Type 0 where
  pub header : HasHeader (default_version (flagged checksums f))
  pub body : Body json (default_version (flagged checksums f))
  pub lossless : IsLossless json (default_version (flagged checksums f))
  pub flags : f.flags < 256

has_flag-flagged :
    (f : Frame) (checksums : Bool)
    → f.flags < 256
    → (checksums && not (has_flag (flagged checksums f).flags flag_checksum_present)) ≡ false
has_flag-flagged f true l = ap not (
    holds_below_at 256 f.flags
      (λ flags. has_flag (bit_or flags flag_checksum_present) flag_checksum_present) l every_byte)
has_flag-flagged f false l = refl

module _ (json : JsonCodec) (checksums : Bool) where
  -- A frame that was sent: its bytes, and what the other end reads off them.
  record Delivered (f : Frame) (w : Writer) (r : Sending) : Type 0 where
    bytes : List ℕ
    written : r.writer.accepted ≡ w.accepted ++ bytes
    read : (rest : List ℕ) → read_frame json (bytes ++ rest) ≡ ok (received r.frame, rest)
    flags : r.frame.flags ≡ (flagged checksums f).flags

  decode_back :
      (f : Frame) (p : List ℕ)
      → HasHeader f
      → Carries json f p
      → (rest : List ℕ) → read_frame json (wire f p ++ rest) ≡ ok (received (sent f p), rest)
  unfolding read_frame
  decode_back f p h c rest =
      decode-wire json f p rest h c.small
      ∙ c.parsed (wire_checksum f p) (length (wire f p)) rest
      ∙ ap (λ (g : Frame). ok (g, rest)) (sym (received-sent f p))

  flags-default_version : (f : Frame) → (default_version f).flags ≡ f.flags
  flags-default_version f = elim (Bool-cases (f.version == 0)) [
    | inl e ↦ rw e refl
    | inr e ↦ rw e refl
  ]

  flags-sent : (f : Frame) (p : List ℕ) → (sent f p).flags ≡ f.flags
  flags-sent f p = elim (Bool-cases (has_flag f.flags flag_checksum_present)) [
    | inl e ↦ rw e refl
    | inr e ↦ rw e refl
  ]

  finish-Delivered :
      (now : ℕ) (f : Frame) (w : Writer) (s : Subflow) (p : List ℕ) (r : Encoder × Option Error)
      → IsSendable json checksums f
      → Carries json (default_version (flagged checksums f)) p
      → Emits
          (started (flagged checksums f) w)
          (wire (default_version (flagged checksums f)) p)
          (sent (default_version (flagged checksums f)) p)
          r
      → (finish_send s now r).error ≡ none
      → Delivered f w (finish_send s now r)
  unfolding finish_send record_send
  finish-Delivered now f w s p (e, some x) h c em done = absurd (ground (arith, done))
  finish-Delivered now f w s p (e, none) h c em done =
      let g = default_version (flagged checksums f) in
      let all : length (wire g p) ≤ w.room = ground (arith, em.error) in
      let count : e.cw.written ≡ length (wire g p) = omega (arith, em.written refl) in
      let whole : record e.frame { wire_length = e.cw.written } ≡ sent g p =
        ap₂ (λ (x : Frame) (n : ℕ). record x { wire_length = n }) (em.frame refl) count in
      record {
        bytes = wire g p;
        written = em.accepted ∙ ap (λ bytes. w.accepted ++ bytes) (take_all w.room (wire g p) all);
        read = λ rest.
            decode_back g p h.header c rest ∙ ap (λ (x : Frame). ok (received x, rest)) (sym whole);
        flags =
            ap (λ (x : Frame). x.flags) whole
            ∙ flags-sent g p
            ∙ flags-default_version (flagged checksums f);
      }

  send-Delivered :
      (now : ℕ) (f : Frame) (w : Writer) (s : Subflow)
      → IsSendable json checksums f
      → (send json checksums now f w s).error ≡ none
      → Delivered f w (send json checksums now f w s)
  unfolding send
  send-Delivered now f w s h done =
      let g = default_version (flagged checksums f) in
      let (p, c) = Body-Carries json g h.lossless h.body in
      finish-Delivered now f w s p (encode json (flagged checksums f) w) h c
        (encode-Emits json (flagged checksums f) w p c.made c.small) done

  -- Frames that were sent: their bytes, and what the loop at the other end makes of them.
  record Carried (frames : List Frame) (w : Writer) (r : List Frame × Writer × Option Error)
      : Type 0 where
    bytes : List ℕ
    written : r.1.accepted ≡ w.accepted ++ bytes
    runs :
        (clock : ℕ → ℕ) (n : ℕ) (s : Subflow)
        → length frames < n
        → ((run json checksums clock n bytes s).handed ≡ map received r.0)
          × ((run json checksums clock n bytes s).ending ≡ some (unreadable eof))

  run_nothing :
      (clock : ℕ → ℕ) (n : ℕ) (s : Subflow)
      → 0 < n
      → ((run json checksums clock n [] s).handed ≡ [])
        × ((run json checksums clock n [] s).ending ≡ some (unreadable eof))
  unfolding run judge read_frame decode read_full
  run_nothing clock zero s l = absurd (omega (arith, l))
  run_nothing clock (suc n) s l = (refl, refl)

  run_one :
      (clock : ℕ → ℕ) (n : ℕ) (s : Subflow) (f : Frame) (w : Writer) (r : Sending) (rest : List ℕ)
      → f.flags < 256
      → (d : Delivered f w r)
      → (t : Subflow) × (run json checksums clock (suc n) (d.bytes ++ rest) s ≡ (
          let more = run json checksums clock n rest t in
          record more { handed = received r.frame ∷ more.handed }))
  unfolding run judge
  run_one clock n s f w r rest l d = (
    record_receive s (received r.frame) (clock (length (d.bytes ++ rest))),
    rw (d.read rest, run) (rw (d.flags, has_flag-flagged f checksums l, run) refl),
  )

  first_runs :
      (f : Frame) (frames : List Frame) (w : Writer) (one : Sending)
      (more : List Frame × Writer × Option Error)
      → f.flags < 256
      → (d : Delivered f w one) → (c : Carried frames one.writer more)
      → (clock : ℕ → ℕ) (n : ℕ) (s : Subflow) → length (f ∷ frames) < n
      → ((run json checksums clock n (d.bytes ++ c.bytes) s).handed
          ≡ map received (one.frame ∷ more.0))
        × ((run json checksums clock n (d.bytes ++ c.bytes) s).ending ≡ some (unreadable eof))
  first_runs f frames w one more l d c clock zero s fuel = absurd (omega (arith, fuel))
  first_runs f frames w one more l d c clock (suc n) s fuel =
      let (t, e) = run_one clock n s f w one c.bytes l d in
      let (handed, ending) = c.runs clock n t (omega (arith, fuel)) in
      (
        ap (λ (r : Running). r.handed) e ∙ ap (λ l. received one.frame ∷ l) handed,
        ap (λ (r : Running). r.ending) e ∙ ending,
      )

  first-Carried :
      (f : Frame) (frames : List Frame) (w : Writer) (one : Sending)
      (more : List Frame × Writer × Option Error)
      → f.flags < 256
      → Delivered f w one
      → Carried frames one.writer more
      → Carried (f ∷ frames) w (send_first none one.frame one.writer more)
  unfolding send_first
  first-Carried f frames w one more l d c = record {
    bytes = d.bytes ++ c.bytes;
    written =
        c.written
        ∙ ap (λ bytes. bytes ++ c.bytes) d.written
        ∙ append_assoc w.accepted d.bytes c.bytes;
    runs = first_runs f frames w one more l d c;
  }

  sent_all :
      (e : Option Error) (f : Frame) (w : Writer) (more : List Frame × Writer × Option Error)
      → (send_first e f w more).2 ≡ none
      → (e ≡ none) × (more.2 ≡ none)
  unfolding send_first
  sent_all none f w more h = (refl, h)
  sent_all (some x) f w more h = absurd (ground (arith, h))

  send_all-Carried :
      (now : ℕ) (frames : List Frame) (w : Writer) (s : Subflow)
      → All (IsSendable json checksums) frames
      → (send_all json checksums now frames w s).2 ≡ none
      → Carried frames w (send_all json checksums now frames w s)
  unfolding send_all
  send_all-Carried now [] w s h done = record {
    bytes = [];
    written = sym (append-nil w.accepted);
    runs = λ clock n s l. run_nothing clock n s l;
  }
  send_all-Carried now (f ∷ frames) w s h done =
      let one = send json checksums now f w s in
      let more = send_all json checksums now frames one.writer one.subflow in
      let (e, rest) = sent_all one.error one.frame one.writer more done in
      subst (λ x. Carried (f ∷ frames) w (send_first x one.frame one.writer more)) (sym e)
        (first-Carried f frames w one more h.0.flags (send-Delivered now f w s h.0 e)
          (send_all-Carried now frames one.writer one.subflow h.1 rest))

-- Frames that one end has all sent, on a connection that took their bytes, are what the loop at the other
-- end hands to its session, in their order and each as the sender left it but for what stays off the wire;
-- then the connection is at its end and the loop stops. Both ends have checksums or neither, each frame
-- has the payload of its type and header fields that fit, JSON is lossless on it, and there are more
-- rounds than frames.
pub run-send_all :
    (json : JsonCodec) (checksums : Bool) (now room : ℕ) (frames : List Frame) (s t : Subflow)
    (clock : ℕ → ℕ) (n : ℕ)
    → All (IsSendable json checksums) frames
    → let out = send_all json checksums now frames (record { accepted = []; room = room }) s in
      let back = run json checksums clock n out.1.accepted t in
      out.2 ≡ none
      → length frames < n
      → (back.handed ≡ map received out.0) × (back.ending ≡ some (unreadable eof))
run-send_all json checksums now room frames s t clock n h done fuel =
    let c =
      send_all-Carried json checksums now frames (record { accepted = []; room = room }) s h done in
    rw c.written (c.runs clock n t fuel)
