-- ===== src/Subflow/Transfer/Ends.antt =====
-- The loop that reads a subflow ends, with enough fuel, when the connection has come to its end.
use cwnd_warm_up_proxy.Prelude.{
  ℕ, zero, suc, ◌+◌, ◌*◌, ◌≤◌, ◌<◌, ◌≡◌, refl, ap, inl, inr, List, ◌++◌, Bool, not, ◌&&◌, some,
  length, length-append, arith, Bool-cases,
}
use cwnd_warm_up_proxy.Prelude.Results.{ok, Result-cases}
use cwnd_warm_up_proxy.Protocol.{Frame, JsonCodec, header_size, has_flag, flag_checksum_present}
use cwnd_warm_up_proxy.Protocol.Decode.{read_frame}
use cwnd_warm_up_proxy.Protocol.Decode.Safety.{decode-Decoded}
use cwnd_warm_up_proxy.Subflow.{Subflow, record_receive}
use cwnd_warm_up_proxy.Subflow.Transfer.{Ending, Running, unreadable, checksum_required, judge, run}

takes_header :
    (json : JsonCodec) (input : List ℕ) (frame : Frame) (rest : List ℕ)
    → read_frame json input ≡ ok (frame, rest)
    → header_size + length rest ≤ length input
unfolding read_frame
takes_header json input frame rest e =
    let d = decode-Decoded json input frame rest e in
    omega (
      arith,
      ap length d.split,
      length-append d.header (d.buf ++ (d.trailer ++ rest)),
      length-append d.buf (d.trailer ++ rest),
      length-append d.trailer rest,
      d.header_length,
    )

-- The loop has come to an end, and each frame that it handed over took a header at least.
record Ended (input : List ℕ) (r : Running) : Type 0 where
  ending : Ending
  is : r.ending ≡ some ending
  frames : header_size * length r.handed ≤ length input

module _ (json : JsonCodec) (checksums : Bool) (clock : ℕ → ℕ) where
  run-Ended :
      (n : ℕ) (input : List ℕ) (s : Subflow)
      → length input < n
      → Ended input (run json checksums clock n input s)
  unfolding run judge
  run-Ended zero input s l = absurd (omega (arith, l))
  run-Ended (suc n) input s l = elim (Result-cases (read_frame json input)) [
    | inl (x, q) ↦ rw (q, run) (record { ending = unreadable x; is = refl; frames = omega arith })
    | inr ((frame, rest), q) ↦
        elim (Bool-cases (checksums && not (has_flag frame.flags flag_checksum_present))) [
          | inl bare ↦
              rw (q, run)
                (rw (bare, run)
                  (record { ending = checksum_required; is = refl; frames = omega arith }))
          | inr fine ↦
              let took = takes_header json input frame rest q in
              let more =
                run-Ended n rest (record_receive s frame (clock (length input)))
                  (omega (arith, took, l)) in
              rw (q, run)
                (rw (fine, run)
                  (record {
                    ending = more.ending;
                    is = more.is;
                    frames = omega (arith, took, more.frames);
                  }))
        ]
  ]

-- The loop that reads a subflow, given more rounds than the connection has bytes, comes to its end, with an
-- error that the session takes as the loss of the subflow, after at most one frame for every 24 bytes:
-- whatever the peer has sent.
pub run_ends :
    (json : JsonCodec) (checksums : Bool) (clock : ℕ → ℕ) (n : ℕ) (input : List ℕ) (s : Subflow)
    → length input < n
    → let r = run json checksums clock n input s in
      (e : Ending) × (r.ending ≡ some e) × (header_size * length r.handed ≤ length input)
run_ends json checksums clock n input s l =
    let h = run-Ended json checksums clock n input s l in (h.ending, h.is, h.frames)
