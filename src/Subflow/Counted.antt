-- ===== src/Subflow/Counted.antt =====
-- Every byte on the wire is counted once.
use cwnd_warm_up_proxy.Prelude.{
  ℕ, ◌+◌, ◌≤◌, ◌≡◌, inl, inr, Bool, true, false, length, ltb, arith, Bool-cases,
}
use cwnd_warm_up_proxy.Protocol.{Frame}
use cwnd_warm_up_proxy.Metrics.{SlidingCounter, sum}
use cwnd_warm_up_proxy.Metrics.Recent.{IsReady, sum-add, add-IsReady}
use cwnd_warm_up_proxy.Subflow.{Subflow, is_data, header_length, count, count_payload, record_send}

-- What the counter shows at `now`.
abbrev pub shown : ℕ → SlidingCounter → ℕ
shown now c = (sum c now).1

count_lem :
    (c : SlidingCounter) (n now : ℕ)
    → IsReady now c
    → IsReady now (count c n now) × (shown now (count c n now) ≡ shown now c + n)
unfolding count
count_lem c n now h = elim (Bool-cases (ltb 0 n)) [
  | inl more ↦ rw more (add-IsReady c n now h, (sum-add c n now h.ring h.step h.fits h.past).1)
  | inr none_left ↦ rw none_left (h, ground (arith, none_left))
]

pub record AreReady (now : ℕ) (s : Subflow) : Type 0 where
  pub tx_real : IsReady now s.tx_real
  pub tx_dummy : IsReady now s.tx_dummy
  pub rx_real : IsReady now s.rx_real
  pub rx_dummy : IsReady now s.rx_dummy

-- What of a payload of `n` bytes is carried for the first time, and what is carried at all.
abbrev pub first_time : Bool → Bool → ℕ → ℕ
first_time false duplicate n = 0
first_time true true n = 0
first_time true false n = n

abbrev carried : Bool → ℕ → ℕ
carried false n = 0
carried true n = n

header_length-carried :
    (frame : Frame) (total : ℕ)
    → (is_data frame ≡ true → length frame.payload ≤ total)
    → header_length frame total + carried (is_data frame) (length frame.payload) ≡ total
unfolding header_length
header_length-carried frame total fits = elim (Bool-cases (is_data frame)) [
  | inl d ↦ let le = fits d in ground (arith, d, le)
  | inr d ↦ ground (arith, d)
]

count_payload_lem :
    (data_frame duplicate : Bool) (n now : ℕ) (s : Subflow)
    → AreReady now s
    → let t = count_payload data_frame duplicate n now s in
      (shown now t.tx_real ≡ shown now s.tx_real + first_time data_frame duplicate n)
      × (shown now t.tx_real + shown now t.tx_dummy
          ≡ shown now s.tx_real + shown now s.tx_dummy + carried data_frame n)
unfolding count_payload
count_payload_lem false duplicate n now s h = (omega arith, omega arith)
count_payload_lem true true n now s h =
    let c = (count_lem s.tx_dummy n now h.tx_dummy).1 in (omega arith, omega (arith, c))
count_payload_lem true false n now s h =
    let c = (count_lem s.tx_real n now h.tx_real).1 in (c, omega (arith, c))

-- Every byte that a subflow sends is counted once: the payload of DATA that is sent for the first time as
-- real, which is the goodput the scheduler reads, and the rest as dummy. The payload is a part of
-- the bytes sent, and the counters are ready at the time.
pub record_send_counts :
    (s : Subflow) (frame : Frame) (bytes now : ℕ)
    → AreReady now s
    → (is_data frame ≡ true → length frame.payload ≤ bytes)
    → let t = (record_send s frame bytes now).0 in
      (shown now t.tx_real
        ≡ shown now s.tx_real
          + first_time (is_data frame) frame.is_duplicate (length frame.payload))
      × (shown now t.tx_real + shown now t.tx_dummy
          ≡ shown now s.tx_real + shown now s.tx_dummy + bytes)
unfolding record_send
record_send_counts s frame bytes now ready fits =
    let head = count_lem s.tx_dummy (header_length frame bytes) now ready.tx_dummy in
    let headed = record s { tx_dummy = count s.tx_dummy (header_length frame bytes) now } in
    let ready' : AreReady now headed = record {
      tx_real = ready.tx_real;
      tx_dummy = head.0;
      rx_real = ready.rx_real;
      rx_dummy = ready.rx_dummy;
    } in
    let c =
      count_payload_lem (is_data frame) frame.is_duplicate (length frame.payload) now headed
        ready' in
    (c.0, omega (arith, c.1, head.1, header_length-carried frame bytes fits))
