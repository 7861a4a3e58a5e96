-- ===== src/Subflow.antt =====
-- internal/overlay/subflow.go: the counters of a subflow, of the payload it carries for the first time and
-- of all other bytes.
pub mod Counted
pub mod Transfer
mod Examples
use cwnd_warm_up_proxy.Prelude.{ℕ, ◌-◌, Bool, true, false, length, ltb, leb, ◌==◌, if◌then◌else◌}
use cwnd_warm_up_proxy.Protocol.{Frame, frame_data}
use cwnd_warm_up_proxy.Metrics.{SlidingCounter, add}

-- The counters of the structure.
pub record Subflow : Type 0 where
  pub tx_real : SlidingCounter
  pub tx_dummy : SlidingCounter
  pub rx_real : SlidingCounter
  pub rx_dummy : SlidingCounter

abbrev pub is_data : Frame → Bool
is_data frame = frame.frame_type == frame_data

-- headerBytes
unfoldable pub header_length : Frame → ℕ → ℕ
header_length frame total =
    if total == 0
    then 0
    else if is_data frame
    then (if leb total (length frame.payload) then 0 else total - length frame.payload)
    else total

-- `if n > 0 { counter.Add(n) }`
unfoldable pub count : SlidingCounter → ℕ → ℕ → SlidingCounter
count counter n now = if ltb 0 n then add counter n now else counter

-- The payload of DATA, first sent or sent again.
unfoldable pub count_payload : Bool → Bool → ℕ → ℕ → Subflow → Subflow
unfolding count
count_payload false duplicate n now s = s
count_payload true true n now s = record s { tx_dummy = count s.tx_dummy n now }
count_payload true false n now s = record s { tx_real = count s.tx_real n now }

-- recordSend, with the frame it writes the length to.
unfoldable pub record_send : Subflow → Frame → ℕ → ℕ → Subflow × Frame
unfolding header_length count count_payload
record_send s frame bytes now =
    let sent = record frame { wire_length = bytes } in
    let headed = record s { tx_dummy = count s.tx_dummy (header_length sent bytes) now } in
    (count_payload (is_data sent) sent.is_duplicate (length sent.payload) now headed, sent)

unfoldable pub record_receive : Subflow → Frame → ℕ → Subflow
unfolding header_length count
record_receive s frame now =
    let s = record s { rx_dummy = count s.rx_dummy (header_length frame frame.wire_length) now } in
    if is_data frame then record s { rx_real = count s.rx_real (length frame.payload) now } else s
