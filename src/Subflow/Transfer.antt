-- ===== src/Subflow/Transfer.antt =====
-- internal/overlay/subflow.go: frames onto the connection, and the loop that takes frames off it.
pub mod Ends
pub mod Channel
use cwnd_warm_up_proxy.Prelude.{
  ℕ, zero, suc, List, [], ◌∷◌, Bool, true, false, not, ◌&&◌, Option, none, some, length,
  if◌then◌else◌,
}
use Prim.Native.Nat.{bit_or}
use cwnd_warm_up_proxy.Prelude.Results.{Result, ok, err}
use cwnd_warm_up_proxy.Protocol.{Frame, JsonCodec, Error, has_flag, flag_checksum_present}
use cwnd_warm_up_proxy.Protocol.Io.{Writer}
use cwnd_warm_up_proxy.Protocol.Encode.{Encoder, encode}
use cwnd_warm_up_proxy.Protocol.Decode.{read_frame}
use cwnd_warm_up_proxy.Subflow.{Subflow, record_send, record_receive}

-- `frame.Flags |= protocol.FlagChecksumPresent`, where the session has checksums.
abbrev pub flagged : Bool → Frame → Frame
flagged true frame = record frame { flags = bit_or frame.flags flag_checksum_present }
flagged false frame = frame

-- What a call of `send` leaves: the counters, the connection, the frame, and its error.
pub record Sending : Type 0 where
  pub subflow : Subflow
  pub writer : Writer
  pub frame : Frame
  pub error : Option Error

unfoldable pub finish_send : Subflow → ℕ → Encoder × Option Error → Sending
unfolding record_send
finish_send s now (e, none) =
    let counted = record_send s e.frame e.cw.written now in
    record { subflow = counted.0; writer = e.cw.w; frame = counted.1; error = none }
finish_send s now (e, some x) = record {
  subflow = s;
  writer = e.cw.w;
  frame = e.frame;
  error = some x;
}

-- Why the loop of `run` ends: ReadFrame fails, or a frame has no checksum where the session has them.
pub data Ending : Type 0 where
  unreadable : Error → Ending
  checksum_required : Ending

-- A round of the loop: it ends, or a frame goes to the session and the connection has the rest.
pub data Round : Type 0 where
  ends : Ending → Round
  hands : Frame → List ℕ → Subflow → Round

-- The frames given to the session, the counters, and the end, if the loop came to it.
pub record Running : Type 0 where
  pub handed : List Frame
  pub subflow : Subflow
  pub ending : Option Ending

unfoldable pub send_first :
    Option Error
    → Frame
    → Writer
    → List Frame × Writer × Option Error
    → List Frame × Writer × Option Error
send_first none frame w more = (frame ∷ more.0, more.1, more.2)
send_first (some e) frame w more = ([], w, some e)

module _ (json : JsonCodec) (checksums : Bool) where
  -- `send`
  unfoldable pub send : ℕ → Frame → Writer → Subflow → Sending
  unfolding finish_send encode
  send now frame w s = finish_send s now (encode json (flagged checksums frame) w)

  -- Calls of `send` one after another, up to the first that fails: the frames sent, the connection, and
  -- the error.
  unfoldable pub send_all : ℕ → List Frame → Writer → Subflow → List Frame × Writer × Option Error
  send_all now [] w s = ([], w, none)
  send_all now (frame ∷ frames) w s =
      let one = send now frame w s in
      send_first one.error one.frame one.writer (send_all now frames one.writer one.subflow)

  unfoldable pub judge : ℕ → Subflow → Result Error (Frame × List ℕ) → Round
  unfolding record_receive
  judge now s (err e) = ends (unreadable e)
  judge now s (ok (frame, rest)) =
      if checksums && not (has_flag frame.flags flag_checksum_present)
      then ends checksum_required
      else hands frame rest (record_receive s frame now)

  -- The loop of `run` for at most `n` rounds. `clock` is the time at which so many bytes are still to
  -- come.
  unfoldable pub run : (ℕ → ℕ) → ℕ → List ℕ → Subflow → Running
  unfolding judge read_frame
  run clock zero input s = record { handed = []; subflow = s; ending = none }
  run clock (suc n) input s = elim (judge (clock (length input)) s (read_frame json input)) [
    | ends e ↦ record { handed = []; subflow = s; ending = some e }
    | hands frame rest t ↦
        let more = run clock n rest t in record more { handed = frame ∷ more.handed }
  ]
