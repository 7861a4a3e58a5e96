-- ===== src/Session/Send.antt =====
-- internal/overlay/session.go: a frame on its way to a subflow. What the connections do, the measured
-- goodput and the clock are an environment.
use cwnd_warm_up_proxy.Prelude.{ℕ, List, [], ◌∷◌, ◌++◌, true, false, Option, none, some}
use cwnd_warm_up_proxy.Prelude.Int.{ℤ}
use cwnd_warm_up_proxy.Protocol.{
  Frame, AckPayload, ControlPayload, Fields, frame_ack, frame_control,
}
use cwnd_warm_up_proxy.Scheduler
use cwnd_warm_up_proxy.Scheduler.{Scheduler, Choice, nil, subflow, panics}
use cwnd_warm_up_proxy.Stream.{Error, no_subflow}
use cwnd_warm_up_proxy.Session.{Session}

-- What the outside does in one call: the goodput of each subflow, the outcome of a frame on a subflow,
-- the outcome of net.Dial to a target, the time, and how many chunks still get into a stream's `inbound` once
-- the stream is done.
pub record Environment : Type 0 where
  pub goodput : ℕ → ℤ
  pub transmit : ℕ → Frame → Option Error
  pub dial : List ℕ → Option Error
  pub now : ℕ
  pub taken : ℕ

-- A call of `Subflow.send`, whose own part stands in Subflow.Send.
unfoldable pub send_on : ℕ → Frame → Session → Session
send_on id frame s = record s { sent = s.sent ++ ((id, frame) ∷ []) }

abbrev pub empty_frame : Frame
empty_frame = record {
  version = 0;
  frame_type = 0;
  flags = 0;
  session_id = 0;
  stream_id = 0;
  seq = 0;
  payload = [];
  checksum = 0;
  is_duplicate = false;
  wire_length = 0;
  ack = none;
  control = none;
  heartbeat = none;
}

abbrev pub ack_frame : Session → ℕ → AckPayload → Frame
ack_frame s stream_id ack = record empty_frame {
  frame_type = frame_ack;
  session_id = s.id;
  stream_id = stream_id;
  ack = some ack;
}

module _ (env : Environment) where
  -- A valid scheduler does not panic.
  unfoldable pub send_chosen : Session → Frame → Scheduler × Choice → Session × Option Error
  unfolding send_on
  send_chosen s frame (scheduler, nil) = (record s { scheduler = scheduler }, some no_subflow)
  send_chosen s frame (scheduler, subflow id) =
      let frame = record frame { session_id = s.id } in
      (send_on id frame (record s { scheduler = scheduler }), env.transmit id frame)
  send_chosen s frame (scheduler, panics) = (record s { panicked = true }, some no_subflow)

  -- `sendFrame`
  unfoldable pub send_frame : Session → Frame → Session × Option Error
  unfolding send_chosen
  send_frame s frame = send_chosen s frame (Scheduler.next env.goodput s.scheduler)

  -- `Session.sendAck`
  unfoldable pub send_ack_frame : Session → ℕ → AckPayload → Session × Option Error
  unfolding send_frame
  send_ack_frame s stream_id ack = send_frame s (ack_frame s stream_id ack)

abbrev pub control_payload : ℕ → ControlPayload
control_payload control_type = record {
  control_type = control_type;
  session_id = 0;
  stream_id = 0;
  window = 0;
  metadata = Fields.end;
  values = Fields.end;
  raw = [];
}

abbrev pub control_frame : Session → ℕ → ControlPayload → Frame
control_frame s stream_id payload = record empty_frame {
  frame_type = frame_control;
  session_id = s.id;
  stream_id = stream_id;
  control = some payload;
}
