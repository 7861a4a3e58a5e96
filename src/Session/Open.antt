-- ===== src/Session/Open.antt =====
-- internal/overlay/session.go and client.go: streams that a client opens, and the subflows that it dials.
pub mod Absent
pub mod Fresh
pub mod Establish
use cwnd_warm_up_proxy.Prelude.{
  ℕ, zero, suc, ◌+◌, List, [], ◌∷◌, ◌++◌, Bool, true, false, Option, none, some, ◌==◌,
  if◌then◌else◌,
}
use cwnd_warm_up_proxy.Prelude.Bytes.{u32}
use cwnd_warm_up_proxy.Protocol.{
  Frame, Fields, field, Value, text, control_session_init, control_session_join,
  control_stream_open,
}
use cwnd_warm_up_proxy.Stream.{Stream, Error, wait_for_accept, wrong_role}
use cwnd_warm_up_proxy.Session.{
  Session, is_client, client, register_subflow, subflow_spawn_failed, new_session,
}
use cwnd_warm_up_proxy.Session.Send.{
  Environment, send_on, send_frame, control_payload, control_frame,
}
use cwnd_warm_up_proxy.Session.Control.{get_stream, create_stream, target_key}

-- StreamIDAllocator.Next
unfoldable pub next_stream_id : Session → Session × ℕ
next_stream_id s = let id = u32 (s.last_stream_id + 1) in (record s { last_stream_id = id }, id)

abbrev pub open_frame : Session → ℕ → List ℕ → Frame
open_frame s id target = control_frame s id (record (control_payload control_stream_open) {
  stream_id = id;
  metadata = field target_key (text target) Fields.end;
})

-- What OpenStream comes to before its wait: the frame is sent, or an error, or the panic of createStream on a
-- session that is closed.
pub data Request : Type 0 where
  requested : ℕ → Request
  not_requested : Error → Request
  panics : Request

abbrev pub sent_or_error : ℕ → Option Error → Request
sent_or_error id none = requested id
sent_or_error id (some e) = not_requested e

module _ (env : Environment) where
  -- OpenStream up to the wait for the server's answer, which is `wait_for_accept`. A stream that could not be
  -- asked for stays in the table.
  unfoldable pub request_stream : List ℕ → Session → Session × Request
  unfolding next_stream_id create_stream send_frame
  request_stream target s =
      if is_client s.role
      then (let (s, id) = next_stream_id s in
          let created = create_stream s id in
          let sending = send_frame env created (open_frame created id target) in
          if s.closed then (created, panics) else (sending.0, sent_or_error id sending.1))
      else (s, not_requested wrong_role)

-- The first frame on a subflow.
abbrev pub hello_frame : Session → Bool → Frame
hello_frame s opens =
    control_frame s 0
      (record (control_payload (if opens then control_session_init else control_session_join)) {
        session_id = s.id;
        window = s.initial_window;
      })

-- What a dialler and the first frame come to for one subflow.
pub data Attempt : Type 0 where
  connected : Attempt
  not_dialled not_sent : Error → Attempt

-- `dialSubflow`, and whether a timer will try again.
unfoldable pub dial_subflow : ℕ → Bool → Attempt → Session → Session × Bool
unfolding send_on register_subflow subflow_spawn_failed
dial_subflow id opens connected s =
    (register_subflow (send_on id (hello_frame s opens) s) id, false)
dial_subflow id opens (not_dialled e) s = (subflow_spawn_failed s, true)
dial_subflow id opens (not_sent e) s =
    (subflow_spawn_failed (send_on id (hello_frame s opens) s), true)

-- One round of establishSubflows.
unfoldable pub establish_one : ℕ → Attempt → Session → Session × Option Error
unfolding send_on register_subflow
establish_one i connected s = (register_subflow (send_on i (hello_frame s (i == 0)) s) i, none)
establish_one i (not_dialled e) s = (s, some e)
establish_one i (not_sent e) s = (send_on i (hello_frame s (i == 0)) s, some e)

abbrev pub unless_failed :
    Session × Option Error → (Session → Session × Option Error) → Session × Option Error
unless_failed (s, none) k = k s
unless_failed (s, some e) k = (s, some e)

-- Its loop from subflow `i` on, for `n` of them, and its error. A subflow runs as soon as it is registered, so
-- before each round other goroutines may change the session: `meanwhile` says how.
unfoldable pub establish :
    ℕ → ℕ → (ℕ → Attempt) → (ℕ → Session → Session) → Session → Session × Option Error
unfolding establish_one
establish i zero attempts meanwhile s = (s, none)
establish i (suc n) attempts meanwhile s =
    unless_failed (establish_one i (attempts i) (meanwhile i s))
      (establish (suc i) n attempts meanwhile)

-- `ClientConfig`, its times and addresses left out.
pub record ClientConfig : Type 0 where
  pub subflows : ℕ
  pub initial_window : ℕ
  pub plaintext : Bool

-- NewClient: its defaults, its session and the subflows that it establishes.
unfoldable pub new_client :
    ClientConfig → ℕ → (ℕ → Attempt) → (ℕ → Session → Session) → Session × Option Error
unfolding new_session establish
new_client cfg random attempts meanwhile =
    let subflows = if cfg.subflows == 0 then 1 else cfg.subflows in
    let window = if cfg.initial_window == 0 then 524288 else cfg.initial_window in
    establish 0 subflows attempts meanwhile (new_session client 0 window true subflows random)
