-- ===== src/Server.antt =====
-- internal/overlay/server.go: the sessions of a server, and what it does with a new connection. A frame
-- that a session takes from its queue is dispatched at once.
pub mod Alone
pub mod Taken
pub mod Handshake
mod Examples
use cwnd_warm_up_proxy.Prelude.{
  ℕ, zero, suc, ◌+◌, List, [], ◌∷◌, Bool, true, false, not, ◌&&◌, ◌||◌, Option, none, some, ◌==◌,
  if◌then◌else◌,
}
use cwnd_warm_up_proxy.Prelude.Results.{Result, ok, err}
use cwnd_warm_up_proxy.Prelude.Table.{lookup, insert}
use cwnd_warm_up_proxy.Protocol.{
  Frame, Error, ControlPayload, frame_control, has_flag, flag_checksum_present,
  control_session_init,
}
use cwnd_warm_up_proxy.Session.{Session, server, new_session}
use cwnd_warm_up_proxy.Session.Send.{Environment}
use cwnd_warm_up_proxy.Session.Dispatch.{dispatch_frame}

-- Server, with its configuration; `subflow_ids` is its atomicCounter.
pub record Server : Type 0 where
  pub plaintext : Bool
  pub initial_window : ℕ
  pub sessions : List (ℕ × Session)
  pub subflow_ids : ℕ

-- NewServer, whose listener has been opened.
unfoldable pub new_server : Bool → ℕ → Server
new_server plaintext initial_window = record {
  plaintext = plaintext;
  initial_window = if initial_window == 0 then 524288 else initial_window;
  sessions = [];
  subflow_ids = 0;
}

-- What becomes of a connection: it is closed, or its frame is handed to a session, with the ID of the subflow
-- made for it. It is for the session to take the subflow up.
pub data Fate : Type 0 where
  closes : Fate
  handed : ℕ → ℕ → Fate

abbrev has_control : Option ControlPayload → Bool
has_control none = false
has_control (some control) = true

-- The guards on the first frame: a control frame, and in plaintext with a checksum.
abbrev pub is_control : Frame → Bool
is_control frame = (frame.frame_type == frame_control) && has_control frame.control

abbrev pub lacks_checksum : Server → Frame → Bool
lacks_checksum v frame = v.plaintext && not (has_flag frame.flags flag_checksum_present)

abbrev pub opens_session : Option ControlPayload → Bool
opens_session none = false
opens_session (some control) = control.control_type == control_session_init

-- `handleFrame`, and the session's loop behind it; a closed session drops the frame.
abbrev pub handle_frame : Environment → ℕ → ℕ → Frame → Session → Session
handle_frame env rounds subflow frame s =
    if s.closed then s else dispatch_frame env rounds subflow frame s

-- The session that the server finds or opens for the frame; `random` is the ID that a session draws
-- for the ID 0.
unfoldable pub find_session : ℕ → Server → Frame → Option Session
unfolding lookup new_session
find_session random v frame = elim (lookup frame.session_id v.sessions) [
  | some s ↦ some s
  | none ↦
      if opens_session frame.control
      then some (new_session server frame.session_id v.initial_window false 0 random)
      else none
]

module _ (env : Environment) (rounds random : ℕ) where
  -- The new subflow, and its frame to the session.
  unfoldable pub admit : Server → Frame → Option Session → Server × Fate
  unfolding insert dispatch_frame
  admit v frame none = (v, closes)
  admit v frame (some s) = (
    record v {
      sessions = insert frame.session_id (handle_frame env rounds v.subflow_ids frame s) v.sessions;
      subflow_ids = v.subflow_ids + 1;
    },
    handed frame.session_id v.subflow_ids,
  )

  -- `handleConn`, by what ReadFrame returns.
  unfoldable pub handle_conn : Server → Result Error (Frame × List ℕ) → Server × Fate
  unfolding admit find_session
  handle_conn v (err e) = (v, closes)
  handle_conn v (ok (frame, rest)) =
      if not (is_control frame) || lacks_checksum v frame
      then (v, closes)
      else admit v frame (find_session random v frame)
