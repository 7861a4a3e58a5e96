-- ===== src/Session/Control.antt =====
-- internal/overlay/session.go: the table of streams, and the control frames.
use cwnd_warm_up_proxy.Prelude.{
  ℕ, List, [], ◌∷◌, Bool, true, false, Option, none, some, ◌==◌, ◌&&◌, if◌then◌else◌,
}
use cwnd_warm_up_proxy.Prelude.Table.{lookup, insert}
use cwnd_warm_up_proxy.Protocol.{
  Frame, ControlPayload, Fields, field, Value, text, control_session_init, control_session_accept,
  control_session_join, control_stream_open, control_stream_accept, control_stream_close,
  control_stream_reset,
}
use cwnd_warm_up_proxy.Stream.{
  Stream, Error, new_stream, accept, close_stream, fail, bind_server, eof, remote_reset,
}
use cwnd_warm_up_proxy.Session.{Session, is_client, register_subflow}
use cwnd_warm_up_proxy.Session.Send.{
  Environment, send_on, send_frame, control_payload, control_frame,
}

-- `getStream`
abbrev pub get_stream : Session → ℕ → Option Stream
get_stream s id = lookup id s.streams

-- `s.streams[id] = stream`, a panic when Close has set the map to nil.
unfoldable pub put_stream : Session → ℕ → Stream → Session
unfolding insert
put_stream s id stream =
    if s.closed
    then record s { panicked = true }
    else record s { streams = insert id stream s.streams }

-- `createStream`: a stream that stands under the ID already is lost to the table.
unfoldable pub create_stream : Session → ℕ → Session
unfolding put_stream new_stream
create_stream s id = put_stream s id (new_stream s.initial_window id)

-- A method that changes one stream of the table in place, if it is there.
unfoldable pub with_stream : Session → ℕ → (Stream → Stream) → Session
unfolding insert lookup
with_stream s id f = elim (get_stream s id) [
  | none ↦ s
  | some stream ↦ record s { streams = insert id (f stream) s.streams }
]

-- "target"
abbrev pub target_key : List ℕ
target_key = 116 ∷ 97 ∷ 114 ∷ 103 ∷ 101 ∷ 116 ∷ []

abbrev same_text : List ℕ → List ℕ → Bool
same_text [] [] = true
same_text [] (y ∷ ys) = false
same_text (x ∷ xs) [] = false
same_text (x ∷ xs) (y ∷ ys) = (x == y) && same_text xs ys

abbrev text_of : Value → List ℕ
text_of (text bytes) = bytes
text_of _ = []

-- `meta["target"].(string)`, the empty text where there is none.
unfoldable pub target_of : Fields → List ℕ
target_of Fields.end = []
target_of (field key value rest) =
    if same_text key target_key then text_of value else target_of rest

module _ (env : Environment) where
  -- The rest of handleStreamOpen after net.Dial in openServerSide, by its outcome. It gives a TCP connection,
  -- which has CloseWrite.
  unfoldable pub opened : ℕ → ℕ → Session → Option Error → Session
  unfolding send_on send_frame with_stream bind_server accept
  opened subflow id s (some e) =
      send_on subflow (control_frame s id (control_payload control_stream_reset)) s
  opened subflow id s none =
      let bound = with_stream s id (bind_server true) in
      let answer =
        control_frame s id
          (record (control_payload control_stream_accept) { window = s.initial_window }) in
      with_stream (send_frame env bound answer).0 id accept

  -- `handleStreamOpen`, which ends at createStream with a panic on a session that is closed.
  unfoldable pub handle_stream_open : ℕ → Frame → ControlPayload → Session → Session
  unfolding create_stream opened target_of
  handle_stream_open subflow frame control s =
      if is_client s.role
      then s
      else if s.closed
      then create_stream s frame.stream_id
      else opened subflow frame.stream_id (create_stream s frame.stream_id)
          (env.dial (target_of control.metadata))

  -- What a server does with a subflow that opens a session.
  unfoldable pub accept_session : ℕ → Frame → Session → Session
  unfolding register_subflow send_on
  accept_session subflow frame s =
      let s = register_subflow (record s { id = frame.session_id }) subflow in
      send_on subflow
        (control_frame s 0 (record (control_payload control_session_accept) {
          session_id = s.id;
          window = s.initial_window;
        }))
        s

  -- The switch over the type of a control frame.
  unfoldable pub handle_control : ℕ → Frame → ControlPayload → Session → Session
  unfolding accept_session handle_stream_open with_stream register_subflow accept close_stream fail
  handle_control subflow frame control s =
      let kind = control.control_type in
      if kind == control_session_init
      then (if is_client s.role then s else accept_session subflow frame s)
      else if kind == control_session_join
      then (if is_client s.role then s else register_subflow s subflow)
      else if kind == control_stream_open
      then handle_stream_open subflow frame control s
      else if kind == control_stream_accept
      then with_stream s frame.stream_id accept
      else if kind == control_stream_close
      then with_stream s frame.stream_id (λ stream. close_stream stream eof)
      else if kind == control_stream_reset
      then with_stream s frame.stream_id (λ stream. fail stream (some remote_reset))
      else s

  -- `handleControlFrame`
  unfoldable pub handle_control_frame : ℕ → Frame → Session → Session
  unfolding handle_control
  handle_control_frame subflow frame s = elim frame.control [
    | none ↦ s
    | some control ↦ handle_control subflow frame control s
  ]
