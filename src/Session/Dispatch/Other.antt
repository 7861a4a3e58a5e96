-- ===== src/Session/Dispatch/Other.antt =====
-- A frame leaves every stream alone but its own.
use cwnd_warm_up_proxy.Prelude.{
  ℕ, ◌≡◌, ◌≢◌, refl, sym, ap, ◌∙◌, inl, inr, Bool, true, false, Option, none, some, ◌==◌,
  if◌then◌else◌, arith, Option-cases,
}
use cwnd_warm_up_proxy.Prelude.Table.{lookup, insert, lookup-insert}
use cwnd_warm_up_proxy.Protocol.{
  Frame, ControlPayload, frame_data, frame_ack, frame_control, control_session_init,
  control_session_join, control_stream_open, control_stream_accept, control_stream_close,
  control_stream_reset,
}
use cwnd_warm_up_proxy.Stream.{
  Stream, Error, new_stream, accept, bind_server, close_stream, fail, eof, remote_reset,
}
use cwnd_warm_up_proxy.Session.{Session, is_client, register_subflow}
use cwnd_warm_up_proxy.Session.Send.{
  Environment, send_on, send_frame, control_frame, control_payload,
}
use cwnd_warm_up_proxy.Session.Control.{
  get_stream, put_stream, create_stream, with_stream, target_of, opened, handle_stream_open,
  accept_session, handle_control, handle_control_frame,
}
use cwnd_warm_up_proxy.Session.Dispatch.{
  Serving, serve_data, serve_ack, for_stream, handle_data_frame, handle_ack_frame, dispatch_frame,
}
use cwnd_warm_up_proxy.Session.Dispatch.Same.{
  SameStreams, register_subflow-SameStreams, send_frame-SameStreams, serve_data-SameStreams,
  serve_ack-SameStreams,
}

-- One stream is found alike in both sessions, with the same role and the same last ID.
pub record Agrees (k : ℕ) (s t : Session) : Type 0 where
  pub found : get_stream t k ≡ get_stream s k
  pub role : t.role ≡ s.role
  pub last : t.last_stream_id ≡ s.last_stream_id

abbrev unchanged : (k : ℕ) (s : Session) → Agrees k s s
unchanged k s = record { found = refl; role = refl; last = refl }

then_agrees : (k : ℕ) {s t u : Session} → Agrees k s t → Agrees k t u → Agrees k s u
then_agrees k h g = record {
  found = g.found ∙ h.found;
  role = g.role ∙ h.role;
  last = g.last ∙ h.last;
}

same-Agrees : (k : ℕ) (s t : Session) → SameStreams s t → Agrees k s t
same-Agrees k s t e = record { found = ap (lookup k) e.streams; role = e.role; last = e.last }

insert-Agrees :
    (k id : ℕ) (stream : Stream) (s : Session)
    → (id == k) ≡ false
    → Agrees k s (record s { streams = insert id stream s.streams })
insert-Agrees k id stream s h = record {
  found = rw (lookup-insert id k stream s.streams, h) refl;
  role = refl;
  last = refl;
}

if-Agrees :
    (k : ℕ) (s t u : Session) (b : Bool)
    → Agrees k s t
    → Agrees k s u
    → Agrees k s (if b then t else u)
if-Agrees k s t u true h g = h
if-Agrees k s t u false h g = g

module _ (k id : ℕ) (other : (id == k) ≡ false) where
  with_stream-Agrees : (s : Session) (f : Stream → Stream) → Agrees k s (with_stream s id f)
  unfolding with_stream
  with_stream-Agrees s f = elim (Option-cases (get_stream s id)) [
    | inl e ↦ rw (e, with_stream) (unchanged k s)
    | inr (stream, e) ↦ rw (e, with_stream) (insert-Agrees k id (f stream) s other)
  ]

  for_stream-Agrees :
      (env : Environment) (s : Session) (f : Serving → Serving)
      → ((v : Serving) → SameStreams v.session (f v).session)
      → Agrees k s (for_stream env id f s)
  unfolding for_stream
  for_stream-Agrees env s f keeps = elim (Option-cases (get_stream s id)) [
    | inl e ↦ rw (e, for_stream) (unchanged k s)
    | inr (stream, e) ↦
        let v : Serving = record { session = s; stream = stream } in
        rw (e, for_stream)
          (then_agrees k (same-Agrees k s (f v).session (keeps v))
            (insert-Agrees k id (f v).stream (f v).session other))
  ]

  create_stream-Agrees : (s : Session) → Agrees k s (create_stream s id)
  unfolding create_stream put_stream
  create_stream-Agrees s =
      if-Agrees k s _ _ s.closed (record { found = refl; role = refl; last = refl })
        (insert-Agrees k id (new_stream s.initial_window id) s other)

  opened-Agrees :
      (env : Environment) (sf : ℕ) (s : Session) (e : Option Error)
      → Agrees k s (opened env sf id s e)
  unfolding opened send_on
  opened-Agrees env sf s (some e) = record { found = refl; role = refl; last = refl }
  opened-Agrees env sf s none =
      let bound = with_stream s id (bind_server true) in
      let answer =
        control_frame s id
          (record (control_payload control_stream_accept) { window = s.initial_window }) in
      then_agrees k (with_stream-Agrees s (bind_server true)) (
        then_agrees k
          (same-Agrees k bound (send_frame env bound answer).0
            (send_frame-SameStreams env bound answer))
          (with_stream-Agrees (send_frame env bound answer).0 accept))

module _ (env : Environment) (k sf : ℕ) (frame : Frame)
    (other : (frame.stream_id == k) ≡ false) where
  handle_stream_open-Agrees :
      (control : ControlPayload) (s : Session)
      → Agrees k s (handle_stream_open env sf frame control s)
  unfolding handle_stream_open
  handle_stream_open-Agrees control s =
      let id = frame.stream_id in
      if-Agrees k s s _ (is_client s.role) (unchanged k s) (
        if-Agrees k s _ _ s.closed (create_stream-Agrees k id other s) (
          then_agrees k (create_stream-Agrees k id other s) (
            opened-Agrees k id other env sf (create_stream s id)
              (env.dial (target_of control.metadata)))))

  accept_session-Agrees : (s : Session) → Agrees k s (accept_session env sf frame s)
  unfolding accept_session send_on
  accept_session-Agrees s =
      let named = record s { id = frame.session_id } in
      let h = register_subflow-SameStreams named sf in
      record { found = ap (lookup k) h.streams; role = h.role; last = h.last }

  handle_control-Agrees :
      (control : ControlPayload) (s : Session) → Agrees k s (handle_control env sf frame control s)
  unfolding handle_control
  handle_control-Agrees control s =
      let kind = control.control_type in
      let id = frame.stream_id in
      if-Agrees k s _ _ (kind == control_session_init)
        (if-Agrees k s s _ (is_client s.role) (unchanged k s) (accept_session-Agrees s))
        (if-Agrees k s _ _ (kind == control_session_join)
          (if-Agrees k s s _ (is_client s.role) (unchanged k s)
            (same-Agrees k s (register_subflow s sf) (register_subflow-SameStreams s sf)))
          (if-Agrees k s _ _ (kind == control_stream_open) (handle_stream_open-Agrees control s) (
            if-Agrees k s _ _ (kind == control_stream_accept)
              (with_stream-Agrees k id other s accept)
              (if-Agrees k s _ _ (kind == control_stream_close)
                (with_stream-Agrees k id other s (λ stream. close_stream stream eof))
                (if-Agrees k s _ s (kind == control_stream_reset)
                  (with_stream-Agrees k id other s (λ stream. fail stream (some remote_reset)))
                  (unchanged k s))))))

  handle_control_frame-Agrees : (s : Session) → Agrees k s (handle_control_frame env sf frame s)
  unfolding handle_control_frame
  handle_control_frame-Agrees s = elim (Option-cases frame.control) [
    | inl e ↦ rw (e, handle_control_frame) (unchanged k s)
    | inr (control, e) ↦ rw (e, handle_control_frame) (handle_control-Agrees control s)
  ]

  handle_ack_frame-Agrees : (s : Session) → Agrees k s (handle_ack_frame env frame s)
  unfolding handle_ack_frame
  handle_ack_frame-Agrees s = elim (Option-cases frame.ack) [
    | inl e ↦ rw (e, handle_ack_frame) (unchanged k s)
    | inr (ack, e) ↦
        rw (e, handle_ack_frame)
          (for_stream-Agrees k frame.stream_id other env s (serve_ack env ack)
            (serve_ack-SameStreams env ack))
  ]

  pub dispatch-Agrees :
      (rounds : ℕ) (s : Session) → Agrees k s (dispatch_frame env rounds sf frame s)
  unfolding dispatch_frame handle_data_frame
  dispatch-Agrees rounds s =
      if-Agrees k s _ _ (frame.frame_type == frame_data)
        (for_stream-Agrees k frame.stream_id other env s
          (serve_data env rounds frame.stream_id frame)
          (serve_data-SameStreams env rounds frame.stream_id frame))
        (if-Agrees k s _ _ (frame.frame_type == frame_ack) (handle_ack_frame-Agrees s) (
          if-Agrees k s _ s (frame.frame_type == frame_control) (handle_control_frame-Agrees s)
            (unchanged k s)))

-- Whatever frame the session dispatches, and whatever comes of the frames it sends for it, every stream
-- but the one that the frame names stays as it was, or absent.
pub dispatch_frame-Agrees :
    (env : Environment) (rounds sf : ℕ) (frame : Frame) (s : Session) (k : ℕ)
    → k ≢ frame.stream_id
    → get_stream (dispatch_frame env rounds sf frame s) k ≡ get_stream s k
dispatch_frame-Agrees env rounds sf frame s k differs =
    (dispatch-Agrees env k sf frame (ground (arith, λ (e : frame.stream_id ≡ k). differs (sym e)))
      rounds s).found
