-- ===== src/Session/Open/Absent.antt =====
-- A client makes no stream for a frame: it ignores one for a stream that it does not have.
use cwnd_warm_up_proxy.Prelude.{
  ℕ, suc, ◌≡◌, refl, ap, ◌∙◌, inl, inr, Bool, true, false, none, some, ◌==◌, ==_iff, if◌then◌else◌,
  arith, Bool-cases, Option-cases,
}
use cwnd_warm_up_proxy.Prelude.Table.{lookup, lookup-insert}
use cwnd_warm_up_proxy.Protocol.{
  Frame, ControlPayload, frame_data, frame_ack, frame_control, control_session_init,
  control_session_join, control_stream_open, control_stream_accept, control_stream_close,
  control_stream_reset,
}
use cwnd_warm_up_proxy.Stream.{Stream, accept, close_stream, fail, eof, remote_reset}
use cwnd_warm_up_proxy.Session.{Session, is_client}
use cwnd_warm_up_proxy.Session.Send.{Environment}
use cwnd_warm_up_proxy.Session.Control.{
  get_stream, with_stream, handle_stream_open, handle_control, handle_control_frame,
}
use cwnd_warm_up_proxy.Session.Dispatch.{
  Serving, serve_data, serve_ack, for_stream, handle_data_frame, handle_ack_frame, dispatch_frame,
}
use cwnd_warm_up_proxy.Session.Dispatch.Same.{SameStreams, nothing_new}
use cwnd_warm_up_proxy.Session.Dispatch.Other.{dispatch-Agrees}

if_same {ℓ} : {A : Type ℓ} {x y z : A} (b : Bool) → x ≡ z → y ≡ z → (if b then x else y) ≡ z
if_same true e f = e
if_same false e f = f

-- What a client does with a frame for a stream that it does not have: nothing.
module _ (env : Environment) (sf : ℕ) (frame : Frame) (s : Session) (c : is_client s.role ≡ true)
    (absent : get_stream s frame.stream_id ≡ none) where
  with_stream_absent : (f : Stream → Stream) → with_stream s frame.stream_id f ≡ s
  unfolding with_stream
  with_stream_absent f = rw (absent, with_stream) refl

  for_stream_absent : (f : Serving → Serving) → for_stream env frame.stream_id f s ≡ s
  unfolding for_stream
  for_stream_absent f = rw (absent, for_stream) refl

  handle_control_absent : (control : ControlPayload) → handle_control env sf frame control s ≡ s
  unfolding handle_control handle_stream_open
  handle_control_absent control =
      let kind = control.control_type in
      if_same (kind == control_session_init) (rw c refl) (
        if_same (kind == control_session_join) (rw c refl) (
          if_same (kind == control_stream_open) (rw c refl) (
            if_same (kind == control_stream_accept) (with_stream_absent accept) (
              if_same (kind == control_stream_close)
                (with_stream_absent (λ stream. close_stream stream eof))
                (if_same (kind == control_stream_reset)
                  (with_stream_absent (λ stream. fail stream (some remote_reset))) refl)))))

  handle_control_frame_absent : handle_control_frame env sf frame s ≡ s
  unfolding handle_control_frame
  handle_control_frame_absent = elim (Option-cases frame.control) [
    | inl e ↦ rw (e, handle_control_frame) refl
    | inr (control, e) ↦ rw (e, handle_control_frame) (handle_control_absent control)
  ]

  handle_ack_frame_absent : handle_ack_frame env frame s ≡ s
  unfolding handle_ack_frame
  handle_ack_frame_absent = elim (Option-cases frame.ack) [
    | inl e ↦ rw (e, handle_ack_frame) refl
    | inr (ack, e) ↦ rw (e, handle_ack_frame) (for_stream_absent (serve_ack env ack))
  ]

  pub dispatch_frame_absent : (rounds : ℕ) → dispatch_frame env rounds sf frame s ≡ s
  unfolding dispatch_frame handle_data_frame
  dispatch_frame_absent rounds =
      if_same (frame.frame_type == frame_data)
        (for_stream_absent (serve_data env rounds frame.stream_id frame))
        (if_same (frame.frame_type == frame_ack) handle_ack_frame_absent
          (if_same (frame.frame_type == frame_control) handle_control_frame_absent refl))

-- The role and the last ID stay, and no stream appears.
pub record Keeps (s t : Session) : Type 0 where
  pub absent : (k : ℕ) → get_stream s k ≡ none → get_stream t k ≡ none
  pub role : t.role ≡ s.role
  pub last : t.last_stream_id ≡ s.last_stream_id

pub same-Keeps : (s t : Session) → SameStreams s t → Keeps s t
same-Keeps s t e = record {
  absent = λ k h. ap (lookup k) e.streams ∙ h;
  role = e.role;
  last = e.last;
}

pub with_stream-Keeps : (s : Session) (id : ℕ) (f : Stream → Stream) → Keeps s (with_stream s id f)
unfolding with_stream
with_stream-Keeps s id f = elim (Option-cases (get_stream s id)) [
  | inl e ↦ rw (e, with_stream) (same-Keeps s s (nothing_new s))
  | inr (stream, e) ↦
      rw (e, with_stream)
        (record {
          absent = λ k h. ground (arith, lookup-insert id k (f stream) s.streams, e, h);
          role = refl;
          last = refl;
        })
]

pub dispatch_frame-Keeps :
    (env : Environment) (rounds sf : ℕ) (frame : Frame) (s : Session)
    → is_client s.role ≡ true
    → Keeps s (dispatch_frame env rounds sf frame s)
dispatch_frame-Keeps env rounds sf frame s c =
    let agrees =
      λ (k : ℕ) (h : (frame.stream_id == k) ≡ false). dispatch-Agrees env k sf frame h rounds s in
    let next = agrees (suc frame.stream_id) (ground arith) in
    record {
      absent = λ k h. elim (Bool-cases (frame.stream_id == k)) [
        | inl same ↦
            let found = ap (get_stream s) ((==_iff frame.stream_id k).0 same) ∙ h in
            ap (λ t. get_stream t k) (dispatch_frame_absent env sf frame s c found rounds) ∙ h
        | inr other ↦ (agrees k other).found ∙ h
      ];
      role = next.role;
      last = next.last;
    }
