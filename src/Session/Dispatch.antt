-- ===== src/Session/Dispatch.antt =====
-- internal/overlay/session.go: the frames that arrive, each given to its stream. The frames that a stream
-- sends meanwhile go through the session's scheduler one after another.
pub mod Same
pub mod Other
pub mod Resends
use cwnd_warm_up_proxy.Prelude.{
  ℕ, zero, suc, List, [], ◌∷◌, Bool, true, false, Option, none, some, ◌==◌, if◌then◌else◌,
}
use cwnd_warm_up_proxy.Prelude.Results.{Result, ok, err}
use cwnd_warm_up_proxy.Prelude.Table.{insert}
use cwnd_warm_up_proxy.Protocol.{Frame, AckPayload, frame_data, frame_ack, frame_control}
use cwnd_warm_up_proxy.Reorder.{ReorderBuffer, Chunk, push}
use cwnd_warm_up_proxy.Reorder
use cwnd_warm_up_proxy.Stream.{Stream, PendingEntry, Error}
use cwnd_warm_up_proxy.Stream.Send.{mark}
use cwnd_warm_up_proxy.Stream.Ack.{to_resend, absorb, retransmit}
use cwnd_warm_up_proxy.Stream.Data.{ack_of, is_end, on_data_round}
use cwnd_warm_up_proxy.Session.{Session}
use cwnd_warm_up_proxy.Session.Send.{Environment, send_frame, send_ack_frame}
use cwnd_warm_up_proxy.Session.Control.{get_stream, handle_control_frame}

-- A stream of the table while one of its methods runs, and the session around it.
pub record Serving : Type 0 where
  pub session : Session
  pub stream : Stream

abbrev pub store_stream : ℕ → Serving → Session
store_stream id v = record v.session { streams = insert id v.stream v.session.streams }

-- The ACK that a round of onData sends with no credit, after a refusal or when nothing has become ready.
abbrev pub round_ack :
    Stream → ReorderBuffer × Result Reorder.Error (List Chunk) → Option AckPayload
unfolding ack_of
round_ack stream (r, err e) = ack_of (record stream { reorder = r }) 0
round_ack stream (r, ok []) = ack_of (record stream { reorder = r }) 0
round_ack stream (r, ok (chunk ∷ chunks)) = none

module _ (env : Environment) where
  unfoldable pub send_round_ack : Session → ℕ → Option AckPayload → Session × Option Error
  unfolding send_ack_frame
  send_round_ack s id none = (s, none)
  send_round_ack s id (some ack) = send_ack_frame env s id ack

  -- A round of the loop in onData, and whether the loop ends with it.
  unfoldable pub serve_round : ℕ → Frame → Serving → Serving × Bool
  unfolding send_round_ack on_data_round ack_of
  serve_round id frame v =
      let ack = round_ack v.stream (push v.stream.reorder frame.seq frame.payload (is_end frame)) in
      let sending = send_round_ack v.session id ack in
      let round = on_data_round (λ _. sending.1) env.taken frame v.stream in
      (record { session = sending.0; stream = round.0 }, round.1)

  -- At most `n` rounds: the loop need not end.
  unfoldable pub serve_data : ℕ → ℕ → Frame → Serving → Serving
  unfolding serve_round
  serve_data zero id frame v = v
  serve_data (suc n) id frame v =
      let round = serve_round id frame v in
      let rest = serve_data n id frame round.0 in if round.1 then round.0 else rest

  -- `Session.retransmit`
  unfoldable pub serve_resend : PendingEntry → Serving → Serving
  unfolding send_frame retransmit
  serve_resend entry v =
      let sending = send_frame env v.session (mark v.session.id true entry).frame in
      record {
        session = sending.0;
        stream = retransmit (λ _. sending.1) v.session.id env.now entry v.stream;
      }

  unfoldable pub serve_resends : List PendingEntry → Serving → Serving
  unfolding serve_resend
  serve_resends [] v = v
  serve_resends (entry ∷ entries) v = serve_resends entries (serve_resend entry v)

  -- onAck, with its frames on the session's subflows.
  unfoldable pub serve_ack : AckPayload → Serving → Serving
  unfolding serve_resends to_resend absorb
  serve_ack ack v =
      serve_resends (to_resend ack env.now v.stream.pending)
        (record v { stream = absorb ack v.stream })

  unfoldable pub for_stream : ℕ → (Serving → Serving) → Session → Session
  for_stream id f s = elim (get_stream s id) [
    | none ↦ s
    | some stream ↦ store_stream id (f (record { session = s; stream = stream }))
  ]

  -- `handleDataFrame`
  unfoldable pub handle_data_frame : ℕ → Frame → Session → Session
  unfolding for_stream serve_data
  handle_data_frame rounds frame s =
      for_stream frame.stream_id (serve_data rounds frame.stream_id frame) s

  -- `handleAckFrame`
  unfoldable pub handle_ack_frame : Frame → Session → Session
  unfolding for_stream serve_ack
  handle_ack_frame frame s = elim frame.ack [
    | none ↦ s
    | some ack ↦ for_stream frame.stream_id (serve_ack ack) s
  ]

  -- `dispatchFrame`: heartbeats and unknown types change nothing.
  unfoldable pub dispatch_frame : ℕ → ℕ → Frame → Session → Session
  unfolding handle_data_frame handle_ack_frame handle_control_frame
  dispatch_frame rounds subflow frame s =
      if frame.frame_type == frame_data
      then handle_data_frame rounds frame s
      else if frame.frame_type == frame_ack
      then handle_ack_frame frame s
      else if frame.frame_type == frame_control
      then handle_control_frame env subflow frame s
      else s
