-- ===== src/Session/Dispatch/Same.antt =====
-- What serving a frame does to the session beside the stream: the role, the table and the last ID stay.
use cwnd_warm_up_proxy.Prelude.{
  ℕ, zero, suc, ◌≡◌, refl, ◌∙◌, inl, inr, List, [], ◌∷◌, Bool, true, false, Option, none, some,
  if◌then◌else◌, ◌+◌, leb, not, length, Bool-cases,
}
use cwnd_warm_up_proxy.Protocol.{Frame, AckPayload}
use cwnd_warm_up_proxy.Reorder.{push}
use cwnd_warm_up_proxy.Scheduler
use cwnd_warm_up_proxy.Scheduler.{Scheduler, Choice, nil, subflow, panics}
use cwnd_warm_up_proxy.Stream.{PendingEntry}
use cwnd_warm_up_proxy.Stream.Send.{mark}
use cwnd_warm_up_proxy.Stream.Ack.{to_resend, absorb}
use cwnd_warm_up_proxy.Stream.Data.{is_end}
use cwnd_warm_up_proxy.Session.{
  Session, may_spawn, register_subflow, remove_subflow, prepare_subflow_spawn, on_subflow_error,
}
use cwnd_warm_up_proxy.Session.Send.{
  Environment, send_on, send_chosen, send_frame, send_ack_frame, ack_frame,
}
use cwnd_warm_up_proxy.Session.Dispatch.{
  Serving, round_ack, send_round_ack, serve_round, serve_data, serve_resend, serve_resends,
  serve_ack,
}

-- The role and the table of streams are the same in both sessions, and so is the last ID given.
pub record SameStreams (s t : Session) : Type 0 where
  pub streams : t.streams ≡ s.streams
  pub role : t.role ≡ s.role
  pub last : t.last_stream_id ≡ s.last_stream_id

abbrev pub nothing_new : (s : Session) → SameStreams s s
nothing_new s = record { streams = refl; role = refl; last = refl }

pub then_same : {s t u : Session} → SameStreams s t → SameStreams t u → SameStreams s u
then_same h g = record {
  streams = g.streams ∙ h.streams;
  role = g.role ∙ h.role;
  last = g.last ∙ h.last;
}

pub if-SameStreams :
    (s t u : Session) (b : Bool)
    → SameStreams s t
    → SameStreams s u
    → SameStreams s (if b then t else u)
if-SameStreams s t u true h g = h
if-SameStreams s t u false h g = g

pub register_subflow-SameStreams : (s : Session) (id : ℕ) → SameStreams s (register_subflow s id)
unfolding register_subflow
register_subflow-SameStreams s id =
    if-SameStreams s s _ s.closed (nothing_new s)
      (record { streams = refl; role = refl; last = refl })

-- Some subflow lost, and perhaps another to dial.
if_pair-SameStreams :
    (s : Session) (t u : Session × Option (ℕ × Bool)) (b : Bool)
    → SameStreams s t.0
    → SameStreams s u.0
    → SameStreams s (if b then t else u).0
if_pair-SameStreams s t u true h g = h
if_pair-SameStreams s t u false h g = g

pub prepare_subflow_spawn-SameStreams : (s : Session) → SameStreams s (prepare_subflow_spawn s).0
unfolding prepare_subflow_spawn
prepare_subflow_spawn-SameStreams s =
    if_pair-SameStreams s _ _ (not (may_spawn s)) (nothing_new s) (
      if_pair-SameStreams s _ _ (leb s.target (length s.subflows + s.pending_spawns))
        (nothing_new s) (record { streams = refl; role = refl; last = refl }))

pub on_subflow_error-SameStreams : (s : Session) (id : ℕ) → SameStreams s (on_subflow_error s id).0
unfolding on_subflow_error remove_subflow
on_subflow_error-SameStreams s id =
    let t = remove_subflow s id in
    let removed : SameStreams s t = record { streams = refl; role = refl; last = refl } in
    if_pair-SameStreams s _ _ (may_spawn t)
      (then_same removed (prepare_subflow_spawn-SameStreams t)) removed

module _ (env : Environment) where
  pub send_chosen-SameStreams :
      (s : Session) (frame : Frame) (t : Scheduler × Choice)
      → SameStreams s (send_chosen env s frame t).0
  unfolding send_chosen send_on
  send_chosen-SameStreams s frame (scheduler, nil) = record {
    streams = refl;
    role = refl;
    last = refl;
  }
  send_chosen-SameStreams s frame (scheduler, subflow id) = record {
    streams = refl;
    role = refl;
    last = refl;
  }
  send_chosen-SameStreams s frame (scheduler, panics) = record {
    streams = refl;
    role = refl;
    last = refl;
  }

  pub send_frame-SameStreams :
      (s : Session) (frame : Frame) → SameStreams s (send_frame env s frame).0
  unfolding send_frame
  send_frame-SameStreams s frame =
      send_chosen-SameStreams s frame (Scheduler.next env.goodput s.scheduler)

  send_round_ack-SameStreams :
      (s : Session) (id : ℕ) (ack : Option AckPayload)
      → SameStreams s (send_round_ack env s id ack).0
  unfolding send_round_ack send_ack_frame
  send_round_ack-SameStreams s id none = record { streams = refl; role = refl; last = refl }
  send_round_ack-SameStreams s id (some ack) = send_frame-SameStreams s (ack_frame s id ack)

  serve_round-SameStreams :
      (id : ℕ) (frame : Frame) (v : Serving)
      → SameStreams v.session (serve_round env id frame v).0.session
  unfolding serve_round
  serve_round-SameStreams id frame v =
      send_round_ack-SameStreams v.session id
        (round_ack v.stream (push v.stream.reorder frame.seq frame.payload (is_end frame)))

  pub serve_data-SameStreams :
      (n id : ℕ) (frame : Frame) (v : Serving)
      → SameStreams v.session (serve_data env n id frame v).session
  unfolding serve_data
  serve_data-SameStreams zero id frame v = record { streams = refl; role = refl; last = refl }
  serve_data-SameStreams (suc n) id frame v =
      let round = serve_round env id frame v in
      let first = serve_round-SameStreams id frame v in
      elim (Bool-cases round.1) [
        | inl over ↦ rw over first
        | inr again ↦ rw again (then_same first (serve_data-SameStreams n id frame round.0))
      ]

  serve_resend-SameStreams :
      (entry : PendingEntry) (v : Serving)
      → SameStreams v.session (serve_resend env entry v).session
  unfolding serve_resend
  serve_resend-SameStreams entry v =
      send_frame-SameStreams v.session (mark v.session.id true entry).frame

  serve_resends-SameStreams :
      (entries : List PendingEntry) (v : Serving)
      → SameStreams v.session (serve_resends env entries v).session
  unfolding serve_resends
  serve_resends-SameStreams [] v = record { streams = refl; role = refl; last = refl }
  serve_resends-SameStreams (entry ∷ entries) v =
      then_same (serve_resend-SameStreams entry v)
        (serve_resends-SameStreams entries (serve_resend env entry v))

  pub serve_ack-SameStreams :
      (ack : AckPayload) (v : Serving) → SameStreams v.session (serve_ack env ack v).session
  unfolding serve_ack
  serve_ack-SameStreams ack v =
      serve_resends-SameStreams (to_resend ack env.now v.stream.pending)
        (record v { stream = absorb ack v.stream })
