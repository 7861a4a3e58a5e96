-- ===== src/Session/Dispatch/Resends.antt =====
-- internal/overlay/session.go and stream.go: the frames that the session sends again for an ACK.
use cwnd_warm_up_proxy.Prelude.{
  ℕ, ◌<◌, ◌≡◌, refl, sym, ap, ◌∙◌, List, [], ◌∷◌, ◌++◌, append_assoc, append-nil, true, not, ◌&&◌,
  map, length, arith,
}
use cwnd_warm_up_proxy.Prelude.{get_elem?-lt}
use cwnd_warm_up_proxy.Protocol.{Frame, AckPayload}
use cwnd_warm_up_proxy.Scheduler
use cwnd_warm_up_proxy.Scheduler.{Scheduler, subflow}
use cwnd_warm_up_proxy.Scheduler.Valid.{IsValid, next-IsValid}
use cwnd_warm_up_proxy.Scheduler.Pick.{next_picks}
use cwnd_warm_up_proxy.Stream.{PendingEntry}
use cwnd_warm_up_proxy.Stream.Send.{mark}
use cwnd_warm_up_proxy.Stream.Ack.{
  ack_covers_entry, should_retransmit_entry, compute_ack_holes, to_resend, absorb,
}
use cwnd_warm_up_proxy.Stream.Pending.{keep, to_resend-keep}
use cwnd_warm_up_proxy.Session.{Session}
use cwnd_warm_up_proxy.Session.Send.{Environment, send_on, send_chosen, send_frame}
use cwnd_warm_up_proxy.Session.Open.Establish.{map-append_one}
use cwnd_warm_up_proxy.Session.Dispatch.{Serving, serve_resend, serve_resends, serve_ack}

-- The frames handed to subflows, in their order.
abbrev pub frames_sent : Session → List Frame
frames_sent s = map (λ (x : ℕ × Frame). x.1) s.sent

-- A session with a subflow to send on.
pub record CanSend (s : Session) : Type 0 where
  pub valid : IsValid s.scheduler
  pub some_subflow : 0 < length s.scheduler.entries

-- What sending a frame does to the session.
record Sends (s : Session) (frame : Frame) (t : Session) : Type 0 where
  sent : frames_sent t ≡ frames_sent s ++ (record frame { session_id = s.id } ∷ [])
  able : CanSend t
  id : t.id ≡ s.id

module _ (env : Environment) where
  send_frame-Sends :
      (s : Session) (frame : Frame) → CanSend s → Sends s frame (send_frame env s frame).0
  unfolding send_frame send_chosen send_on
  send_frame-Sends s frame h =
      let at =
        get_elem?-lt s.scheduler.entries s.scheduler.position
          (ground (arith, h.valid.position, h.some_subflow)) in
      let picks = next_picks env.goodput s.scheduler at.0 h.valid at.1 in
      let t = Scheduler.next env.goodput s.scheduler in
      let picked = picks.0 in
      let pair : t ≡ (t.0, subflow at.0.ref) = λ i. (t.0, picked i) in
      rw pair (record {
        sent =
            map-append_one (λ (x : ℕ × Frame). x.1) s.sent
              (at.0.ref, record frame { session_id = s.id });
        able = record {
          valid = (next-IsValid env.goodput s.scheduler h.valid).0;
          some_subflow = omega (arith, picks.1, h.some_subflow);
        };
        id = refl;
      })

  serve_resends-frames :
      (id : ℕ) (entries : List PendingEntry) (v : Serving)
      → v.session.id ≡ id
      → CanSend v.session
      → frames_sent (serve_resends env entries v).session
        ≡ frames_sent v.session ++ map (λ e. (mark id true e).frame) entries
  unfolding serve_resends serve_resend
  serve_resends-frames id [] v same h = sym (append-nil (frames_sent v.session))
  serve_resends-frames id (e ∷ entries) v same h =
      let frame = (mark v.session.id true e).frame in
      let sends = send_frame-Sends v.session frame h in
      serve_resends-frames id entries (serve_resend env e v) (sends.id ∙ same) sends.able
      ∙ ap (λ frames. frames ++ map (λ e. (mark id true e).frame) entries)
          (sends.sent ∙ ap (λ (k : ℕ). frames_sent v.session ++ ((mark k true e).frame ∷ [])) same)
      ∙ append_assoc (frames_sent v.session) ((mark id true e).frame ∷ [])
          (map (λ e. (mark id true e).frame) entries)

  -- For an ACK, a session that has a subflow to send on hands exactly these frames to its subflows, whatever
  -- comes of them: those of the pending entries that the ACK does not cover and that are due, in their
  -- order, each marked as a duplicate.
  pub serve_ack-frames :
      (ack : AckPayload) (v : Serving)
      → CanSend v.session
      → frames_sent (serve_ack env ack v).session
        ≡ frames_sent v.session
          ++ map
              (λ e. (mark v.session.id true e).frame)
              (keep
                (λ e.
                  not (ack_covers_entry ack e)
                  && should_retransmit_entry e (compute_ack_holes ack) env.now)
                v.stream.pending)
  unfolding serve_ack
  serve_ack-frames ack v h =
      serve_resends-frames v.session.id (to_resend ack env.now v.stream.pending)
        (record v { stream = absorb ack v.stream }) refl h
      ∙ ap (λ es. frames_sent v.session ++ map (λ e. (mark v.session.id true e).frame) es)
          (to_resend-keep ack env.now v.stream.pending)
