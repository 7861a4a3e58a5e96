-- ===== src/Pipe/Front.antt =====
-- internal/overlay/stream.go: the calls on a stream that queue no frame.
use cwnd_warm_up_proxy.Prelude.{
  ℕ, ◌≡◌, refl, ◌∙◌, inl, inr, List, [], ◌∷◌, Bool, true, false, Option, none, some, Option-cases,
  ◌==◌, if◌then◌else◌,
}
use cwnd_warm_up_proxy.Protocol.{Frame, AckPayload}
use cwnd_warm_up_proxy.Stream.{Error, PendingEntry, Stream, close_stream, fail}
use cwnd_warm_up_proxy.Stream.Send.{on_send_failure, send_queued, mark}
use cwnd_warm_up_proxy.Stream.Ack.{absorb, retransmit, retransmit_all, on_ack, to_resend}

-- The calls that do not queue a frame keep the next number and whether the sender has ended.
pub record SameFront (s t : Stream) : Type 0 where
  pub seq : t.send_seq ≡ s.send_seq
  pub closed : t.send_closed ≡ s.send_closed

then_front : {s t u : Stream} → SameFront s t → SameFront t u → SameFront s u
then_front h g = record { seq = g.seq ∙ h.seq; closed = g.closed ∙ h.closed }

if-SameFront :
    (s t u : Stream) (b : Bool) → SameFront s t → SameFront s u → SameFront s (if b then t else u)
if-SameFront s t u true h g = h
if-SameFront s t u false h g = g

pub send_queued-SameFront :
    (s : Stream) (session_id now : ℕ) (entry : PendingEntry) (outcome : Option Error)
    → SameFront s (send_queued s session_id now entry outcome)
unfolding send_queued on_send_failure
send_queued-SameFront s session_id now entry none = record { seq = refl; closed = refl }
send_queued-SameFront s session_id now entry (some e) =
    if-SameFront s _ _ (entry.length == 0) (record { seq = refl; closed = refl })
      (record { seq = refl; closed = refl })

module _ (send : Frame → Option Error) (session_id now : ℕ) where
  retransmit-SameFront :
      (e : PendingEntry) (s : Stream) → SameFront s (retransmit send session_id now e s)
  unfolding retransmit fail
  retransmit-SameFront e s = elim (Option-cases (send (mark session_id true e).frame)) [
    | inl k ↦ rw (k, retransmit) (record { seq = refl; closed = refl })
    | inr (x, k) ↦ rw (k, retransmit) (record { seq = refl; closed = refl })
  ]

  retransmit_all-SameFront :
      (es : List PendingEntry) (s : Stream) → SameFront s (retransmit_all send session_id now es s)
  unfolding retransmit_all
  retransmit_all-SameFront [] s = record { seq = refl; closed = refl }
  retransmit_all-SameFront (e ∷ es) s =
      then_front (retransmit-SameFront e s)
        (retransmit_all-SameFront es (retransmit send session_id now e s))

  pub on_ack-SameFront :
      (ack : AckPayload) (s : Stream) → SameFront s (on_ack send session_id now ack s)
  unfolding on_ack absorb
  on_ack-SameFront ack s =
      then_front {s = s} {t = absorb ack s}
        (if-SameFront s _ _ (ack.credit == 0) (record { seq = refl; closed = refl })
          (record { seq = refl; closed = refl }))
        (retransmit_all-SameFront (to_resend ack now s.pending) (absorb ack s))

pub close_stream-SameFront : (s : Stream) (e : Error) → SameFront s (close_stream s e)
unfolding close_stream fail
close_stream-SameFront s e = record { seq = refl; closed = refl }
