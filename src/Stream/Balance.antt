-- ===== src/Stream/Balance.antt =====
-- The credit of a stream's window and its bytes in flight through sending, failing and acknowledging.
use cwnd_warm_up_proxy.Prelude.{
  ℕ, ◌+◌, ◌≡◌, refl, ◌∙◌, inl, inr, List, [], ◌∷◌, Bool, true, false, Option, none, some, length,
  ◌==◌, arith, Bool-cases, Option-cases,
}
use cwnd_warm_up_proxy.Prelude.Bytes.{u32, IsU32}
use cwnd_warm_up_proxy.Protocol.{Frame, AckPayload}
use cwnd_warm_up_proxy.Window.{Window, Outcome, granted, refused, waiting, acquire, release, close}
use cwnd_warm_up_proxy.Window
use cwnd_warm_up_proxy.Stream.{Error, PendingEntry, Stream, new_stream, fail, close_stream}
use cwnd_warm_up_proxy.Stream.Send.{
  mark, queue_frame, queue, settle, enter, on_send_failure, send_queued,
}
use cwnd_warm_up_proxy.Stream.Ack.{absorb, retransmit, retransmit_all, on_ack, to_resend}

-- A call on the sending side of a stream. The numbers that entries and ACKs bring are 32 bits wide.
pub data Step (s : Stream) : Stream → Type 0 where
  queues : (payload : List ℕ) (end : Bool) → Step s (queue_frame s payload end).0
  wakes : (payload : List ℕ) (end : Bool) → Step s (queue s payload end).0
  sends :
      (session_id now : ℕ) (entry : PendingEntry) (outcome : Option Error)
      → IsU32 entry.length
      → Step s (send_queued s session_id now entry outcome)
  acks :
      (send : Frame → Option Error) (session_id now : ℕ) (ack : AckPayload)
      → IsU32 ack.credit
      → Step s (on_ack send session_id now ack s)
  closes : (e : Error) → Step s (close_stream s e)

pub data Steps (s : Stream) : Stream → Type 0 where
  here : Steps s s
  next : {t u : Stream} → Steps s t → Step t u → Steps s u

-- The credit and the bytes in flight, as 32-bit counters add.
abbrev pub sum : Stream → ℕ
sum s = u32 (s.send_window.available + s.inflight)

abbrev spent : Outcome → ℕ → ℕ
spent granted n = n
spent refused n = 0
spent waiting n = 0

acquire-spent :
    (w : Window) (n : ℕ) → (acquire w n).0.available + spent (acquire w n).1 n ≡ w.available
unfolding acquire
acquire-spent w n = ground arith

settle-sum :
    (s : Stream) (payload : List ℕ) (end : Bool) (a : Window × Outcome)
    → a.0.available + spent a.1 (u32 (length payload)) ≡ s.send_window.available
    → sum (settle s payload end a).0 ≡ sum s
unfolding settle enter
settle-sum s payload end (w, granted) h = ground (arith, h)
settle-sum s payload end (w, refused) h = omega (arith, h)
settle-sum s payload end (w, waiting) h = omega (arith, h)

queue-sum : (s : Stream) (payload : List ℕ) (end : Bool) → sum (queue s payload end).0 ≡ sum s
unfolding queue
queue-sum s payload end =
    let n = u32 (length payload) in
    settle-sum s payload end (acquire s.send_window n) (acquire-spent s.send_window n)

queue_frame-sum :
    (s : Stream) (payload : List ℕ) (end : Bool) → sum (queue_frame s payload end).0 ≡ sum s
unfolding queue_frame
queue_frame-sum s payload true = elim (Bool-cases s.send_closed) [
  | inl c ↦ ground (arith, c)
  | inr c ↦ ground (arith, c, queue-sum (record s { send_closed = true }) payload true)
]
queue_frame-sum s payload false = elim (Bool-cases s.send_closed) [
  | inl c ↦ ground (arith, c)
  | inr c ↦ ground (arith, c, queue-sum s payload false)
]

on_send_failure-sum :
    (s : Stream) (e : PendingEntry) → IsU32 e.length → sum (on_send_failure s e) ≡ sum s
unfolding on_send_failure release
on_send_failure-sum s e h = elim (Bool-cases (e.length == 0)) [
  | inl z ↦ rw z refl
  | inr z ↦ rw z (omega (arith, h))
]

send_queued-sum :
    (s : Stream) (session_id now : ℕ) (e : PendingEntry) (outcome : Option Error)
    → IsU32 e.length
    → sum (send_queued s session_id now e outcome) ≡ sum s
unfolding send_queued
send_queued-sum s session_id now e none h = refl
send_queued-sum s session_id now e (some x) h = on_send_failure-sum _ e h

absorb-sum : (ack : AckPayload) (s : Stream) → IsU32 ack.credit → sum (absorb ack s) ≡ sum s
unfolding absorb release
absorb-sum ack s h = elim (Bool-cases (ack.credit == 0)) [
  | inl z ↦ rw z refl
  | inr z ↦ rw z (omega (arith, h))
]

fail-sum : (s : Stream) (e : Option Error) → sum (fail s e) ≡ sum s
unfolding fail close
fail-sum s e = elim (Bool-cases s.done) [ inl d ↦ rw d refl | inr d ↦ rw d refl ]

module _ (send : Frame → Option Error) (session_id now : ℕ) where
  retransmit-sum :
      (e : PendingEntry) (s : Stream) → sum (retransmit send session_id now e s) ≡ sum s
  unfolding retransmit
  retransmit-sum e s = elim (Option-cases (send (mark session_id true e).frame)) [
    | inl k ↦ rw (k, retransmit) refl
    | inr (x, k) ↦ rw (k, retransmit) (fail-sum _ (some x))
  ]

  retransmit_all-sum :
      (es : List PendingEntry) (s : Stream) → sum (retransmit_all send session_id now es s) ≡ sum s
  unfolding retransmit_all
  retransmit_all-sum [] s = refl
  retransmit_all-sum (e ∷ es) s =
      retransmit_all-sum es (retransmit send session_id now e s) ∙ retransmit-sum e s

  on_ack-sum :
      (ack : AckPayload) (s : Stream)
      → IsU32 ack.credit
      → sum (on_ack send session_id now ack s) ≡ sum s
  unfolding on_ack
  on_ack-sum ack s h =
      retransmit_all-sum (to_resend ack now s.pending) (absorb ack s) ∙ absorb-sum ack s h

Step-sum : {s t : Stream} → Step s t → sum t ≡ sum s
unfolding close_stream
Step-sum {s} (queues payload end) = queue_frame-sum s payload end
Step-sum {s} (wakes payload end) = queue-sum s payload end
Step-sum {s} (sends session_id now entry outcome h) =
    send_queued-sum s session_id now entry outcome h
Step-sum {s} (acks send session_id now ack h) = on_ack-sum send session_id now ack s h
Step-sum {s} (closes e) = fail-sum s (some e)

-- Whatever a stream queues, sends, fails to send, is told by ACKs and when it closes, its credit and its
-- bytes in flight add up to the initial window, up to the wrap of 32 bits. The lengths of entries and
-- the credit of ACKs are 32 bits wide.
pub Steps-sum :
    (initial_window id : ℕ) {t : Stream}
    → Steps (new_stream initial_window id) t
    → u32 (t.send_window.available + t.inflight) ≡ u32 initial_window
unfolding new_stream Window.new
Steps-sum initial_window id here = omega arith
Steps-sum initial_window id (next r st) = Step-sum st ∙ Steps-sum initial_window id r
