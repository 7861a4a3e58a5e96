-- ===== src/Stream/Stuck.antt =====
-- The loop of onData while the reorder buffer is full.
use cwnd_warm_up_proxy.Prelude.{
  ℕ, zero, suc, sym, subst, ◌≡◌, ◌≤◌, refl, ap, ◌∙◌, le→ltb_false, true, false, Option, none, some,
}
use cwnd_warm_up_proxy.Prelude.Results.{err}
use cwnd_warm_up_proxy.Protocol.{Frame, AckPayload}
use cwnd_warm_up_proxy.Reorder.{
  ReorderBuffer, push, push_at, push_new, does_overflow, reorder_overflow,
}
use cwnd_warm_up_proxy.Prelude.Table.{lookup}
use cwnd_warm_up_proxy.Stream.{Error, Stream, fail}
use cwnd_warm_up_proxy.Stream.Data.{
  acknowledge, fail_on_error, send_ack, finish_round, on_data_round, on_data, is_end,
}

-- A frame that the buffer has no room for.
pub record IsRefused (r : ReorderBuffer) (frame : Frame) : Type 0 where
  pub ahead : r.next ≤ frame.seq
  pub absent : lookup frame.seq r.buffer ≡ none
  pub over : does_overflow r frame.payload ≡ true

push_refused :
    (r : ReorderBuffer) (frame : Frame)
    → IsRefused r frame
    → push r frame.seq frame.payload (is_end frame) ≡ (r, err reorder_overflow)
unfolding push push_at push_new
push_refused r frame h = rw (le→ltb_false frame.seq r.next h.ahead, h.absent, h.over) refl

fail_on_error-reorder : (s : Stream) (e : Option Error) → (fail_on_error s e).reorder ≡ s.reorder
unfolding fail_on_error fail
fail_on_error-reorder s none = refl
fail_on_error-reorder s (some x) = refl

module _ (session_ack : AckPayload → Option Error) where
  acknowledge-reorder :
      (s : Stream) (credit : ℕ) → (acknowledge session_ack s credit).reorder ≡ s.reorder
  unfolding acknowledge
  acknowledge-reorder s credit = fail_on_error-reorder s (send_ack session_ack s credit)

module _ (session_ack : AckPayload → Option Error) (taken : ℕ) where
  on_data_round_refused :
      (frame : Frame) (s : Stream)
      → IsRefused s.reorder frame
      → on_data_round session_ack taken frame s ≡ (acknowledge session_ack s 0, false)
  unfolding on_data_round finish_round
  on_data_round_refused frame s h =
      let refused = push_refused s.reorder frame h in ap (finish_round session_ack taken s) refused

  -- A frame that the buffer has no room for keeps the loop of onData going for ever: after any number of
  -- rounds it has not ended, and the buffer is as it was, whatever comes of the ACKs.
  pub on_data_refused :
      (n : ℕ) (frame : Frame) (s : Stream)
      → IsRefused s.reorder frame
      → ((on_data session_ack taken n frame s).1 ≡ false)
        × ((on_data session_ack taken n frame s).0.reorder ≡ s.reorder)
  unfolding on_data
  on_data_refused zero frame s h = (refl, refl)
  on_data_refused (suc n) frame s h =
      let kept = acknowledge-reorder session_ack s 0 in
      let next =
        on_data_refused n frame (acknowledge session_ack s 0)
          (subst (λ r. IsRefused r frame) (sym kept) h) in
      rw (on_data_round_refused frame s h) (next.0, next.1 ∙ kept)
