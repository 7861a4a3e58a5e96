-- ===== src/Stream/Ack.antt =====
-- internal/overlay/stream.go and session.go: an ACK that arrives, and the frames sent again for it.
use cwnd_warm_up_proxy.Prelude.{
  ℕ, ◌+◌, ◌-◌, ◌^◌, List, [], ◌∷◌, Bool, true, false, not, ◌&&◌, ◌||◌, Option, none, some, ltb, leb,
  ◌==◌, if◌then◌else◌,
}
use cwnd_warm_up_proxy.Prelude.Bytes.{u32, u64}
use cwnd_warm_up_proxy.Protocol.{Frame, SackRange, AckPayload}
use cwnd_warm_up_proxy.Window.{release}
use cwnd_warm_up_proxy.Stream.{Error, PendingEntry, Stream, retransmit_interval, fail}
use cwnd_warm_up_proxy.Stream.Send.{update, mark, stamp}

-- The loop of computeAckHoles.
unfoldable pub holes_from : ℕ → List SackRange → List SackRange
holes_from cur [] = []
holes_from cur (r ∷ rs) =
    let rest = holes_from (if ltb cur r.end then r.end else cur) rs in
    if ltb cur r.start then record { start = cur; end = r.start } ∷ rest else rest

unfoldable pub compute_ack_holes : AckPayload → List SackRange
unfolding holes_from
compute_ack_holes ack = holes_from ack.ack_seq ack.ranges

abbrev pub entry_end : PendingEntry → ℕ
entry_end e = u64 (e.seq + e.length)

unfoldable pub some_range_covers : PendingEntry → List SackRange → Bool
some_range_covers e [] = false
some_range_covers e (r ∷ rs) =
    (leb r.start e.seq && leb (entry_end e) r.end) || some_range_covers e rs

unfoldable pub ack_covers_entry : AckPayload → PendingEntry → Bool
unfolding some_range_covers
ack_covers_entry ack e = leb (entry_end e) ack.ack_seq || some_range_covers e ack.ranges

unfoldable pub some_hole_meets : PendingEntry → List SackRange → Bool
some_hole_meets e [] = false
some_hole_meets e (h ∷ hs) = (ltb e.seq h.end && ltb h.start (entry_end e)) || some_hole_meets e hs

-- The entry was sent less than the interval ago; the clock does not run backwards.
abbrev pub is_recent : PendingEntry → ℕ → Bool
is_recent e now = elim e.last_send [ none ↦ false | some t ↦ ltb (now - t) retransmit_interval ]

unfoldable pub should_retransmit_entry : PendingEntry → List SackRange → ℕ → Bool
unfolding some_hole_meets
should_retransmit_entry e holes now =
    not (e.length == 0) && not (is_recent e now) && some_hole_meets e holes

-- The loop over the pending entries: those that stay, and those among them to send again.
unfoldable pub uncovered : AckPayload → List PendingEntry → List PendingEntry
unfolding ack_covers_entry
uncovered ack [] = []
uncovered ack (e ∷ es) =
    let rest = uncovered ack es in if ack_covers_entry ack e then rest else e ∷ rest

unfoldable pub to_resend : AckPayload → ℕ → List PendingEntry → List PendingEntry
unfolding ack_covers_entry should_retransmit_entry compute_ack_holes
to_resend ack now [] = []
to_resend ack now (e ∷ es) =
    let rest = to_resend ack now es in
    if ack_covers_entry ack e
    then rest
    else if should_retransmit_entry e (compute_ack_holes ack) now
    then e ∷ rest
    else rest

-- The state of the stream after the lock on the pending entries is given back and the credit is used.
unfoldable pub absorb : AckPayload → Stream → Stream
unfolding uncovered
absorb ack s =
    let s = record s { pending = uncovered ack s.pending } in
    if ack.credit == 0 then s else record s {
      send_window = release s.send_window ack.credit;
      inflight = u32 (s.inflight + (2 ^ 32 - ack.credit));
    }

module _ (send : Frame → Option Error) (session_id now : ℕ) where
  -- `retransmit`, with `send` for sendFrame.
  unfoldable pub retransmit : PendingEntry → Stream → Stream
  unfolding update
  retransmit e s =
      let s = record s { pending = update e.address (mark session_id true) s.pending } in
      elim (send (mark session_id true e).frame) [
        | none ↦ record s { pending = update e.address (stamp now) s.pending }
        | some error ↦ fail s (some error)
      ]

  unfoldable pub retransmit_all : List PendingEntry → Stream → Stream
  unfolding retransmit
  retransmit_all [] s = s
  retransmit_all (e ∷ es) s = retransmit_all es (retransmit e s)

  unfoldable pub on_ack : AckPayload → Stream → Stream
  unfolding to_resend absorb retransmit_all
  on_ack ack s = retransmit_all (to_resend ack now s.pending) (absorb ack s)
