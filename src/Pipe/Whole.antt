-- ===== src/Pipe/Whole.antt =====
-- A link whose frames have all been taken has delivered all bytes.
use cwnd_warm_up_proxy.Prelude.{
  ℕ, ◌^◌, ◌<◌, ◌≡◌, sym, ap, subst, ◌∙◌, List, [], ◌∷◌, true, some, length, All, Bool-cases, inl,
  inr, ◌==◌, ==_iff, arith,
}
use cwnd_warm_up_proxy.Reorder
use cwnd_warm_up_proxy.Reorder.Deliver.{chunk_bytes}
use cwnd_warm_up_proxy.Reorder.Receive.{Packet}
use cwnd_warm_up_proxy.Reorder.Complete.{Covers}
use cwnd_warm_up_proxy.Reorder.Whole.{is_taken, receive_taken}
use cwnd_warm_up_proxy.Pipe.{Event, new_link, run, IsRead}
use cwnd_warm_up_proxy.Pipe.Cuts.{cut_of}
use cwnd_warm_up_proxy.Pipe.Run.{new_link-Cuts, run-Cuts}

-- What holds of every frame's number holds of every cut.
every_cut :
    (P : ℕ → Type 0) (fs : List Packet) (k : ℕ) (p : List ℕ)
    → All (λ (f : Packet). P f.seq) fs
    → cut_of fs k ≡ some p
    → P k
every_cut P [] k p h e = absurd (ground (arith, e))
every_cut P (f ∷ fs) k p h e = elim (Bool-cases (f.seq == k)) [
  | inl here ↦ subst P ((==_iff f.seq k).0 here) h.0
  | inr later ↦ every_cut P fs k p h.1 (ground (arith, e, later))
]

-- If the receiver has taken each frame that the sender has queued, at some time and in whatever order and
-- number, then it has handed on all bytes that were sent. Each read yields fewer than 2 ^ 32 bytes, and
-- some unless it is at the end; fewer than 2 ^ 64 are sent.
pub run_whole :
    (window id capacity : ℕ) (events : List Event)
    → All IsRead events
    → let l = run events (new_link window id capacity) in
      length l.sent < 2 ^ 64
      → All (λ (f : Packet). is_taken f.seq (Reorder.new capacity) l.arrivals ≡ true) l.history
      → chunk_bytes l.chunks ≡ l.sent
run_whole window id capacity events fine short taken =
    let l = run events (new_link window id capacity) in
    let c =
      run-Cuts capacity events (new_link window id capacity) fine short
        (new_link-Cuts window id capacity) in
    let cov : Covers l.sent (cut_of l.history) short = record {
      first = c.tiles.first;
      follows = c.tiles.follows;
    } in
    ap (λ t. chunk_bytes t.1) (sym c.receiver)
    ∙ receive_taken l.sent (cut_of l.history) short capacity l.arrivals cov c.arrivals (λ k st.
      every_cut (λ n. is_taken n (Reorder.new capacity) l.arrivals ≡ true) l.history k st.0 taken
        st.1)
