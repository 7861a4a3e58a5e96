-- ===== src/Pipe/Refine.antt =====
-- The link from sender to receiver refines the pipe of bytes.
use cwnd_warm_up_proxy.Prelude.{
  ℕ, suc, ◌^◌, ◌<◌, ◌≡◌, refl, sym, ap, subst, ◌∙◌, inl, inr, List, [], ◌∷◌, ◌++◌, append_assoc,
  Bool, true, false, not, ◌||◌, Option, none, some, length, length-append, take-append-drop,
  take_all, drop, get_elem?, All, Bool-cases, if◌then◌else◌, arith,
}
use cwnd_warm_up_proxy.Reorder.{Chunk, ReorderBuffer, push}
use cwnd_warm_up_proxy.Reorder
use cwnd_warm_up_proxy.Reorder.Deliver.{new-Holds, chunk_bytes, chunks_of}
use cwnd_warm_up_proxy.Reorder.Receive.{Packet, chunk_bytes-append}
use cwnd_warm_up_proxy.Stream.{PendingEntry, Stream}
use cwnd_warm_up_proxy.Stream.Send.{Queued, queued, already_closed, blocked, queue, queue_frame}
use cwnd_warm_up_proxy.Stream.Data.{is_end}
use cwnd_warm_up_proxy.Pipe.{
  PipeStep, stays, puts, ends, gives, finishes, any_last, Link, new_link, view, Event, reads, wakes,
  sends, acks, closes, arrives, packet_of, commit, read, wake, arrive, step, run, IsRead,
}
use cwnd_warm_up_proxy.Pipe.Kept.{Cuts, is_waiting, or_true}
use cwnd_warm_up_proxy.Reorder.Last.{any_end, any_end-append, receive_end}
use cwnd_warm_up_proxy.Pipe.Cuts.{All-both, cut_of, none_last, any_last-append, IsCut, IsCut-grow}
use cwnd_warm_up_proxy.Pipe.Run.{new_link-Cuts, step-Cuts, step-grows, run-Cuts, received_front}

-- A frame is queued, while the history is open.
queued-PipeStep :
    (l : Link) (s : Stream) (entry : PendingEntry) (payload : List ℕ) (end : Bool)
    → any_last l.history ≡ false
    → PipeStep (view l) (view (commit payload end l (s, queued entry)))
unfolding commit
queued-PipeStep l s entry payload end more =
    let joined = any_last-append l.history (packet_of entry.frame) in
    elim (Bool-cases (is_end entry.frame)) [
      | inl last ↦
          subst (λ b. PipeStep (view l) (record (view l) { sent = l.sent ++ payload; ended = b }))
            (ground (arith, joined, last)) (ends payload more)
      | inr not_last ↦
          subst (λ b. PipeStep (view l) (record (view l) { sent = l.sent ++ payload; ended = b }))
            (ground (arith, joined, more, not_last)) (puts payload more)
    ]

commit-PipeStep :
    (payload : List ℕ) (end : Bool) (l : Link) (r : Stream × Queued)
    → any_last l.history ≡ false
    → PipeStep (view l) (view (commit payload end l r))
unfolding commit
commit-PipeStep payload end l (s, queued entry) more = queued-PipeStep l s entry payload end more
commit-PipeStep payload end l (s, already_closed) more = stays
commit-PipeStep payload end l (s, blocked) more = stays

read-PipeStep :
    (payload : List ℕ) (end : Bool) (l : Link) (s : Stream) (closed : Bool)
    → (closed ≡ false → any_last l.history ≡ false)
    → PipeStep (view l) (
        view (
          commit payload end l
            (if closed then (l.sender, already_closed) else queue s payload end)))
unfolding commit
read-PipeStep payload end l s true more = stays
read-PipeStep payload end l s false more =
    commit-PipeStep payload end l (queue s payload end) (more refl)

module _ (capacity : ℕ) (l : Link) (c : Cuts capacity l) where
  reads-PipeStep :
      (payload : List ℕ) (end : Bool) (w : Option (List ℕ × Bool))
      → PipeStep (view l) (view (read payload end l w))
  unfolding read queue_frame
  reads-PipeStep payload end (some w) = stays
  reads-PipeStep payload end none =
      read-PipeStep payload end l (if end then record l.sender { send_closed = true } else l.sender)
        l.sender.send_closed
        (λ open_end.
          none_last l.history
            (c.opens (ap (λ closed. not closed || is_waiting l.waiting) open_end)).0)

  wakes-PipeStep :
      (w : Option (List ℕ × Bool)) → l.waiting ≡ w → PipeStep (view l) (view (wake l w))
  unfolding wake
  wakes-PipeStep none e = stays
  wakes-PipeStep (some (payload, end)) e =
      let opens = c.opens (
        ap (λ w. not l.sender.send_closed || is_waiting w) e
        ∙ or_true (not l.sender.send_closed)) in
      commit-PipeStep payload end l (queue l.sender payload end) (none_last l.history opens.0)

module _ (capacity : ℕ) (l : Link) (c : Cuts capacity l) (short : suc (length l.sent) < 2 ^ 64)
    (finished : any_end l.chunks ≡ true) where
  finished_by :
      (stream : List ℕ) (history : List Packet)
      → length stream < 2 ^ 64
      → All (IsCut stream history) l.arrivals
      → l.receiver.next ≡ length stream
  finished_by stream history fits cuts =
      subst (λ t. any_end t.1 ≡ true → t.0.next ≡ length stream) c.receiver
        (receive_end stream (cut_of history) fits l.arrivals (Reorder.new capacity)
          (new-Holds stream (cut_of history) capacity) cuts)
        finished

  -- The receiver hands on the last chunk only behind all bytes.
  finished_all : chunk_bytes l.chunks ≡ l.sent
  finished_all =
      let at = finished_by l.sent l.history (omega (arith, short)) c.arrivals in
      received_front capacity l (omega (arith, short)) c
      ∙ take_all l.receiver.next l.sent (omega (arith, at))

  -- And only if the sender has ended: else the frames were cuts of a longer stream as well.
  finished_ended : any_last l.history ≡ true
  finished_ended = elim (Bool-cases (any_last l.history)) [
    | inl last ↦ last
    | inr more ↦
        let longer = l.sent ++ (0 ∷ []) in
        let size = length-append l.sent (0 ∷ []) in
        let cuts =
          All-both {P = IsCut l.sent l.history} {Q = λ f. f.end ≡ false}
            {R = IsCut longer (l.history ++ [])} l.arrivals
            (λ f cut open_end. IsCut-grow l.sent (0 ∷ []) l.history [] f open_end cut) c.arrivals
            (c.early more) in
        let at = finished_by l.sent l.history (omega (arith, short)) c.arrivals in
        let beyond = finished_by longer (l.history ++ []) (omega (arith, short, size)) cuts in
        absurd (omega (arith, at, beyond, size))
  ]

arrives-PipeStep :
    (capacity : ℕ) (l : Link) (f : Option Packet)
    → suc (length (arrive l f).sent) < 2 ^ 64
    → Cuts capacity (arrive l f)
    → PipeStep (view l) (view (arrive l f))
unfolding arrive
arrives-PipeStep capacity l none short c = stays
arrives-PipeStep capacity l (some f) short c =
    let m = arrive l (some f) in
    let fresh = chunks_of (push l.receiver f.seq f.payload f.end).1 in
    let bytes = chunk_bytes fresh in
    let joined = chunk_bytes-append l.chunks fresh in
    let told = any_end-append l.chunks fresh in
    let front = received_front capacity m (omega (arith, short)) c in
    elim (Bool-cases (any_end fresh)) [
      | inl last ↦
          let over : any_end (l.chunks ++ fresh) ≡ true = ground (arith, told, last) in
          subst
            (λ r.
              PipeStep (view l)
                (record (view l) { received = r; finished = any_end (l.chunks ++ fresh) }))
            (sym joined)
            (subst
              (λ b.
                PipeStep (view l)
                  (record (view l) { received = chunk_bytes l.chunks ++ bytes; finished = b }))
              (sym over)
              (finishes bytes (finished_ended capacity m c short over)
                (sym (finished_all capacity m c short over) ∙ joined)))
      | inr more ↦
          let same : any_end (l.chunks ++ fresh) ≡ any_end l.chunks = ground (arith, told, more) in
          let later = drop m.receiver.next l.sent in
          let whole : l.sent ≡ chunk_bytes l.chunks ++ (bytes ++ later) =
            sym (take-append-drop m.receiver.next l.sent)
            ∙ ap (λ r. r ++ later) (sym front ∙ joined)
            ∙ append_assoc (chunk_bytes l.chunks) bytes later in
          subst
            (λ r.
              PipeStep (view l)
                (record (view l) { received = r; finished = any_end (l.chunks ++ fresh) }))
            (sym joined)
            (subst
              (λ b.
                PipeStep (view l)
                  (record (view l) { received = chunk_bytes l.chunks ++ bytes; finished = b }))
              (sym same) (gives bytes later whole))
    ]

one_step :
    (capacity : ℕ) (event : Event) (l : Link)
    → Cuts capacity l
    → Cuts capacity (step event l)
    → suc (length (step event l).sent) < 2 ^ 64
    → PipeStep (view l) (view (step event l))
unfolding step
one_step capacity (reads payload end) l c d short =
    reads-PipeStep capacity l c payload end l.waiting
one_step capacity wakes l c d short = wakes-PipeStep capacity l c l.waiting refl
one_step capacity (sends session_id now entry outcome) l c d short = stays
one_step capacity (acks send session_id now ack) l c d short = stays
one_step capacity (closes e) l c d short = stays
one_step capacity (arrives i) l c d short =
    arrives-PipeStep capacity l (get_elem? l.history i) short d

-- However the sender reads, waits for credit, sends, hears ACKs and closes, and whichever of its frames
-- arrive, in whatever order, again and again or never: each step of the link is a step of a pipe of bytes.
-- It puts the bytes of one read in at the end, the last of them with the end; or gives the next bytes out;
-- or gives the last ones and tells of the end; or leaves the pipe as it is. Each read yields fewer than
-- 2 ^ 32 bytes, and some unless it is at the end; fewer than 2 ^ 64 - 1 bytes are sent.
pub step-PipeStep :
    (window id capacity : ℕ) (events : List Event) (event : Event)
    → All IsRead events
    → IsRead event
    → let l = run events (new_link window id capacity) in
      suc (length (step event l).sent) < 2 ^ 64 → PipeStep (view l) (view (step event l))
step-PipeStep window id capacity events event fine r short =
    let l = run events (new_link window id capacity) in
    let grows = step-grows capacity event l in
    let c =
      run-Cuts capacity events (new_link window id capacity) fine (omega (arith, short, grows))
        (new_link-Cuts window id capacity) in
    one_step capacity event l c (step-Cuts capacity event l r (omega (arith, short)) c) short
