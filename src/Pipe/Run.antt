-- ===== src/Pipe/Run.antt =====
-- Each step of a link keeps its frames cuts of what was queued, and only adds to what was sent.
use cwnd_warm_up_proxy.Prelude.{
  ℕ, ◌^◌, ◌≤◌, ◌<◌, ◌≡◌, refl, subst, List, [], ◌∷◌, Bool, Option, none, some, length,
  length-append, take, get_elem?, All, arith,
}
use cwnd_warm_up_proxy.Reorder.Deliver.{chunk_bytes}
use cwnd_warm_up_proxy.Reorder.Receive.{Packet, receive, receive_prefix}
use cwnd_warm_up_proxy.Stream.{Stream, new_stream}
use cwnd_warm_up_proxy.Stream.Send.{Queued, queued, already_closed, blocked, queue, queue_frame}
use cwnd_warm_up_proxy.Pipe.{
  Link, new_link, Event, reads, wakes, sends, acks, closes, arrives, commit, read, wake, arrive,
  step, run, IsRead,
}
use cwnd_warm_up_proxy.Pipe.Front.{send_queued-SameFront, on_ack-SameFront, close_stream-SameFront}
use cwnd_warm_up_proxy.Pipe.Kept.{Cuts, front-Cuts, read-Cuts, wake-Cuts, arrive-Cuts}
use cwnd_warm_up_proxy.Pipe.Tiles.{no-Tiles}
use cwnd_warm_up_proxy.Pipe.Cuts.{cut_of}

module _ (capacity : ℕ) where
  pub step-Cuts :
      (event : Event) (l : Link)
      → IsRead event
      → length (step event l).sent < 2 ^ 64
      → Cuts capacity l
      → Cuts capacity (step event l)
  unfolding step
  step-Cuts (reads payload end) l r short c =
      read-Cuts capacity l payload end l.waiting refl c r short
  step-Cuts wakes l r short c = wake-Cuts capacity l l.waiting refl c short
  step-Cuts (sends session_id now entry outcome) l r short c =
      front-Cuts capacity l _ c (send_queued-SameFront l.sender session_id now entry outcome)
  step-Cuts (acks send session_id now ack) l r short c =
      front-Cuts capacity l _ c (on_ack-SameFront send session_id now ack l.sender)
  step-Cuts (closes e) l r short c = front-Cuts capacity l _ c (close_stream-SameFront l.sender e)
  step-Cuts (arrives i) l r short c = arrive-Cuts capacity l (get_elem? l.history i) i refl c

  commit-grows :
      (payload : List ℕ) (end : Bool) (l : Link) (r : Stream × Queued)
      → length l.sent ≤ length (commit payload end l r).sent
  unfolding commit
  commit-grows payload end l (s, queued entry) = omega (arith, length-append l.sent payload)
  commit-grows payload end l (s, already_closed) = omega arith
  commit-grows payload end l (s, blocked) = omega arith

  read-grows :
      (payload : List ℕ) (end : Bool) (l : Link) (w : Option (List ℕ × Bool))
      → length l.sent ≤ length (read payload end l w).sent
  unfolding read
  read-grows payload end l none = commit-grows payload end l (queue_frame l.sender payload end)
  read-grows payload end l (some w) = omega arith

  wake-grows : (l : Link) (w : Option (List ℕ × Bool)) → length l.sent ≤ length (wake l w).sent
  unfolding wake
  wake-grows l none = omega arith
  wake-grows l (some (payload, end)) = commit-grows payload end l (queue l.sender payload end)

  arrive-grows : (l : Link) (f : Option Packet) → length l.sent ≤ length (arrive l f).sent
  unfolding arrive
  arrive-grows l none = omega arith
  arrive-grows l (some f) = omega arith

  pub step-grows : (event : Event) (l : Link) → length l.sent ≤ length (step event l).sent
  unfolding step
  step-grows (reads payload end) l = read-grows payload end l l.waiting
  step-grows wakes l = wake-grows l l.waiting
  step-grows (sends session_id now entry outcome) l = omega arith
  step-grows (acks send session_id now ack) l = omega arith
  step-grows (closes e) l = omega arith
  step-grows (arrives i) l = arrive-grows l (get_elem? l.history i)

  run-grows : (events : List Event) (l : Link) → length l.sent ≤ length (run events l).sent
  unfolding run
  run-grows [] l = omega arith
  run-grows (event ∷ events) l = omega (arith, step-grows event l, run-grows events (step event l))

  pub run-Cuts :
      (events : List Event) (l : Link)
      → All IsRead events
      → length (run events l).sent < 2 ^ 64
      → Cuts capacity l
      → Cuts capacity (run events l)
  unfolding run
  run-Cuts [] l r short c = c
  run-Cuts (event ∷ events) l r short c =
      run-Cuts events (step event l) r.1 short
        (step-Cuts event l r.0 (omega (arith, run-grows events (step event l), short)) c)

  -- The receiver has handed on a front of what was sent.
  pub received_front :
      (l : Link)
      → length l.sent < 2 ^ 64
      → Cuts capacity l
      → chunk_bytes l.chunks ≡ take l.receiver.next l.sent
  received_front l short c =
      subst (λ t. chunk_bytes t.1 ≡ take t.0.next l.sent) c.receiver
        (receive_prefix l.sent (cut_of l.history) short capacity l.arrivals c.arrivals)

pub new_link-Cuts : (window id capacity : ℕ) → Cuts capacity (new_link window id capacity)
unfolding new_link receive new_stream
new_link-Cuts window id capacity = record {
  seq = refl;
  history = tt;
  arrivals = tt;
  tiles = no-Tiles;
  early = λ _. tt;
  opens = λ _. (tt, tt);
  waits = tt;
  receiver = refl;
}
