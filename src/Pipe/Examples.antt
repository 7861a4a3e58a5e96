-- ===== src/Pipe/Examples.antt =====
-- Two frames, the second with the end, that arrive in the wrong order.
use cwnd_warm_up_proxy.Prelude.{◌≡◌, refl, ap, List, [], ◌∷◌, true, false, length, arith}
use cwnd_warm_up_proxy.Prelude.Table.{lookup, insert, delete}
use cwnd_warm_up_proxy.Reorder
use cwnd_warm_up_proxy.Reorder.{push, push_at, push_new, store, pop_ready, pop_loop, pop_one}
use cwnd_warm_up_proxy.Window
use cwnd_warm_up_proxy.Window.{acquire}
use cwnd_warm_up_proxy.Stream.{new_stream}
use cwnd_warm_up_proxy.Stream.Send.{data_frame, entry_of, enter, settle, queue, queue_frame}
use cwnd_warm_up_proxy.Pipe.{
  PipeStep, Link, Event, reads, arrives, new_link, view, commit, read, arrive, step, run,
}
use cwnd_warm_up_proxy.Prelude.{All}
use cwnd_warm_up_proxy.Reorder.Deliver.{chunk_bytes}
use cwnd_warm_up_proxy.Reorder.Receive.{Packet}
use cwnd_warm_up_proxy.Reorder.Whole.{is_taken}
use cwnd_warm_up_proxy.Pipe.Whole.{run_whole}
use cwnd_warm_up_proxy.Pipe.Refine.{step-PipeStep}

abbrev two_frames : List Event
two_frames = reads (1 ∷ 2 ∷ 3 ∷ []) false ∷ reads (4 ∷ 5 ∷ []) true ∷ arrives 1 ∷ []

abbrev after_two : Link
after_two = run two_frames (new_link 10 1 20)

five_sent : (step (arrives 0) after_two).sent ≡ (1 ∷ 2 ∷ 3 ∷ 4 ∷ 5 ∷ [])
unfolding run step read commit arrive new_link new_stream Window.new acquire queue_frame queue
    settle enter entry_of data_frame push push_at push_new Reorder.new lookup insert delete
five_sent = refl

step-PipeStep_example : PipeStep (view after_two) (view (step (arrives 0) after_two))
step-PipeStep_example =
    step-PipeStep 10 1 20 two_frames (arrives 0)
      ((omega arith, λ _. omega arith), ((omega arith, λ e. omega arith), (tt, tt))) tt
      (omega (arith, ap length five_sent))

-- The first frame arrives as well.
abbrev both_arrived : List Event
both_arrived = reads (1 ∷ 2 ∷ 3 ∷ []) false ∷ reads (4 ∷ 5 ∷ []) true ∷ arrives 1 ∷ arrives 0 ∷ []

abbrev after_both : Link
after_both = run both_arrived (new_link 10 1 20)

after_both-sent : after_both.sent ≡ (1 ∷ 2 ∷ 3 ∷ 4 ∷ 5 ∷ [])
unfolding run step read commit arrive new_link new_stream Window.new acquire queue_frame queue
    settle enter entry_of data_frame push push_at push_new Reorder.new lookup insert delete
after_both-sent = refl

after_both-taken :
    All
      (λ (f : Packet). is_taken f.seq (Reorder.new 20) after_both.arrivals ≡ true)
      after_both.history
unfolding run step read commit arrive new_link new_stream Window.new acquire queue_frame queue
    settle enter entry_of data_frame push push_at push_new store pop_ready pop_loop pop_one
    Reorder.new lookup insert delete
after_both-taken = (refl, (refl, tt))

run_whole_example : chunk_bytes after_both.chunks ≡ after_both.sent
run_whole_example =
    run_whole 10 1 20 both_arrived
      ((omega arith, λ _. omega arith), ((omega arith, λ e. omega arith), (tt, (tt, tt))))
      (omega (arith, ap length after_both-sent)) after_both-taken
