-- ===== src/Session/Examples.antt =====
-- A session for two subflows, of which one breaks and is dialled again, and streams that come and go.
use cwnd_warm_up_proxy.Prelude.{
  ℕ, ◌+◌, ◌≤◌, ◌<◌, ◌≡◌, refl, inr, List, [], ◌∷◌, true, false, none, some, length, arith, ◌==◌,
  if◌then◌else◌,
}
use cwnd_warm_up_proxy.Prelude.{map, not, ◌&&◌, ◌++◌}
use cwnd_warm_up_proxy.Scheduler.{attach}
use cwnd_warm_up_proxy.Scheduler.Valid.{new-IsValid, attach-IsValid}
use cwnd_warm_up_proxy.Stream.{PendingEntry}
use cwnd_warm_up_proxy.Stream.Send.{mark}
use cwnd_warm_up_proxy.Stream.Ack.{
  ack_covers_entry, some_range_covers, should_retransmit_entry, compute_ack_holes, holes_from,
  some_hole_meets,
}
use cwnd_warm_up_proxy.Stream.Pending.{keep}
use cwnd_warm_up_proxy.Session.Dispatch.{Serving, serve_ack}
use cwnd_warm_up_proxy.Session.Dispatch.Resends.{CanSend, frames_sent, serve_ack-frames}
use cwnd_warm_up_proxy.Protocol.{AckPayload}
use cwnd_warm_up_proxy.Prelude.Int.{pos}
use cwnd_warm_up_proxy.Prelude.Table.{lookup}
use cwnd_warm_up_proxy.Protocol.{Frame, frame_data}
use cwnd_warm_up_proxy.Stream.{new_stream, no_subflow}
use cwnd_warm_up_proxy.Session.{server}
use cwnd_warm_up_proxy.Session.Send.{Environment, empty_frame, send_frame}
use cwnd_warm_up_proxy.Session.Control.{get_stream}
use cwnd_warm_up_proxy.Session.Dispatch.{dispatch_frame, handle_data_frame, for_stream}
use cwnd_warm_up_proxy.Session.Dispatch.Other.{dispatch_frame-Agrees}
use cwnd_warm_up_proxy.Session.Open.{Attempt, connected, not_dialled, establish, request_stream}
use cwnd_warm_up_proxy.Session.Open.Fresh.{
  Event, opens, arrives, step, run, streams_opened, started, request_stream_fresh,
}
use cwnd_warm_up_proxy.Session.Open.Establish.{ComesTo, undisturbed, establish_lem}
use cwnd_warm_up_proxy.Scheduler
use cwnd_warm_up_proxy.Session.{
  Session, client, new_session, on_subflow_error, register_subflow, remove_subflow,
  prepare_subflow_spawn, delete_id,
}
use cwnd_warm_up_proxy.Session.Spawn.{
  Dialling, dials, here, next, breaks, connects, Steps_within_target,
}

abbrev two_up : Session
two_up = record (new_session client 7 1000 true 2 0) { subflows = 0 ∷ 1 ∷ []; next_subflow_id = 2 }

two_up-fits : length two_up.subflows + two_up.pending_spawns ≤ two_up.target
unfolding new_session
two_up-fits = omega arith

abbrev one_down : Dialling
one_down = dials [] (on_subflow_error two_up 0)

one_down_ids : one_down.ids ≡ (2 ∷ [])
unfolding on_subflow_error remove_subflow prepare_subflow_spawn delete_id new_session
one_down_ids = refl

Steps_within_target_example :
    length (register_subflow one_down.session 2).subflows + length {A = ℕ} [] ≤ 2
unfolding new_session
Steps_within_target_example =
    Steps_within_target two_up (omega arith)
      (next (next here (breaks 0)) (connects [] 2 [] one_down_ids))

-- Connections that take everything, at time 0.
abbrev quiet : Environment
quiet = record {
  goodput = λ _. pos 0;
  transmit = λ _ _. none;
  dial = λ _. none;
  now = 0;
  taken = 0;
}

-- A DATA frame of the end of stream 4.
abbrev end_frame : Frame
end_frame = record empty_frame {
  version = 1;
  frame_type = frame_data;
  flags = 1;
  session_id = 7;
  stream_id = 4;
}

-- The server has streams 3 and 4.
abbrev serving : Session
serving = record (new_session server 7 1000 false 0 0) {
  streams = (3, new_stream 1000 3) ∷ (4, new_stream 1000 4) ∷ [];
}

dispatch_frame-Agrees_example :
    get_stream (dispatch_frame quiet 9 0 end_frame serving) 3 ≡ get_stream serving 3
dispatch_frame-Agrees_example =
    dispatch_frame-Agrees quiet 9 0 end_frame serving 3 (λ e. absurd (omega (arith, e)))

-- A client opens a stream, has a frame for a stream that it does not know, and opens another.
abbrev two_opened : List Event
two_opened = opens quiet [] ∷ arrives quiet 9 0 end_frame ∷ opens quiet [] ∷ []

two_opened_ids : streams_opened two_opened ≡ 2
two_opened_ids = refl

two_opened-running : (run two_opened (started 1000 2 7)).closed ≡ false
unfolding run step started request_stream send_frame dispatch_frame handle_data_frame for_stream
    lookup Scheduler.next Scheduler.new new_session
two_opened-running = refl

request_stream_fresh_example :
    let s = run two_opened (started 1000 2 7) in
    let asked = (request_stream quiet [] s).0 in
    (get_stream s 3 ≡ none)
    × (get_stream asked 3 ≡ some (new_stream s.initial_window 3))
    × (get_stream asked 1 ≡ get_stream s 1)
request_stream_fresh_example =
    request_stream_fresh 1000 2 7 two_opened quiet [] 1 (omega arith) two_opened-running
      (λ e. absurd (omega (arith, e)))

-- The third of four subflows cannot be dialled.
abbrev third_fails : ℕ → Attempt
third_fails i = if i == 2 then not_dialled no_subflow else connected

third_fails_first : (j : ℕ) → j < 2 → third_fails j ≡ connected
third_fails_first j l = ground arith

establish_lem_example :
    let c = new_session client 0 1000 true 4 7 in
    ComesTo c 2 (some no_subflow) (establish 0 4 third_fails undisturbed c)
establish_lem_example =
    establish_lem 1000 4 7 4 2 third_fails (some no_subflow) third_fails_first
      (inr (omega arith, refl, λ e. absurd (ground (arith, e))))

-- A client with one subflow, and a stream whose second frame is missing at the peer.
abbrev one_subflow : Session
one_subflow = register_subflow (new_session client 0 1000 true 1 7) 0

one_subflow-CanSend : CanSend one_subflow
unfolding register_subflow new_session attach Scheduler.new
one_subflow-CanSend = record {
  valid = attach-IsValid Scheduler.new 0 new-IsValid;
  some_subflow = omega arith;
}

abbrev six_bytes : PendingEntry
six_bytes = record { address = 3; seq = 8; length = 6; frame = empty_frame; last_send = some 0 }

abbrev waiting_stream : Serving
waiting_stream = record {
  session = one_subflow;
  stream = record (new_stream 1000 1) { pending = six_bytes ∷ [] };
}

abbrev gap_ack : AckPayload
gap_ack = record { ack_seq = 8; credit = 0; ranges = record { start = 14; end = 20 } ∷ [] }

abbrev later : Environment
later = record quiet { now = 60000000 }

serve_ack-frames_example :
    frames_sent (serve_ack later gap_ack waiting_stream).session
    ≡ frames_sent one_subflow
      ++ map
          (λ e. (mark one_subflow.id true e).frame)
          (keep
            (λ e.
              not (ack_covers_entry gap_ack e)
              && should_retransmit_entry e (compute_ack_holes gap_ack) 60000000)
            waiting_stream.stream.pending)
serve_ack-frames_example = serve_ack-frames later gap_ack waiting_stream one_subflow-CanSend

test_one_resent :
    keep
      (λ e.
        not (ack_covers_entry gap_ack e)
        && should_retransmit_entry e (compute_ack_holes gap_ack) 60000000)
      waiting_stream.stream.pending
    ≡ six_bytes ∷ []
unfolding keep ack_covers_entry some_range_covers should_retransmit_entry compute_ack_holes
    holes_from some_hole_meets
test_one_resent = refl
