-- ===== src/Subflow/Examples.antt =====
-- A subflow with fresh counters that sends three bytes of payload, and connections to read.
use cwnd_warm_up_proxy.Prelude.{
  ◌+◌, ◌*◌, ◌≤◌, ◌≡◌, refl, [], ◌∷◌, true, none, some, false, map, length, arith,
}
use cwnd_warm_up_proxy.Protocol.{Frame, JsonCodec, frame_data, header_size, eof}
use cwnd_warm_up_proxy.Protocol.Io.{write, counting_write}
use cwnd_warm_up_proxy.Protocol.Encode.{
  header_bytes, payload_bytes, encode, encode_payload, write_frame, write_payload, write_trailer,
  record_length,
}
use cwnd_warm_up_proxy.Protocol.RoundTrip.{data_body, received}
use cwnd_warm_up_proxy.Subflow.Transfer.{
  Ending, unreadable, finish_send, send, send_first, send_all, run,
}
use cwnd_warm_up_proxy.Subflow.Transfer.Ends.{run_ends}
use cwnd_warm_up_proxy.Subflow.Transfer.Channel.{IsSendable, run-send_all}
use cwnd_warm_up_proxy.Metrics.{SlidingCounter, new}
use cwnd_warm_up_proxy.Metrics.Recent.{IsReady}
use cwnd_warm_up_proxy.Subflow.{Subflow, record_send}
use cwnd_warm_up_proxy.Subflow.Counted.{shown, AreReady, record_send_counts}

abbrev fresh : SlidingCounter
fresh = new 10 2

fresh-IsReady : IsReady 5 fresh
unfolding new
fresh-IsReady = record {
  ring = record { index = omega arith; current = refl };
  step = omega arith;
  fits = omega arith;
  past = tt;
}

abbrev idle : Subflow
idle = record { tx_real = fresh; tx_dummy = fresh; rx_real = fresh; rx_dummy = fresh }

idle-AreReady : AreReady 5 idle
idle-AreReady = record {
  tx_real = fresh-IsReady;
  tx_dummy = fresh-IsReady;
  rx_real = fresh-IsReady;
  rx_dummy = fresh-IsReady;
}

abbrev three_bytes : Frame
three_bytes = record {
  version = 1;
  frame_type = frame_data;
  flags = 0;
  session_id = 5;
  stream_id = 9;
  seq = 0;
  payload = 1 ∷ 2 ∷ 3 ∷ [];
  checksum = 0;
  is_duplicate = false;
  wire_length = 0;
  ack = none;
  control = none;
  heartbeat = none;
}

record_send_counts_example :
    let t = (record_send idle three_bytes 27 5).0 in
    (shown 5 t.tx_real ≡ shown 5 fresh + 3)
    × (shown 5 t.tx_real + shown 5 t.tx_dummy ≡ shown 5 fresh + shown 5 fresh + 27)
record_send_counts_example =
    record_send_counts idle three_bytes 27 5 idle-AreReady (λ _. omega arith)

-- A codec that nothing asks: the frames are DATA.
abbrev no_codec : JsonCodec
no_codec = record { marshal = λ _. none; unmarshal = λ _. none }

-- A connection that ends inside a header.
run_ends_example :
    let r = run no_codec true (λ _. 5) 4 (1 ∷ 1 ∷ 0 ∷ []) idle in
    (e : Ending) × (r.ending ≡ some e) × (header_size * length r.handed ≤ 3)
run_ends_example = run_ends no_codec true (λ _. 5) 4 (1 ∷ 1 ∷ 0 ∷ []) idle (omega arith)

three_bytes-IsSendable : IsSendable no_codec true three_bytes
three_bytes-IsSendable = record {
  header = record {
    supported = refl;
    session_id = omega arith;
    stream_id = omega arith;
    seq = omega arith;
  };
  body = data_body refl (omega arith);
  lossless = λ c p h k. absurd (ground (arith, h));
  flags = omega arith;
}

two_frames_fit :
    (send_all no_codec true 5
      (three_bytes ∷ three_bytes ∷ [])
      (record { accepted = []; room = 100 })
      idle).2
    ≡ none
unfolding send_all send_first send finish_send record_send encode encode_payload payload_bytes
    write_frame write_payload write_trailer record_length counting_write write header_bytes
two_frames_fit = refl

run-send_all_example :
    let frames = three_bytes ∷ three_bytes ∷ [] in
    let out = send_all no_codec true 5 frames (record { accepted = []; room = 100 }) idle in
    let back = run no_codec true (λ _. 5) 3 out.1.accepted idle in
    (back.handed ≡ map received out.0) × (back.ending ≡ some (unreadable eof))
run-send_all_example =
    run-send_all no_codec true 5 100 (three_bytes ∷ three_bytes ∷ []) idle idle (λ _. 5) 3
      (three_bytes-IsSendable, (three_bytes-IsSendable, tt)) two_frames_fit (omega arith)
