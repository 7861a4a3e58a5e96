-- ===== src/Proxy/Examples.antt =====
-- A SOCKS client asks a session with one subflow for port 443 of a host.
use cwnd_warm_up_proxy.Prelude.{
  ℕ, ◌≡◌, refl, List, [], ◌∷◌, ◌++◌, true, false, none, some, Option, sym, ap, ◌∙◌, get_elem?,
  arith,
}
use cwnd_warm_up_proxy.Prelude.Int.{pos}
use cwnd_warm_up_proxy.Prelude.Results.{ok}
use cwnd_warm_up_proxy.Protocol.{
  Frame, JsonCodec, ControlPayload, Fields, field, text, control_stream_open,
}
use cwnd_warm_up_proxy.Protocol.Io.{Writer, counting_write, write}
use cwnd_warm_up_proxy.Protocol.Encode.{
  encode, encode_payload, payload_bytes, write_frame, write_payload, write_trailer, record_length,
  header_bytes,
}
use cwnd_warm_up_proxy.Protocol.Decode.{decode}
use cwnd_warm_up_proxy.Protocol.RoundTrip.{control_body}
use cwnd_warm_up_proxy.Subflow.Transfer.{flagged}
use cwnd_warm_up_proxy.Subflow.Transfer.Channel.{IsSendable}
use cwnd_warm_up_proxy.Session.Send.{control_payload}
use cwnd_warm_up_proxy.Session.Control.{target_key, target_of, put_stream}
use cwnd_warm_up_proxy.Session.Open.{next_stream_id}
use cwnd_warm_up_proxy.Scheduler
use cwnd_warm_up_proxy.Scheduler.{Entry, attach}
use cwnd_warm_up_proxy.Scheduler.Valid.{IsValid, new-IsValid, attach-IsValid}
use cwnd_warm_up_proxy.Socks.{Connection, Host, domain, Destination}
use cwnd_warm_up_proxy.Socks.Client.{greeting_bytes, request_bytes}
use cwnd_warm_up_proxy.Socks.Accepts.{IsDestination}
use cwnd_warm_up_proxy.Session.{Session, client, server, new_session, register_subflow}
use cwnd_warm_up_proxy.Session.Send.{Environment}
use cwnd_warm_up_proxy.Session.Control.{create_stream, opened, handle_control_frame}
use cwnd_warm_up_proxy.Proxy.{asked, handle_socks}
use cwnd_warm_up_proxy.Proxy.Target.{open_request, handle_socks_dials}

abbrev quiet : Environment
quiet = record {
  goodput = λ _. pos 0;
  transmit = λ _ _. none;
  dial = λ _. none;
  now = 0;
  taken = 0;
}

abbrev name_of : Host → List ℕ
name_of (domain name) = name
name_of _ = []

-- A host name without its port.
abbrev print : Destination → List ℕ
print d = name_of d.host

abbrev two_letters : Destination
two_letters = record { host = domain (97 ∷ 98 ∷ []); port = 443 }

two_letters-IsDestination : IsDestination two_letters
two_letters-IsDestination = record { host = omega arith; port = omega arith }

abbrev asking : Connection
asking = record {
  reader = greeting_bytes ++ (request_bytes two_letters ++ (9 ∷ []));
  writer = record { accepted = []; room = 20 };
}

abbrev connected : Session
connected = register_subflow (new_session client 0 1000 true 1 7) 0

connected-IsValid : IsValid connected.scheduler
unfolding register_subflow new_session
connected-IsValid = attach-IsValid Scheduler.new 0 new-IsValid

abbrev only : Entry
only = record { ref = 0; weight = 1; quota = 1 }

connected_only : get_elem? connected.scheduler.entries connected.scheduler.position ≡ some only
unfolding register_subflow new_session Scheduler.new attach
connected_only = refl

abbrev far : Session
far = new_session server 7 1000 false 0 0

-- A codec for the requests of stream 1, which keeps their target.
abbrev request_for : List ℕ → ControlPayload
request_for target = record (control_payload control_stream_open) {
  stream_id = 1;
  metadata = field target_key (text target) Fields.end;
}

abbrev target_codec : JsonCodec
unfolding target_of
target_codec = record {
  marshal = λ control. some (target_of control.metadata);
  unmarshal = λ bytes. some (request_for bytes);
}

abbrev wide : Writer
wide = record { accepted = []; room = 100 }

request-IsSendable : IsSendable target_codec true (open_request connected (print two_letters))
unfolding register_subflow new_session next_stream_id create_stream put_stream target_of
request-IsSendable = record {
  header = record {
    supported = refl;
    session_id = omega arith;
    stream_id = omega arith;
    seq = omega arith;
  };
  body = control_body (request_for (97 ∷ 98 ∷ [])) (97 ∷ 98 ∷ []) refl refl refl refl (omega arith);
  lossless = λ c p h k.
      ap (λ (o : Option (List ℕ)). elim o [ none ↦ none | some b ↦ some (request_for b) ]) (sym k)
      ∙ ap
          (λ (o : Option ControlPayload). elim o [
            | none ↦ none
            | some x ↦ some (request_for (target_of x.metadata))
          ])
          (sym h)
      ∙ h;
  flags = omega arith;
}

request_fits :
    (encode target_codec (flagged true (open_request connected (print two_letters))) wide).1 ≡ none
unfolding encode encode_payload payload_bytes write_frame write_payload write_trailer record_length
    counting_write write header_bytes register_subflow new_session next_stream_id create_stream
    put_stream target_of
request_fits = refl

handle_socks_dials_example :
    let r = handle_socks quiet print asking connected in
    let id = (next_stream_id connected).1 in
    let frame = open_request connected (print two_letters) in
    let wire = encode target_codec (flagged true frame) wide in
    (r.2 ≡ asked id)
    × (r.1.sent ≡ connected.sent ++ ((0, frame) ∷ []))
    × ((got : Frame) × (decode target_codec (wire.0.cw.w.accepted ++ (5 ∷ [])) ≡ ok (got, 5 ∷ []))
        × (handle_control_frame quiet 3 got far
            ≡ opened quiet 3 id (create_stream far id) (quiet.dial (print two_letters))))
unfolding register_subflow new_session
handle_socks_dials_example =
    handle_socks_dials quiet quiet print two_letters (9 ∷ []) (record { accepted = []; room = 20 })
      connected far only 3 target_codec true 100 (5 ∷ []) two_letters-IsDestination (omega arith)
      refl refl connected-IsValid connected_only (λ _ _. refl) refl refl request-IsSendable
      request_fits
