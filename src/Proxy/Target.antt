-- ===== src/Proxy/Target.antt =====
-- The address that a SOCKS client asks for is the one that the server dials.
use cwnd_warm_up_proxy.Prelude.{
  ℕ, ◌≤◌, ◌≡◌, refl, sym, ap, subst, ◌∙◌, List, [], ◌∷◌, ◌++◌, Bool, true, false, none, some,
  get_elem?, if◌then◌else◌,
}
use cwnd_warm_up_proxy.Prelude.Results.{ok}
use cwnd_warm_up_proxy.Protocol.{Frame, JsonCodec}
use cwnd_warm_up_proxy.Protocol.Encode.{encode, default_version}
use cwnd_warm_up_proxy.Protocol.Encode.Wire.{sent, encode-Emits}
use cwnd_warm_up_proxy.Protocol.Decode.{decode}
use cwnd_warm_up_proxy.Protocol.RoundTrip.{received, Body-Carries, decode-encode}
use cwnd_warm_up_proxy.Subflow.Transfer.{flagged}
use cwnd_warm_up_proxy.Subflow.Transfer.Channel.{IsSendable}
use cwnd_warm_up_proxy.Protocol.Io.{Writer}
use cwnd_warm_up_proxy.Scheduler
use cwnd_warm_up_proxy.Scheduler.{Scheduler, Entry, subflow, Choice}
use cwnd_warm_up_proxy.Scheduler.Valid.{IsValid}
use cwnd_warm_up_proxy.Scheduler.Pick.{next_picks}
use cwnd_warm_up_proxy.Socks.{Connection, Destination}
use cwnd_warm_up_proxy.Socks.Client.{greeting_bytes, request_bytes}
use cwnd_warm_up_proxy.Socks.Accepts.{IsDestination, handshake-request_bytes}
use cwnd_warm_up_proxy.Session.{Session, is_client}
use cwnd_warm_up_proxy.Session.Send.{Environment, send_on, send_frame, send_chosen}
use cwnd_warm_up_proxy.Session.Control.{
  create_stream, put_stream, target_of, opened, handle_stream_open, handle_control,
  handle_control_frame,
}
use cwnd_warm_up_proxy.Session.Open.{sent_or_error, next_stream_id, open_frame, request_stream}
use cwnd_warm_up_proxy.Proxy.{asked, asked_for, open_for, handle_socks}

-- The frames sent and the scheduler are the same.
record SameSending (s t : Session) : Type 0 where
  sent : t.sent ≡ s.sent
  scheduler : t.scheduler ≡ s.scheduler

if-SameSending :
    (s t u : Session) (b : Bool)
    → SameSending s t
    → SameSending s u
    → SameSending s (if b then t else u)
if-SameSending s t u true h g = h
if-SameSending s t u false h g = g

create_stream-SameSending : (s : Session) (id : ℕ) → SameSending s (create_stream s id)
unfolding create_stream put_stream
create_stream-SameSending s id =
    if-SameSending s _ _ s.closed (record { sent = refl; scheduler = refl })
      (record { sent = refl; scheduler = refl })

module _ (env : Environment) (s : Session) (e : Entry) (valid : IsValid s.scheduler)
    (here : get_elem? s.scheduler.entries s.scheduler.position ≡ some e)
    (sends : (i : ℕ) (frame : Frame) → env.transmit i frame ≡ none) where
  -- The frame goes on the subflow at the scheduler's position.
  send_frame_goes :
      (frame : Frame)
      → let r = send_frame env s frame in
        (r.1 ≡ none) × (r.0.sent ≡ s.sent ++ ((e.ref, record frame { session_id = s.id }) ∷ []))
  unfolding send_frame send_chosen send_on
  send_frame_goes frame =
      let t = Scheduler.next env.goodput s.scheduler in
      let picked = (next_picks env.goodput s.scheduler e valid here).0 in
      let pair : t ≡ (t.0, subflow e.ref) = λ i. (t.0, picked i) in
      rw pair (sends e.ref (record frame { session_id = s.id }), refl)

-- A stream's ID and its place in the table, as OpenStream gives them.
abbrev placed : Session → Session
placed s = let (t, id) = next_stream_id s in create_stream t id

-- The frame that asks for the stream, as it is handed to a subflow.
abbrev pub open_request : Session → List ℕ → Frame
open_request s address = record (open_frame (placed s) (next_stream_id s).1 address) {
  session_id = (placed s).id;
}

request_stream_lem :
    (env : Environment) (address : List ℕ) (s : Session)
    → is_client s.role ≡ true
    → s.closed ≡ false
    → let sending =
        send_frame env (placed s) (open_frame (placed s) (next_stream_id s).1 address) in
      request_stream env address s ≡ (sending.0, sent_or_error (next_stream_id s).1 sending.1)
unfolding request_stream next_stream_id
request_stream_lem env address s client running = rw (client, running) refl

placed-SameSending : (s : Session) → SameSending s (placed s)
unfolding next_stream_id
placed-SameSending s =
    let (t, id) = next_stream_id s in
    let same = create_stream-SameSending t id in
    record { sent = same.sent; scheduler = same.scheduler }

-- A server that gets the frame as it comes off the wire.
server_dials :
    (there : Environment) (sf : ℕ) (t s : Session) (address p : List ℕ) (checksums : Bool)
    → is_client t.role ≡ false
    → t.closed ≡ false
    → let id = (next_stream_id s).1 in
      let got = received (sent (default_version (flagged checksums (open_request s address))) p) in
      handle_control_frame there sf got t
      ≡ opened there sf id (create_stream t id) (there.dial address)
unfolding handle_control_frame handle_control handle_stream_open target_of
server_dials there sf t s address p true server running = rw (server, running) refl
server_dials there sf t s address p false server running = rw (server, running) refl

-- From the frame through its bytes to the server.
request_dials :
    (json : JsonCodec) (checksums : Bool) (there : Environment) (sf room : ℕ) (t s : Session)
    (address rest : List ℕ)
    → IsSendable json checksums (open_request s address)
    → is_client t.role ≡ false
    → t.closed ≡ false
    → let r =
        encode json
          (flagged checksums (open_request s address))
          (record { accepted = []; room = room }) in
      let id = (next_stream_id s).1 in
      r.1 ≡ none
      → (got : Frame) × (decode json (r.0.cw.w.accepted ++ rest) ≡ ok (got, rest))
        × (handle_control_frame there sf got t
            ≡ opened there sf id (create_stream t id) (there.dial address))
request_dials json checksums there sf room t s address rest h server running done =
    let f = flagged checksums (open_request s address) in
    let w : Writer = record { accepted = []; room = room } in
    let (p, c) = Body-Carries json (default_version f) h.lossless h.body in
    let em = encode-Emits json f w p c.made c.small in
    (
      received (encode json f w).0.frame,
      decode-encode json f room rest h.header h.body h.lossless done,
      ap (λ x. handle_control_frame there sf (received x) t) (em.frame done)
          ∙ server_dials there sf t s address p checksums server running,
    )

-- A SOCKS client asks for an address and the handshake accepts it. The client's session is open, has a subflow
-- to send on, no frame fails there, and the request can be sent as it is: its numbers fit, and JSON is
-- lossless on it. Then the session asks for one stream by one frame on that subflow; and once Encode
-- has written the frame, Decode returns a frame for which an open session of a server dials the same
-- address, for the same stream.
pub handle_socks_dials :
    (env there : Environment) (print : Destination → List ℕ) (d : Destination) (rest : List ℕ)
    (w : Writer) (s t : Session) (e : Entry) (sf : ℕ) (json : JsonCodec) (checksums : Bool)
    (room : ℕ) (behind : List ℕ)
    → IsDestination d
    → 12 ≤ w.room
    → is_client s.role ≡ true
    → s.closed ≡ false
    → IsValid s.scheduler
    → get_elem? s.scheduler.entries s.scheduler.position ≡ some e
    → ((i : ℕ) (frame : Frame) → env.transmit i frame ≡ none)
    → is_client t.role ≡ false
    → t.closed ≡ false
    → IsSendable json checksums (open_request s (print d))
    → let c : Connection = record {
      reader = greeting_bytes ++ (request_bytes d ++ rest);
      writer = w;
    } in
      let r = handle_socks env print c s in
      let id = (next_stream_id s).1 in
      let frame = open_request s (print d) in
      let wire = encode json (flagged checksums frame) (record { accepted = []; room = room }) in
      wire.1 ≡ none
      → (r.2 ≡ asked id)
        × (r.1.sent ≡ s.sent ++ ((e.ref, frame) ∷ []))
        × ((got : Frame) × (decode json (wire.0.cw.w.accepted ++ behind) ≡ ok (got, behind))
            × (handle_control_frame there sf got t
                ≡ opened there sf id (create_stream t id) (there.dial (print d))))
unfolding handle_socks open_for
handle_socks_dials env there print d rest w s t e sf json checksums room behind fine fits client
      running valid here sends server up sendable done =
    let id = (next_stream_id s).1 in
    let m = placed s in
    let same = placed-SameSending s in
    let goes =
      send_frame_goes env m e (subst IsValid (sym same.scheduler) valid)
        (ap (λ (q : Scheduler). get_elem? q.entries q.position) same.scheduler ∙ here) sends
        (open_frame m id (print d)) in
    let asks = request_stream_lem env (print d) s client running in
    let shakes = (handshake-request_bytes d rest w fine fits).0 in
    (
      ap (λ r. (open_for env print r s).2) shakes
          ∙ ap (λ r. asked_for r.1) asks
          ∙ ap (λ x. asked_for (sent_or_error id x)) goes.0,
      ap (λ r. (open_for env print r s).1.sent) shakes
          ∙ ap (λ r. r.0.sent) asks
          ∙ goes.1
          ∙ ap (λ frames. frames ++ ((e.ref, open_request s (print d)) ∷ [])) same.sent,
      request_dials json checksums there sf room t s (print d) behind sendable server up done,
    )
