-- ===== src/Session/Open/Fresh.antt =====
-- internal/overlay/session.go: the IDs that a client gives its streams, while frames arrive, subflows come
-- and go and the application uses the streams.
use cwnd_warm_up_proxy.Prelude.{
  ℕ, suc, ◌+◌, ◌^◌, ◌<◌, ◌≡◌, ◌≢◌, refl, sym, ap, subst, ◌∙◌, inl, inr, List, [], ◌∷◌, Bool, true,
  false, none, some, if◌then◌else◌, arith, Bool-cases,
}
use cwnd_warm_up_proxy.Prelude.Bytes.{u32}
use cwnd_warm_up_proxy.Prelude.Table.{lookup, lookup-insert}
use cwnd_warm_up_proxy.Protocol.{Frame}
use cwnd_warm_up_proxy.Stream.{Stream, new_stream}
use cwnd_warm_up_proxy.Session.{
  Session, client, is_client, new_session, register_subflow, on_subflow_error, close_session,
  close_all,
}
use cwnd_warm_up_proxy.Session.Send.{Environment}
use cwnd_warm_up_proxy.Session.Control.{get_stream, put_stream, create_stream, with_stream}
use cwnd_warm_up_proxy.Session.Dispatch.{dispatch_frame}
use cwnd_warm_up_proxy.Session.Dispatch.Same.{
  SameStreams, nothing_new, send_frame-SameStreams, register_subflow-SameStreams,
  on_subflow_error-SameStreams,
}
use cwnd_warm_up_proxy.Session.Open.{Request, panics, next_stream_id, open_frame, request_stream}
use cwnd_warm_up_proxy.Session.Open.Absent.{
  Keeps, same-Keeps, with_stream-Keeps, dispatch_frame-Keeps,
}

-- A client's life: it opens a stream, a frame arrives, a subflow comes or goes, the application calls a
-- method of a stream, the session closes.
pub data Event : Type 0 where
  opens : Environment → List ℕ → Event
  arrives : Environment → ℕ → ℕ → Frame → Event
  comes goes : ℕ → Event
  calls : ℕ → (Stream → Stream) → Event
  closes : Event

unfoldable pub step : Event → Session → Session
unfolding request_stream dispatch_frame register_subflow on_subflow_error with_stream close_all
step (opens env target) s = (request_stream env target s).0
step (arrives env rounds sf frame) s = dispatch_frame env rounds sf frame s
step (comes sf) s = register_subflow s sf
step (goes sf) s = (on_subflow_error s sf).0
step (calls id f) s = with_stream s id f
step closes s = (close_all s).0

unfoldable pub run : List Event → Session → Session
unfolding step
run [] s = s
run (event ∷ events) s = run events (step event s)

abbrev pub streams_opened : List Event → ℕ
streams_opened [] = 0
streams_opened (opens env target ∷ events) = suc (streams_opened events)
streams_opened (_ ∷ events) = streams_opened events

-- A client that has given the IDs up to `n`.
record Allotted (n : ℕ) (s : Session) : Type 0 where
  role : is_client s.role ≡ true
  last : s.last_stream_id ≡ n
  absent : (k : ℕ) → n < k → get_stream s k ≡ none

Keeps-Allotted : {n : ℕ} {s t : Session} → Allotted n s → Keeps s t → Allotted n t
Keeps-Allotted a h = record {
  role = ap is_client h.role ∙ a.role;
  last = h.last ∙ a.last;
  absent = λ k l. h.absent k (a.absent k l);
}

if-Allotted :
    (n : ℕ) (s t : Session) (b : Bool)
    → Allotted n s
    → Allotted n t
    → Allotted n (if b then s else t)
if-Allotted n s t true h g = h
if-Allotted n s t false h g = g

-- The session after a stream has been given its ID and a place in the table.
abbrev created : Session × ℕ → Session
created (s, id) = create_stream s id

create_stream-Allotted :
    (n : ℕ) (s : Session)
    → Allotted n s
    → Allotted (suc n) (created (record s { last_stream_id = suc n }, suc n))
unfolding create_stream put_stream
create_stream-Allotted n s a =
    if-Allotted (suc n) _ _ s.closed
      (record { role = a.role; last = refl; absent = λ k l. a.absent k (omega arith) })
      (record {
        role = a.role;
        last = refl;
        absent = λ k l. ground (
          arith,
          lookup-insert (suc n) k (new_stream s.initial_window (suc n)) s.streams,
          a.absent k,
        );
      })

next_stream_id_lem :
    (n : ℕ) (s : Session)
    → suc n < 2 ^ 32
    → s.last_stream_id ≡ n
    → next_stream_id s ≡ (record s { last_stream_id = suc n }, suc n)
unfolding next_stream_id
next_stream_id_lem n s small last =
    let id : u32 (s.last_stream_id + 1) ≡ suc n = omega (arith, last) in
    ap (λ (id : ℕ). (record s { last_stream_id = id }, id)) id

if_request-SameStreams :
    (s : Session) (t u : Session × Request) (b : Bool)
    → SameStreams s t.0
    → SameStreams s u.0
    → SameStreams s (if b then t else u).0
if_request-SameStreams s t u true h g = h
if_request-SameStreams s t u false h g = g

request_stream_client :
    (env : Environment) (target : List ℕ) (s : Session)
    → is_client s.role ≡ true
    → SameStreams (created (next_stream_id s)) (request_stream env target s).0
unfolding request_stream next_stream_id
request_stream_client env target s c =
    let t = created (next_stream_id s) in
    rw c (
      if_request-SameStreams t (t, panics) _ s.closed (nothing_new t)
        (send_frame-SameStreams env t (open_frame t (next_stream_id s).1 target)))

request_stream-Allotted :
    (env : Environment) (target : List ℕ) (n : ℕ) (s : Session)
    → suc n < 2 ^ 32
    → Allotted n s
    → Allotted (suc n) (request_stream env target s).0
request_stream-Allotted env target n s small a =
    let at =
      subst (λ p. Allotted (suc n) (created p)) (sym (next_stream_id_lem n s small a.last))
        (create_stream-Allotted n s a) in
    Keeps-Allotted at (
      same-Keeps (created (next_stream_id s)) (request_stream env target s).0
        (request_stream_client env target s a.role))

if_pair-Allotted :
    (n : ℕ) (s t : Session × List (ℕ × Stream)) (b : Bool)
    → Allotted n s.0
    → Allotted n t.0
    → Allotted n (if b then s else t).0
if_pair-Allotted n s t true h g = h
if_pair-Allotted n s t false h g = g

close_all-Allotted : (n : ℕ) (s : Session) → Allotted n s → Allotted n (close_all s).0
unfolding close_all close_session lookup
close_all-Allotted n s a =
    let shut : Allotted n (close_session s) =
      if-Allotted n _ _ s.closed a (record { role = a.role; last = a.last; absent = a.absent }) in
    if_pair-Allotted n _ _ s.closed a
      (record { role = shut.role; last = shut.last; absent = λ k l. refl })

run-Allotted :
    (events : List Event) (n m : ℕ) (s : Session)
    → n + streams_opened events ≡ m
    → m < 2 ^ 32
    → Allotted n s
    → Allotted m (run events s)
unfolding run step
run-Allotted [] n m s sum small a = subst (λ k. Allotted k s) (omega (arith, sum)) a
run-Allotted (opens env target ∷ events) n m s sum small a =
    run-Allotted events (suc n) m _ (omega (arith, sum)) small
      (request_stream-Allotted env target n s (omega (arith, sum, small)) a)
run-Allotted (arrives env rounds sf frame ∷ events) n m s sum small a =
    run-Allotted events n m _ sum small
      (Keeps-Allotted a (dispatch_frame-Keeps env rounds sf frame s a.role))
run-Allotted (comes sf ∷ events) n m s sum small a =
    run-Allotted events n m _ sum small
      (Keeps-Allotted a (same-Keeps s _ (register_subflow-SameStreams s sf)))
run-Allotted (goes sf ∷ events) n m s sum small a =
    run-Allotted events n m _ sum small
      (Keeps-Allotted a (same-Keeps s _ (on_subflow_error-SameStreams s sf)))
run-Allotted (calls id f ∷ events) n m s sum small a =
    run-Allotted events n m _ sum small (Keeps-Allotted a (with_stream-Keeps s id f))
run-Allotted (closes ∷ events) n m s sum small a =
    run-Allotted events n m _ sum small (close_all-Allotted n s a)

unfoldable pub started : ℕ → ℕ → ℕ → Session
unfolding new_session
started window target random = new_session client 0 window true target random

new_session-Allotted : (window target random : ℕ) → Allotted 0 (started window target random)
unfolding lookup started
new_session-Allotted window target random = record {
  role = refl;
  last = refl;
  absent = λ k l. refl;
}

created-else :
    (s : Session) (id k : ℕ) → k ≢ id → get_stream (create_stream s id) k ≡ get_stream s k
unfolding create_stream put_stream
created-else s id k differs = elim (Bool-cases s.closed) [
  | inl c ↦ rw (c, if◌then◌else◌) refl
  | inr c ↦ ground (arith, lookup-insert id k (new_stream s.initial_window id) s.streams)
]

created-itself :
    (s : Session) (id : ℕ)
    → s.closed ≡ false
    → get_stream (create_stream s id) id ≡ some (new_stream s.initial_window id)
unfolding create_stream put_stream
created-itself s id c =
    ground (arith, lookup-insert id id (new_stream s.initial_window id) s.streams)

-- A client that has run through any events, with fewer than 2 ^ 32 - 1 streams opened among them, is
-- still open and then opens one more stream: it has an ID under which there was none in the table,
-- whatever frames have come in, it stands there new, and each other stream is as it was.
pub request_stream_fresh :
    (window target random : ℕ) (events : List Event) (env : Environment) (address : List ℕ) (k : ℕ)
    → suc (streams_opened events) < 2 ^ 32
    → (run events (started window target random)).closed ≡ false
    → k ≢ suc (streams_opened events)
    → let s = run events (started window target random) in
      let id = suc (streams_opened events) in
      let asked = (request_stream env address s).0 in
      (get_stream s id ≡ none)
      × (get_stream asked id ≡ some (new_stream s.initial_window id))
      × (get_stream asked k ≡ get_stream s k)
request_stream_fresh window target random events env address k small opened differs =
    let s = run events (started window target random) in
    let n = streams_opened events in
    let a =
      run-Allotted events 0 n (started window target random) (omega arith) (omega (arith, small))
        (new_session-Allotted window target random) in
    let id = next_stream_id_lem n s small a.last in
    let t = record s { last_stream_id = suc n } in
    let same =
      subst (λ p. SameStreams (created p) (request_stream env address s).0) id
        (request_stream_client env address s a.role) in
    (
      a.absent (suc n) (omega arith),
      ap (lookup (suc n)) same.streams ∙ created-itself t (suc n) opened,
      ap (lookup k) same.streams ∙ created-else t (suc n) k differs,
    )
