-- ===== src/Session.antt =====
-- internal/overlay/session.go: the subflows of a session, how they are counted, lost and replaced. A call
-- under the mutex is one step, with the scheduler's call behind it.
pub mod Spawn
pub mod Send
pub mod Control
pub mod Dispatch
pub mod Open
mod Examples
use cwnd_warm_up_proxy.Prelude.{
  ℕ, ◌+◌, ◌-◌, List, [], ◌∷◌, ◌++◌, Bool, true, false, not, ◌&&◌, ◌||◌, Option, none, some, length,
  ltb, leb, ◌==◌, if◌then◌else◌,
}
use cwnd_warm_up_proxy.Prelude.{map}
use cwnd_warm_up_proxy.Protocol.{Frame}
use cwnd_warm_up_proxy.Stream.{Stream, close_stream, eof}
use cwnd_warm_up_proxy.Scheduler
use cwnd_warm_up_proxy.Scheduler.{Scheduler, attach, detach}

pub data Role : Type 0 where
  client server : Role

-- `subflows` are the keys of the map; `target` is SubflowTarget, 0 also for a negative one. The code has no
-- `sent`: it is the frames handed to subflows, with the subflow's ID, in order. `panicked` says that a
-- stream was put into the table of a closed session, which is nil.
pub record Session : Type 0 where
  pub role : Role
  pub id : ℕ  -- uint32
  pub initial_window : ℕ  -- uint32
  pub has_dialer : Bool
  pub target : ℕ
  pub streams : List (ℕ × Stream)
  pub subflows : List ℕ
  pub scheduler : Scheduler
  pub next_subflow_id : ℕ
  pub pending_spawns : ℕ
  pub last_stream_id : ℕ  -- uint32
  pub closed : Bool
  pub panicked : Bool
  pub sent : List (ℕ × Frame)

-- `random` is the ID that randomSessionID draws, for a session without one.
unfoldable pub new_session : Role → ℕ → ℕ → Bool → ℕ → ℕ → Session
new_session role session_id initial_window has_dialer target random = record {
  role = role;
  id = if session_id == 0 then random else session_id;
  initial_window = initial_window;
  has_dialer = has_dialer;
  target = target;
  streams = [];
  subflows = [];
  scheduler = Scheduler.new;
  next_subflow_id = 0;
  pending_spawns = 0;
  last_stream_id = 0;
  closed = false;
  panicked = false;
  sent = [];
}

abbrev pub is_client : Role → Bool
is_client client = true
is_client server = false

-- `cfg.Role == RoleClient && Dialer != nil && cfg.SubflowTarget > 0`
abbrev pub may_spawn : Session → Bool
may_spawn s = is_client s.role && s.has_dialer && ltb 0 s.target

abbrev pub has_id : ℕ → List ℕ → Bool
has_id id [] = false
has_id id (k ∷ ks) = (k == id) || has_id id ks

-- An assignment to the map, and a deletion.
abbrev pub add_id : ℕ → List ℕ → List ℕ
add_id id ids = if has_id id ids then ids else ids ++ (id ∷ [])

unfoldable pub delete_id : ℕ → List ℕ → List ℕ
delete_id id [] = []
delete_id id (k ∷ ks) = if k == id then delete_id id ks else k ∷ delete_id id ks

-- prepareSubflowSpawn: the new subflow's ID, and whether it opens the session.
unfoldable pub prepare_subflow_spawn : Session → Session × Option (ℕ × Bool)
prepare_subflow_spawn s =
    if not (may_spawn s)
    then (s, none)
    else if leb s.target (length s.subflows + s.pending_spawns)
    then (s, none)
    else (
      record s { next_subflow_id = s.next_subflow_id + 1; pending_spawns = s.pending_spawns + 1 },
      some (s.next_subflow_id, (length s.subflows == 0) && (s.pending_spawns == 0)),
    )

unfoldable pub register_subflow : Session → ℕ → Session
unfolding attach
register_subflow s id = if s.closed then s else record s {
  next_subflow_id = if leb s.next_subflow_id id then id + 1 else s.next_subflow_id;
  pending_spawns = s.pending_spawns - 1;
  subflows = add_id id s.subflows;
  scheduler = attach s.scheduler id;
}

unfoldable pub subflow_spawn_failed : Session → Session
subflow_spawn_failed s = record s { pending_spawns = s.pending_spawns - 1 }

unfoldable pub remove_subflow : Session → ℕ → Session
unfolding delete_id
remove_subflow s id = record s {
  subflows = delete_id id s.subflows;
  scheduler = detach s.scheduler id;
}

-- The session after onSubflowError, and the subflow that it starts to dial.
unfoldable pub on_subflow_error : Session → ℕ → Session × Option (ℕ × Bool)
unfolding remove_subflow prepare_subflow_spawn
on_subflow_error s id =
    let s = remove_subflow s id in if may_spawn s then prepare_subflow_spawn s else (s, none)

-- Close but for the streams, and it leaves the scheduler alone.
unfoldable pub close_session : Session → Session
close_session s = if s.closed then s else record s { closed = true; subflows = [] }

abbrev close_entry : ℕ × Stream → ℕ × Stream
unfolding close_stream
close_entry (id, stream) = (id, close_stream stream eof)

-- Close: the session, and the streams that were in its table, which it closes.
unfoldable pub close_all : Session → Session × List (ℕ × Stream)
unfolding close_session close_entry
close_all s =
    if s.closed
    then (s, [])
    else (record (close_session s) { streams = [] }, map close_entry s.streams)
