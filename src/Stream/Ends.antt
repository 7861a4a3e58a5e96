-- ===== src/Stream/Ends.antt =====
-- internal/overlay/stream.go: what the ends of the two directions do to a stream and its connection.
pub mod Reached
use cwnd_warm_up_proxy.Prelude.{
  ℕ, ◌+◌, ◌≡◌, refl, sym, ap, subst, ◌∙◌, inl, inr, List, [], ◌∷◌, Bool, true, false, ◌&&◌, ◌||◌,
  Option, none, some, length, ltb, ◌==◌, if◌then◌else◌, arith, Bool-cases, Option-cases,
}
use cwnd_warm_up_proxy.Prelude.Bytes.{u32, u64}
use cwnd_warm_up_proxy.Prelude.Results.{Result, ok, err}
use cwnd_warm_up_proxy.Protocol.{Frame, AckPayload}
use cwnd_warm_up_proxy.Window.{Window, Outcome, granted, refused, waiting, acquire}
use cwnd_warm_up_proxy.Reorder.{Chunk, ReorderBuffer, push, reorder_overflow}
use cwnd_warm_up_proxy.Reorder
use cwnd_warm_up_proxy.Stream.{
  Error, stream_closed, PendingEntry, Conn, Stream, new_stream, fail, close_stream, maybe_finalize,
  close_conn, half_close_write, bind_client, bind_server,
}
use cwnd_warm_up_proxy.Stream.Send.{already_closed, queue_frame, queue, settle, enter, send_queued}
use cwnd_warm_up_proxy.Stream.Ack.{absorb, retransmit, retransmit_all, on_ack, to_resend}
use cwnd_warm_up_proxy.Stream.Data.{
  Side, local, target, half_close, fail_on_error, send_ack, ack_of, acknowledge, finish_round,
  on_data_round, is_end, after_chunk, after_ack, acknowledge_chunk, whole, after_write, forward,
  ReadEnd, more, eof, after_read, collect,
}

abbrev pub no_error {ℓ} : {A : Type ℓ} → A → Option Error
no_error _ = none

abbrev pub read_end : Bool → ReadEnd
read_end true = eof
read_end false = more

abbrev pub send_outcome : Bool → Option Error
send_outcome true = some stream_closed
send_outcome false = none

-- A connection when both directions have ended, when only the one to it has, and before that.
abbrev pub conn_at : Bool → Bool → Bool → Conn
conn_at close_write true true = Conn.closed
conn_at close_write false true = half_close_write (Conn.attached close_write)
conn_at close_write end false = Conn.attached close_write

abbrev pub conn_of : Side → Stream → Conn
conn_of local s = s.local
conn_of target s = s.target

abbrev pub bind : Side → Bool → Stream → Stream
unfolding bind_client bind_server
bind local close_write s = bind_client close_write s
bind target close_write s = bind_server close_write s

-- A stream whose directions have ended or not, as given.
pub record IsAt (side : Side) (close_write l r : Bool) (s : Stream) : Type 0 where
  pub local_done : s.local_done ≡ l
  pub remote_done : s.remote_done ≡ r
  pub done : s.done ≡ (l && r)
  pub conn : conn_of side s ≡ conn_at close_write l r

-- What a turn that ends no direction keeps.
pub record SameEnds (s t : Stream) : Type 0 where
  pub done : t.done ≡ s.done
  pub local_done : t.local_done ≡ s.local_done
  pub remote_done : t.remote_done ≡ s.remote_done
  pub local : t.local ≡ s.local
  pub target : t.target ≡ s.target

abbrev pub same_ends : (s : Stream) → SameEnds s s
same_ends s = record {
  done = refl;
  local_done = refl;
  remote_done = refl;
  local = refl;
  target = refl;
}

pub SameEnds-IsAt :
    {side : Side} {c l r : Bool} {s t : Stream}
    → SameEnds s t
    → IsAt side c l r s
    → IsAt side c l r t
SameEnds-IsAt {side = local} e h = record {
  local_done = e.local_done ∙ h.local_done;
  remote_done = e.remote_done ∙ h.remote_done;
  done = e.done ∙ h.done;
  conn = e.local ∙ h.conn;
}
SameEnds-IsAt {side = target} e h = record {
  local_done = e.local_done ∙ h.local_done;
  remote_done = e.remote_done ∙ h.remote_done;
  done = e.done ∙ h.done;
  conn = e.target ∙ h.conn;
}

pub then_ends : {s t u : Stream} → SameEnds s t → SameEnds t u → SameEnds s u
then_ends h g = record {
  done = g.done ∙ h.done;
  local_done = g.local_done ∙ h.local_done;
  remote_done = g.remote_done ∙ h.remote_done;
  local = g.local ∙ h.local;
  target = g.target ∙ h.target;
}

if-SameEnds :
    (s t u : Stream) (b : Bool) → SameEnds s t → SameEnds s u → SameEnds s (if b then t else u)
if-SameEnds s t u true h g = h
if-SameEnds s t u false h g = g

pub send_ack-none : (s : Stream) (credit : ℕ) → send_ack no_error s credit ≡ none
unfolding send_ack
send_ack-none s credit = elim (Option-cases (ack_of s credit)) [
  | inl e ↦ rw (e, send_ack) refl
  | inr (ack, e) ↦ rw (e, send_ack) refl
]

pub finish_round-SameEnds :
    (taken : ℕ) (s : Stream) (t : ReorderBuffer × Result Reorder.Error (List Chunk))
    → SameEnds s (finish_round no_error taken s t).0
unfolding finish_round acknowledge fail_on_error
finish_round-SameEnds taken s (r, err reorder_overflow) =
    rw (send_ack-none (record s { reorder = r }) 0)
      (record { done = refl; local_done = refl; remote_done = refl; local = refl; target = refl })
finish_round-SameEnds taken s (r, ok []) =
    rw (send_ack-none (record s { reorder = r }) 0)
      (record { done = refl; local_done = refl; remote_done = refl; local = refl; target = refl })
finish_round-SameEnds taken s (r, ok (chunk ∷ chunks)) = record {
  done = refl;
  local_done = refl;
  remote_done = refl;
  local = refl;
  target = refl;
}

pub retransmit_all-SameEnds :
    (session_id now : ℕ) (es : List PendingEntry) (s : Stream)
    → SameEnds s (retransmit_all no_error session_id now es s)
unfolding retransmit_all retransmit
retransmit_all-SameEnds session_id now [] s = record {
  done = refl;
  local_done = refl;
  remote_done = refl;
  local = refl;
  target = refl;
}
retransmit_all-SameEnds session_id now (e ∷ es) s =
    then_ends {t = retransmit no_error session_id now e s}
      (record { done = refl; local_done = refl; remote_done = refl; local = refl; target = refl })
      (retransmit_all-SameEnds session_id now es (retransmit no_error session_id now e s))

pub absorb-SameEnds : (ack : AckPayload) (s : Stream) → SameEnds s (absorb ack s)
unfolding absorb
absorb-SameEnds ack s =
    if-SameEnds s _ _ (ack.credit == 0)
      (record { done = refl; local_done = refl; remote_done = refl; local = refl; target = refl })
      (record { done = refl; local_done = refl; remote_done = refl; local = refl; target = refl })

settle-SameEnds :
    (s : Stream) (payload : List ℕ) (end : Bool) (a : Window × Outcome)
    → SameEnds s (settle s payload end a).0
unfolding settle enter
settle-SameEnds s payload end (w, granted) = record {
  done = refl;
  local_done = refl;
  remote_done = refl;
  local = refl;
  target = refl;
}
settle-SameEnds s payload end (w, refused) = record {
  done = refl;
  local_done = refl;
  remote_done = refl;
  local = refl;
  target = refl;
}
settle-SameEnds s payload end (w, waiting) = record {
  done = refl;
  local_done = refl;
  remote_done = refl;
  local = refl;
  target = refl;
}

pub queue_frame-SameEnds :
    (s : Stream) (payload : List ℕ) (end : Bool) → SameEnds s (queue_frame s payload end).0
unfolding queue_frame queue
queue_frame-SameEnds s payload end = if_open s.send_closed end
  where
    n : ℕ
    n = u32 (length payload)

    queued : (t : Stream) → SameEnds s t → SameEnds s (queue t payload end).0
    queued t same = then_ends same (settle-SameEnds t payload end (acquire t.send_window n))

    if_open :
        (closed e : Bool)
        → SameEnds s
            (if closed
              then (s, already_closed)
              else queue (if e then record s { send_closed = true } else s) payload end).0
    if_open true e = record {
      done = refl;
      local_done = refl;
      remote_done = refl;
      local = refl;
      target = refl;
    }
    if_open false true =
        queued (record s { send_closed = true })
          (record {
            done = refl;
            local_done = refl;
            remote_done = refl;
            local = refl;
            target = refl;
          })
    if_open false false =
        queued s (record {
          done = refl;
          local_done = refl;
          remote_done = refl;
          local = refl;
          target = refl;
        })
