-- ===== src/Stream/Ends/Reached.antt =====
-- internal/overlay/stream.go: the pumps of a stream, and the ends of its directions.
use cwnd_warm_up_proxy.Prelude.{
  ℕ, ◌+◌, ◌≡◌, refl, sym, ap, subst, ◌∙◌, inl, inr, Bool, true, false, ◌&&◌, ◌||◌, some, length,
  ltb, ◌==◌, if◌then◌else◌, arith, Bool-cases,
}
use cwnd_warm_up_proxy.Prelude.Bytes.{u32, u64}
use cwnd_warm_up_proxy.Reorder.{Chunk}
use cwnd_warm_up_proxy.Stream.{
  Error, stream_closed, Conn, Stream, fail, close_stream, maybe_finalize, close_conn,
  half_close_write,
}
use cwnd_warm_up_proxy.Stream.Data.{
  Side, local, target, half_close, after_chunk, after_ack, acknowledge_chunk, whole, after_write,
  forward, after_read, collect,
}
use cwnd_warm_up_proxy.Stream.Ends.{
  no_error, read_end, send_outcome, conn_of, conn_at, IsAt, SameEnds-IsAt, send_ack-none,
}

conn_at_end : (c l r : Bool) → (l && r) ≡ true → Conn.closed ≡ conn_at c l r
conn_at_end c true true h = refl
conn_at_end c true false h = absurd (ground (arith, h))
conn_at_end c false r h = absurd (ground (arith, h))

-- A stream at a point where its end is looked for, with its connection as it is before that.
record IsBefore (side : Side) (close_write l r : Bool) (s : Stream) : Type 0 where
  local_done : s.local_done ≡ l
  remote_done : s.remote_done ≡ r
  done : s.done ≡ true → (l && r) ≡ true
  closes : close_conn (conn_of side s) ≡ Conn.closed
  conn : (l && r) ≡ false → conn_of side s ≡ conn_at close_write l r

maybe_finalize-IsAt :
    (side : Side) (c l r : Bool) (s : Stream)
    → IsBefore side c l r s
    → IsAt side c l r (maybe_finalize s)
unfolding maybe_finalize close_stream fail
maybe_finalize-IsAt side c l r s h = elim (Bool-cases (l && r)) [
  | inl both ↦
      let ended : (s.local_done && s.remote_done) ≡ true =
        ground (arith, both, h.local_done, h.remote_done) in
      rw (ended, if◌then◌else◌)
        (record {
          local_done = h.local_done;
          remote_done = h.remote_done;
          done = sym both;
          conn = at side h.closes ∙ conn_at_end c l r both;
        })
  | inr one ↦
      let going : (s.local_done && s.remote_done) ≡ false =
        ground (arith, one, h.local_done, h.remote_done) in
      rw (going, if◌then◌else◌)
        (record {
          local_done = h.local_done;
          remote_done = h.remote_done;
          done = ground (arith, one, h.done);
          conn = h.conn one;
        })
]
  where
    at :
        (side : Side)
        → close_conn (conn_of side s) ≡ Conn.closed
        → conn_of side (fail s (some Error.eof)) ≡ Conn.closed
    at local e = e
    at target e = e

conn_at-closes : (c l r : Bool) → close_conn (conn_at c l r) ≡ Conn.closed
conn_at-closes c true true = refl
conn_at-closes true false true = refl
conn_at-closes false false true = refl
conn_at-closes c true false = refl
conn_at-closes c false false = refl

half_close-closes : (c l r : Bool) → close_conn (half_close_write (conn_at c l r)) ≡ Conn.closed
half_close-closes c true true = refl
half_close-closes true false true = refl
half_close-closes false false true = refl
half_close-closes true true false = refl
half_close-closes true false false = refl
half_close-closes false true false = refl
half_close-closes false false false = refl

-- The connection after the first END chunk, or another one.
half_close-conn_at :
    (c l r : Bool) → (l && true) ≡ false → half_close_write (conn_at c l r) ≡ conn_at c l true
half_close-conn_at c true r h = absurd (ground (arith, h))
half_close-conn_at true false true h = refl
half_close-conn_at false false true h = refl
half_close-conn_at true false false h = refl
half_close-conn_at false false false h = refl

-- The end of the direction from the connection leaves the connection open as long as the other goes on.
local_end-conn_at : (c l r : Bool) → (true && r) ≡ false → conn_at c l r ≡ conn_at c true r
local_end-conn_at c l true h = absurd (ground (arith, h))
local_end-conn_at c true false h = refl
local_end-conn_at c false false h = refl

local_ended :
    (side : Side) (c l r : Bool) (s : Stream)
    → IsAt side c l r s
    → IsAt side c true r (maybe_finalize (record s { local_done = true }))
local_ended side c l r s h = maybe_finalize-IsAt side c true r _ (record {
  local_done = refl;
  remote_done = h.remote_done;
  done = λ d. ground (arith, h.done, d);
  closes = ap close_conn (same side ∙ h.conn) ∙ conn_at-closes c l r;
  conn = λ going. same side ∙ h.conn ∙ local_end-conn_at c l r going;
})
  where
    same : (side : Side) → conn_of side (record s { local_done = true }) ≡ conn_of side s
    same local = refl
    same target = refl

remote_ended :
    (side : Side) (c l r : Bool) (s : Stream)
    → IsAt side c l r s
    → IsAt side c l true (maybe_finalize (half_close side (record s { remote_done = true })))
remote_ended side c l r s h = maybe_finalize-IsAt side c l true _ (record {
  local_done = kept side ∙ h.local_done;
  remote_done = ended side;
  done = λ d. ground (arith, h.done, sym (open_still side) ∙ d);
  closes = ap close_conn (half side ∙ ap half_close_write h.conn) ∙ half_close-closes c l r;
  conn = λ going. half side ∙ ap half_close_write h.conn ∙ half_close-conn_at c l r going;
})
  where
    t : Side → Stream
    t side = half_close side (record s { remote_done = true })

    kept : (side : Side) → (t side).local_done ≡ s.local_done
    kept local = refl
    kept target = refl

    ended : (side : Side) → (t side).remote_done ≡ true
    ended local = refl
    ended target = refl

    open_still : (side : Side) → (t side).done ≡ s.done
    open_still local = refl
    open_still target = refl

    half : (side : Side) → conn_of side (t side) ≡ half_close_write (conn_of side s)
    half local = refl
    half target = refl

module _ (side : Side) (c l r : Bool) (s : Stream) (h : IsAt side c l r s) where
  after_chunk-IsAt : (chunk : Chunk) → IsAt side c l (r || chunk.end) (after_chunk side s chunk).0
  unfolding after_chunk
  after_chunk-IsAt chunk = elim (Bool-cases chunk.end) [
    | inl last ↦
        let now : true ≡ (r || chunk.end) = ground (arith, last) in
        subst (λ r. IsAt side c l r (after_chunk side s chunk).0) now
          (rw last (remote_ended side c l r s h))
    | inr more_to_come ↦
        let now : r ≡ (r || chunk.end) = ground (arith, more_to_come) in
        subst (λ r. IsAt side c l r (after_chunk side s chunk).0) now (rw more_to_come h)
  ]

  after_read-IsAt : (end : Bool) → IsAt side c (l || end) r (after_read s (read_end end)).0
  unfolding after_read
  after_read-IsAt true =
      let now : true ≡ (l || true) = ground arith in
      subst (λ l. IsAt side c l r (maybe_finalize (record s { local_done = true }))) now
        (local_ended side c l r s h)
  after_read-IsAt false =
      let now : l ≡ (l || false) = ground arith in subst (λ l. IsAt side c l r s) now h

  pub collect-IsAt :
      (n : ℕ) (end told : Bool)
      → IsAt side c
          (l || (end || (told && ltb 0 n)))
          r
          (collect s n (read_end end) (send_outcome told)).0
  unfolding collect
  collect-IsAt n end false =
      let now : (l || end) ≡ (l || (end || (false && ltb 0 n))) = ground arith in
      subst (λ l. IsAt side c l r (after_read s (read_end end)).0) now (after_read-IsAt end)
  collect-IsAt n end true = elim (Bool-cases (ltb 0 n)) [
    | inl some_data ↦
        let now : true ≡ (l || (end || (true && ltb 0 n))) = ground (arith, some_data) in
        subst (λ l. IsAt side c l r (collect s n (read_end end) (some stream_closed)).0) now
          (rw some_data (local_ended side c l r s h))
    | inr no_data ↦
        let now : (l || end) ≡ (l || (end || (true && ltb 0 n))) = ground (arith, no_data) in
        subst (λ l. IsAt side c l r (collect s n (read_end end) (some stream_closed)).0) now
          (rw no_data (after_read-IsAt end))
  ]

acknowledge_chunk-IsAt :
    (side : Side) (c l r : Bool) (s : Stream)
    → IsAt side c l r s
    → (chunk : Chunk) → IsAt side c l (r || chunk.end) (acknowledge_chunk no_error side s chunk).0
unfolding acknowledge_chunk after_ack
acknowledge_chunk-IsAt side c l r s h chunk =
    rw (send_ack-none s (u32 (length chunk.bytes))) (after_chunk-IsAt side c l r s h chunk)

pub forward-IsAt :
    (side : Side) (c l r : Bool) (s : Stream)
    → IsAt side c l r s
    → (chunk : Chunk) → IsAt side c l (r || chunk.end) (forward no_error side whole s chunk).0
unfolding forward after_write
forward-IsAt side c l r s h chunk = elim (Bool-cases (length chunk.bytes == 0)) [
  | inl z ↦ rw z (acknowledge_chunk-IsAt side c l r s h chunk)
  | inr z ↦ rw z (
      acknowledge_chunk-IsAt side c l r
        (record s { recv_seq = u64 (s.recv_seq + length chunk.bytes) })
        (SameEnds-IsAt
          (record {
            done = refl;
            local_done = refl;
            remote_done = refl;
            local = refl;
            target = refl;
          })
          h)
        chunk)
]
