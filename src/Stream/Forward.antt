-- ===== src/Stream/Forward.antt =====
-- The pumps from the overlay to a connection: the bytes written, and the number the ACKs report.
use cwnd_warm_up_proxy.Prelude.{
  ℕ, zero, suc, ◌+◌, ◌≤◌, ◌⊎◌, ◌≡◌, refl, ◌∙◌, inl, inr, List, [], ◌∷◌, ◌++◌, true, Option, none,
  some, length, ◌==◌, take, if◌then◌else◌, arith, Bool-cases, length-append, take-append, sym, ap,
  ◌&&◌,
}
use cwnd_warm_up_proxy.Prelude.Bytes.{u32, u64, IsU64}
use cwnd_warm_up_proxy.Protocol.{AckPayload}
use cwnd_warm_up_proxy.Reorder.{Chunk}
use cwnd_warm_up_proxy.Reorder.Deliver.{chunk_bytes}
use cwnd_warm_up_proxy.Stream.{Error, Stream, fail, close_stream, maybe_finalize}
use cwnd_warm_up_proxy.Stream.Data.{
  Side, local, target, half_close, fail_on_error, send_ack, after_chunk, after_ack,
  acknowledge_chunk, Write, whole, part, after_write, forward, written_by, output, is_running, pump,
}

fail_on_error-recv_seq : (s : Stream) (e : Option Error) → (fail_on_error s e).recv_seq ≡ s.recv_seq
unfolding fail_on_error fail
fail_on_error-recv_seq s none = refl
fail_on_error-recv_seq s (some x) = refl

maybe_finalize-recv_seq : (s : Stream) → (maybe_finalize s).recv_seq ≡ s.recv_seq
unfolding maybe_finalize close_stream fail
maybe_finalize-recv_seq s = elim (Bool-cases (s.local_done && s.remote_done)) [
  | inl d ↦ rw d refl
  | inr d ↦ rw d refl
]

half_close-recv_seq : (side : Side) (s : Stream) → (half_close side s).recv_seq ≡ s.recv_seq
half_close-recv_seq local s = refl
half_close-recv_seq target s = refl

after_chunk-recv_seq :
    (side : Side) (s : Stream) (c : Chunk) → (after_chunk side s c).0.recv_seq ≡ s.recv_seq
unfolding after_chunk
after_chunk-recv_seq side s c = elim (Bool-cases c.end) [
  | inl e ↦ rw e (
      let closing = record s { remote_done = true } in
      maybe_finalize-recv_seq (half_close side closing) ∙ half_close-recv_seq side closing)
  | inr e ↦ rw e refl
]

after_ack-recv_seq :
    (side : Side) (s : Stream) (c : Chunk) (e : Option Error)
    → (after_ack side s c e).0.recv_seq ≡ s.recv_seq
unfolding after_ack
after_ack-recv_seq side s c none = after_chunk-recv_seq side s c
after_ack-recv_seq side s c (some x) = fail_on_error-recv_seq s (some x)

no_bytes : (xs : List ℕ) → length xs ≡ 0 → xs ≡ []
no_bytes [] h = refl
no_bytes (x ∷ xs) h = absurd (omega (arith, h))

prefix_append :
    (xs ys ws : List ℕ) → take (length ws) ys ≡ ws → take (length (xs ++ ws)) (xs ++ ys) ≡ xs ++ ws
prefix_append [] ys ws h = h
prefix_append (x ∷ xs) ys ws h = ap (◌∷◌ x) (prefix_append xs ys ws h)

-- The bytes that a round adds to the number of the ACKs.
abbrev counted : Write → Chunk → ℕ
counted whole c = length c.bytes
counted (part n e) c = 0

take_front : (n : ℕ) (xs ys : List ℕ) → take (length (take n xs)) (xs ++ ys) ≡ take n xs
take_front zero xs ys = refl
take_front (suc n) [] ys = refl
take_front (suc n) (x ∷ xs) ys = ap (◌∷◌ x) (take_front n xs ys)

output_prefix :
    (w : Write) (c : Chunk) (rest : List ℕ)
    → take (length (output w c)) (c.bytes ++ rest) ≡ output w c
output_prefix w c rest = elim (Bool-cases (length c.bytes == 0)) [
  | inl z ↦ rw z refl
  | inr z ↦ rw z (of w)
]
  where
    of : (w : Write) → take (length (written_by w c)) (c.bytes ++ rest) ≡ written_by w c
    of whole = take-append c.bytes rest (length c.bytes) refl
    of (part n e) = take_front n c.bytes rest

-- What a round has done: the number of the ACKs has grown by `k` of the bytes written, and by all of them unless
-- the stream has failed.
record Counts (s : Stream) (k : ℕ) (t : Stream × List ℕ) : Type 0 where
  number : t.0.recv_seq ≡ u64 (s.recv_seq + k)
  within : k ≤ length t.1
  all : (k ≡ length t.1) ⊎ (t.0.done ≡ true)

module _ (session_ack : AckPayload → Option Error) (side : Side) where
  acknowledge_chunk-recv_seq :
      (s : Stream) (c : Chunk) → (acknowledge_chunk session_ack side s c).0.recv_seq ≡ s.recv_seq
  unfolding acknowledge_chunk
  acknowledge_chunk-recv_seq s c =
      after_ack-recv_seq side s c (send_ack session_ack s (u32 (length c.bytes)))

  after_write-Counts :
      (s : Stream) (c : Chunk) (w : Write)
      → IsU64 s.recv_seq
      → Counts s (counted w c) ((after_write session_ack side s c w).0, written_by w c)
  unfolding after_write fail_on_error fail
  after_write-Counts s c whole h = record {
    number =
        acknowledge_chunk-recv_seq (record s { recv_seq = u64 (s.recv_seq + length c.bytes) }) c;
    within = omega arith;
    all = inl refl;
  }
  after_write-Counts s c (part n e) h = record {
    number = omega (arith, h);
    within = omega arith;
    all = inr refl;
  }

  forward-Counts :
      (s : Stream) (c : Chunk) (w : Write)
      → IsU64 s.recv_seq
      → (k : ℕ) × Counts s k ((forward session_ack side w s c).0, output w c)
  unfolding forward
  forward-Counts s c w h = elim (Bool-cases (length c.bytes == 0)) [
    | inl z ↦ rw z (
      0,
      record {
        number = acknowledge_chunk-recv_seq s c ∙ omega (arith, h);
        within = omega arith;
        all = inl refl;
      },
    )
    | inr z ↦ rw z (counted w c, after_write-Counts s c w h)
  ]

  -- A round after which the pump goes on has written its chunk and counted it.
  forward_going :
      (w : Write) (s : Stream) (c : Chunk)
      → IsU64 s.recv_seq
      → is_running (forward session_ack side w s c).1 ≡ true
      → (output w c ≡ c.bytes)
        × ((forward session_ack side w s c).0.recv_seq ≡ u64 (s.recv_seq + length c.bytes))
  unfolding forward after_write
  forward_going whole s c b h = elim (Bool-cases (length c.bytes == 0)) [
    | inl z ↦
        let kept = acknowledge_chunk-recv_seq s c in
        rw z (sym (no_bytes c.bytes (ground (arith, z))), ground (arith, kept, z, b))
    | inr z ↦ rw z (
      refl,
      acknowledge_chunk-recv_seq (record s { recv_seq = u64 (s.recv_seq + length c.bytes) }) c,
    )
  ]
  forward_going (part n x) s c b h = elim (Bool-cases (length c.bytes == 0)) [
    | inl z ↦
        let kept = acknowledge_chunk-recv_seq s c in
        rw z (sym (no_bytes c.bytes (ground (arith, z))), ground (arith, kept, z, b))
    | inr z ↦ absurd (ground (arith, z, h))
  ]

module _ (acks : ℕ → AckPayload → Option Error) (writes : ℕ → Write) (side : Side) where
  pump_step :
      (k : ℕ) (s : Stream) (c : Chunk) (cs : List Chunk)
      → let round = forward (acks k) side (writes k) s c in
        let rest = pump acks writes side (suc k) round.0 cs in
        let out = output (writes k) c in
        pump acks writes side k s (c ∷ cs)
        ≡ (if is_running round.1 then (rest.0, out ++ rest.1) else (round.0, out))
  unfolding pump
  pump_step k s c cs = refl

  -- Rounds behind one that has written its chunk.
  rest-Counts :
      (s : Stream) (bytes : List ℕ) (t : Stream) (n : ℕ) (rest : Stream × List ℕ)
      → t.recv_seq ≡ u64 (s.recv_seq + length bytes)
      → Counts t n rest
      → Counts s (length bytes + n) (rest.0, bytes ++ rest.1)
  rest-Counts s bytes t n rest e h = record {
    number = omega (arith, e, h.number);
    within = omega (arith, h.within, length-append bytes rest.1);
    all = elim h.all [
      | inl same ↦ inl (omega (arith, same, length-append bytes rest.1))
      | inr failed ↦ inr failed
    ];
  }

  pump-Counts :
      (k : ℕ) (s : Stream) (chunks : List Chunk)
      → IsU64 s.recv_seq
      → let t = pump acks writes side k s chunks in
        (take (length t.1) (chunk_bytes chunks) ≡ t.1) × ((n : ℕ) × Counts s n t)
  unfolding pump
  pump-Counts k s [] h =
      (refl, (0, record { number = omega (arith, h); within = omega arith; all = inl refl }))
  pump-Counts k s (c ∷ cs) h =
      let round = forward (acks k) side (writes k) s c in
      let first = forward-Counts (acks k) side s c (writes k) h in
      let rest = pump-Counts (suc k) round.0 cs (omega (arith, first.1.number)) in
      rw (pump_step k s c cs) (elim (Bool-cases (is_running round.1)) [
        | inl going ↦
            let more = pump acks writes side (suc k) round.0 cs in
            let whole_chunk = forward_going (acks k) side (writes k) s c h going in
            rw (going, whole_chunk.0)
              (
                prefix_append c.bytes (chunk_bytes cs) more.1 rest.0,
                (
                  length c.bytes + rest.1.0,
                  rest-Counts s c.bytes round.0 rest.1.0 more whole_chunk.1 rest.1.1,
                ),
              )
        | inr stopped ↦ rw stopped (output_prefix (writes k) c (chunk_bytes cs), first)
      ])

  -- What is written is a prefix of the bytes delivered in order, also when a write stops half-way or an ACK
  -- fails; and the number that the ACKs of the stream report grows by no more than the bytes written, and by
  -- all of them unless the stream has failed.
  pub pump_written :
      (k : ℕ) (s : Stream) (chunks : List Chunk)
      → IsU64 s.recv_seq
      → let t = pump acks writes side k s chunks in
        (n : ℕ) × (t.0.recv_seq ≡ u64 (s.recv_seq + n))
        × (n ≤ length t.1)
        × ((n ≡ length t.1) ⊎ (t.0.done ≡ true))
        × (take (length t.1) (chunk_bytes chunks) ≡ t.1)
  pump_written k s chunks h =
      let (front, (n, counts)) = pump-Counts k s chunks h in
      (n, counts.number, counts.within, counts.all, front)
