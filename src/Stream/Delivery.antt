-- ===== src/Stream/Delivery.antt =====
-- From the frames of a stream to the connection that the pump writes to.
use cwnd_warm_up_proxy.Prelude.{
  ◌+◌, ◌≤◌, ◌⊎◌, inl, inr, true, ◌++◌, ap₂, take_add, take-append, drop-append, ℕ, zero, suc, ◌^◌,
  ◌<◌, ◌≡◌, refl, sym, ap, ◌∙◌, subst, List, [], ◌∷◌, Option, length, take, All, arith, length-take,
}
use cwnd_warm_up_proxy.Protocol.{AckPayload}
use cwnd_warm_up_proxy.Reorder.{new, Chunk}
use cwnd_warm_up_proxy.Reorder.Receive.{Packet, receive, IsPacket, receive_prefix}
use cwnd_warm_up_proxy.Stream.{Error, Stream}
use cwnd_warm_up_proxy.Stream.Data.{Side, Write, pump}
use cwnd_warm_up_proxy.Reorder.Deliver.{chunk_bytes}
use cwnd_warm_up_proxy.Stream.Forward.{pump_written}

-- A front of a front that has its full length is a front of the whole.
take-take :
    (n m : ℕ) (xs : List ℕ) → length (take n (take m xs)) ≡ n → take n (take m xs) ≡ take n xs
take-take zero m xs h = refl
take-take (suc n) zero xs h = absurd (omega (arith, h))
take-take (suc n) (suc m) [] h = refl
take-take (suc n) (suc m) (x ∷ xs) h = ap (◌∷◌ x) (take-take n m xs (omega (arith, h)))

take-beyond :
    (xs : List ℕ) (m : ℕ) (ys : List ℕ) → take (length xs + m) (xs ++ ys) ≡ xs ++ take m ys
take-beyond xs m ys =
    take_add (length xs) m (xs ++ ys)
    ∙ ap₂ (λ front back. front ++ back) (take-append xs ys (length xs) refl)
        (ap (take m) (drop-append xs ys (length xs) refl))

-- A front of the chunks has a front of the bytes.
chunk_bytes-take :
    (n : ℕ) (cs : List Chunk) → (m : ℕ) × (chunk_bytes (take n cs) ≡ take m (chunk_bytes cs))
chunk_bytes-take zero cs = (0, refl)
chunk_bytes-take (suc n) [] = (0, refl)
chunk_bytes-take (suc n) (c ∷ cs) =
    let (m, e) = chunk_bytes-take n cs in
    (length c.bytes + m, ap (λ r. c.bytes ++ r) e ∙ sym (take-beyond c.bytes m (chunk_bytes cs)))

module _ (stream : List ℕ) (cut : ℕ → Option (List ℕ)) (short : length stream < 2 ^ 64)
    (acks : ℕ → AckPayload → Option Error) (writes : ℕ → Write) (side : Side) where
  -- What a stream writes to its connection is a front of what the peer sent, in whatever order its frames
  -- arrive, again and again or never, and whatever writes and ACKs fail, also half-way, if the pump takes
  -- the chunks that have become ready up to some point; the number in its ACKs is never beyond
  -- that front, and it is the length of it unless the stream has failed.
  pub delivery_prefix :
      (s : Stream) (capacity taken : ℕ) (fs : List Packet)
      → s.recv_seq ≡ 0
      → All (IsPacket stream cut short) fs
      → let t = pump acks writes side 0 s (take taken (receive (new capacity) fs).1) in
        (t.1 ≡ take (length t.1) stream)
        × (t.0.recv_seq ≤ length t.1)
        × ((t.0.recv_seq ≡ length t.1) ⊎ (t.0.done ≡ true))
  delivery_prefix s capacity taken fs at_start packets =
      let r = receive (new capacity) fs in
      let chunks = take taken r.1 in
      let t = pump acks writes side 0 s chunks in
      let (n, number, within, all, front) =
        pump_written acks writes side 0 s chunks (omega (arith, at_start)) in
      let (m, cut_off) = chunk_bytes-take taken r.1 in
      let some_bytes : take (length t.1) (take m (chunk_bytes r.1)) ≡ t.1 =
        subst (λ l. take (length t.1) l ≡ t.1) cut_off front in
      let of_all =
        sym some_bytes ∙ take-take (length t.1) m (chunk_bytes r.1) (ap length some_bytes) in
      let of_front : take (length t.1) (take r.0.next stream) ≡ t.1 =
        subst (λ l. take (length t.1) l ≡ t.1) (receive_prefix stream cut short capacity fs packets)
          (sym of_all) in
      let of_stream = sym of_front ∙ take-take (length t.1) r.0.next stream (ap length of_front) in
      let fits : length t.1 < 2 ^ 64 =
        omega (arith, ap length of_stream, length-take (length t.1) stream, short) in
      let same : t.0.recv_seq ≡ n = omega (arith, number, at_start, within, fits) in
      (
        of_stream,
        omega (arith, same, within),
        elim all [ inl whole ↦ inl (same ∙ whole) | inr failed ↦ inr failed ],
      )
