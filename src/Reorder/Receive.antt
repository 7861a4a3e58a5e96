-- ===== src/Reorder/Receive.antt =====
-- Runs of `Push` over the frames of one stream: what is handed on is a prefix of the stream.
use cwnd_warm_up_proxy.Prelude.{
  ℕ, ◌^◌, ◌<◌, ◌≡◌, refl, sym, ap, ◌∙◌, List, [], ◌∷◌, ◌++◌, Bool, Option, length, take,
  append_assoc, append-nil, All,
}
use cwnd_warm_up_proxy.Reorder.Cases.{push_cases, late-next, repeated-next, store-next}
use cwnd_warm_up_proxy.Reorder.{Chunk, ReorderBuffer, new, pop_ready, late, repeated, store, push}
use cwnd_warm_up_proxy.Reorder.Deliver.{
  chunk_bytes, chunks_of, IsSegment, Holds, new-Holds, Continues, pop_ready-Continues, late-Holds,
  repeated-Holds, store-Holds,
}

-- A DATA frame as it reaches `Push`.
pub record Packet : Type 0 where
  pub seq : ℕ
  pub payload : List ℕ
  pub end : Bool

-- The calls of `Push` for the frames in the order of their arrival, and all chunks handed on.
unfoldable pub receive : ReorderBuffer → List Packet → ReorderBuffer × List Chunk
receive r [] = (r, [])
receive r (f ∷ fs) =
    let t = push r f.seq f.payload f.end in
    let rest = receive t.0 fs in (rest.0, chunks_of t.1 ++ rest.1)

pub chunk_bytes-append :
    (xs ys : List Chunk) → chunk_bytes (xs ++ ys) ≡ chunk_bytes xs ++ chunk_bytes ys
chunk_bytes-append [] ys = refl
chunk_bytes-append (c ∷ xs) ys =
    ap (λ l. c.bytes ++ l) (chunk_bytes-append xs ys)
    ∙ sym (append_assoc c.bytes (chunk_bytes xs) (chunk_bytes ys))

module _ (stream : List ℕ) (cut : ℕ → Option (List ℕ)) (short : length stream < 2 ^ 64) where
  abbrev pub IsPacket : Packet → Type 0
  IsPacket f = IsSegment stream cut f.seq f.payload f.end

  -- One call hands on the bytes of the stream between the old position and the new one.
  pub push-Continues :
      (r : ReorderBuffer) (seq : ℕ) (p : List ℕ) (end : Bool)
      → Holds stream cut r
      → IsSegment stream cut seq p end
      → let t = push r seq p end in Continues stream cut short r (t.0, chunks_of t.1)
  push-Continues r seq p end h seg =
      push_cases (λ t. Continues stream cut short r (t.0, chunks_of t.1)) r seq p end
        (λ _. (
          late-Holds stream cut short r seq p end h seg,
          unmoved (late r seq p end) (late-next r seq p end),
        ))
        (λ d _ found. (
          repeated-Holds stream cut short r seq p d end h seg found,
          unmoved (repeated r seq d end) (repeated-next r seq d end),
        ))
        (λ _ _ _. (h, unmoved r refl))
        (λ _ _ _. ready (store r seq p end) (store-next r seq p end) (
          pop_ready-Continues stream cut short (store r seq p end)
            (store-Holds stream cut short r seq p end h seg)))
    where
      unmoved :
          (s : ReorderBuffer) → s.next ≡ r.next → take r.next stream ++ [] ≡ take s.next stream
      unmoved s e = append-nil (take r.next stream) ∙ ap (λ n. take n stream) (sym e)

      ready :
          (s : ReorderBuffer)
          → s.next ≡ r.next
          → Continues stream cut short s (pop_ready s)
          → Continues stream cut short r (pop_ready s)
      ready s e c = (c.0, ap (λ n. take n stream ++ chunk_bytes (pop_ready s).1) (sym e) ∙ c.1)

  pub receive-Continues :
      (fs : List Packet) (r : ReorderBuffer)
      → Holds stream cut r
      → All IsPacket fs
      → Continues stream cut short r (receive r fs)
  unfolding receive
  receive-Continues [] r h _ = (h, append-nil (take r.next stream))
  receive-Continues (f ∷ fs) r h (seg, segs) =
      let t = push r f.seq f.payload f.end in
      let first = push-Continues r f.seq f.payload f.end h seg in
      let later = receive-Continues fs t.0 first.0 segs in
      (
        later.0,
        ap (λ l. take r.next stream ++ l) (chunk_bytes-append (chunks_of t.1) (receive t.0 fs).1)
            ∙ sym (
                append_assoc (take r.next stream) (chunk_bytes (chunks_of t.1))
                  (chunk_bytes (receive t.0 fs).1))
            ∙ ap (λ l. l ++ chunk_bytes (receive t.0 fs).1) first.1
            ∙ later.1,
      )

  -- Frames of the stream may arrive in any order, repeatedly, or never, and may be refused: the
  -- bytes handed on are always the stream's first ones, up to the position of the buffer.
  pub receive_prefix :
      (capacity : ℕ) (fs : List Packet)
      → All IsPacket fs
      → let t = receive (new capacity) fs in chunk_bytes t.1 ≡ take t.0.next stream
  unfolding new
  receive_prefix capacity fs segs =
      (receive-Continues fs (new capacity) (new-Holds stream cut capacity) segs).1
