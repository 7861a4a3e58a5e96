-- ===== src/Reorder/Deliver.antt =====
-- The delivered chunks against the byte stream that the sender cut into frames.
use cwnd_warm_up_proxy.Prelude.{
  ℕ, ◌+◌, ◌^◌, ◌≤◌, ◌<◌, ◌≡◌, sym, ap, ◌∙◌, inl, inr, List, [], ◌∷◌, ◌++◌, Bool, true, Option, some,
  length, take, drop, arith, Bool-cases, append_assoc, append-nil, take_add,
}
use cwnd_warm_up_proxy.Prelude.Results.{Result, ok, err}
use cwnd_warm_up_proxy.Prelude.Table.{
  lookup, insert, AllEntries, AllEntries-lookup, AllEntries-insert, AllEntries-delete,
}
use cwnd_warm_up_proxy.Reorder.Cases.{chunk_of, pop_loop_induction}
use cwnd_warm_up_proxy.Reorder.{
  Chunk, Entry, ReorderBuffer, Error, new, pop_one, pop_ready, late, repeated, store,
}

abbrev pub chunk_bytes : List Chunk → List ℕ
chunk_bytes [] = []
chunk_bytes (c ∷ cs) = c.bytes ++ chunk_bytes cs

-- The chunks that a call of `Push` hands on; none on an error.
abbrev pub chunks_of : Result Error (List Chunk) → List Chunk
chunks_of (ok cs) = cs
chunks_of (err e) = []

-- The sender cuts the stream once: `cut seq` is the payload of its frame at `seq`, if there is one.
-- A frame of it carries the bytes of the stream at its sequence number, and the END flag only if it
-- reaches the end of the stream.
module _ (stream : List ℕ) (cut : ℕ → Option (List ℕ)) where
  pub record IsSegment (seq : ℕ) (payload : List ℕ) (end : Bool) : Type 0 where
    pub known : cut seq ≡ some payload
    pub fits : seq + length payload ≤ length stream
    pub content : take (length payload) (drop seq stream) ≡ payload
    pub last : end ≡ true → seq + length payload ≡ length stream

  abbrev pub EntrySegment : ℕ → Entry → Type 0
  EntrySegment seq e = IsSegment seq e.payload e.end

  -- The buffer holds parts of the stream only.
  pub record Holds (r : ReorderBuffer) : Type 0 where
    pub next : r.next ≤ length stream
    pub segments : AllEntries EntrySegment r.buffer
    pub end_seq : r.end_seq ≤ length stream

  pub new-Holds : (capacity : ℕ) → Holds (new capacity)
  unfolding new
  new-Holds capacity = record { next = omega arith; segments = tt; end_seq = omega arith }

module _ (stream : List ℕ) (cut : ℕ → Option (List ℕ)) (short : length stream < 2 ^ 64) where
  -- The position moves on by the payload that is handed on, whatever the END flag.
  pub pop_one-next :
      (r : ReorderBuffer) (e : Entry)
      → Holds stream cut r
      → lookup r.next r.buffer ≡ some e
      → (pop_one r e).next ≡ r.next + length e.payload
  unfolding pop_one
  pop_one-next r e h found =
      let seg = AllEntries-lookup (EntrySegment stream cut) r.next e r.buffer h.segments found in
      ground (arith, seg, seg.fits, seg.last, h.end_seq)

  pub pop_one-Holds :
      (r : ReorderBuffer) (e : Entry)
      → Holds stream cut r
      → lookup r.next r.buffer ≡ some e
      → Holds stream cut (pop_one r e)
  unfolding pop_one
  pop_one-Holds r e h found =
      let seg = AllEntries-lookup (EntrySegment stream cut) r.next e r.buffer h.segments found in
      record {
        next = omega (arith, pop_one-next r e h found, seg.fits);
        segments = AllEntries-delete (EntrySegment stream cut) r.next r.buffer h.segments;
        end_seq = h.end_seq;
      }

  -- What a call has handed on continues the stream from where the buffer stood before.
  abbrev pub Continues : ReorderBuffer → ReorderBuffer × List Chunk → Type 0
  Continues r t =
      Holds stream cut t.0 × (take r.next stream ++ chunk_bytes t.1 ≡ take t.0.next stream)

  pub step-Continues :
      (r : ReorderBuffer) (e : Entry) (t : ReorderBuffer × List Chunk)
      → Holds stream cut r
      → lookup r.next r.buffer ≡ some e
      → Continues (pop_one r e) t
      → Continues r (t.0, chunk_of e ∷ t.1)
  step-Continues r e t h found (held, more) =
      let seg = AllEntries-lookup (EntrySegment stream cut) r.next e r.buffer h.segments found in
      (
        held,
        sym (append_assoc (take r.next stream) e.payload (chunk_bytes t.1))
            ∙ ap (λ l. l ++ chunk_bytes t.1) (next_bytes seg)
            ∙ more,
      )
    where
      next_bytes :
          IsSegment stream cut r.next e.payload e.end
          → take r.next stream ++ e.payload ≡ take (pop_one r e).next stream
      next_bytes seg =
          ap (λ l. take r.next stream ++ l) (sym seg.content)
          ∙ sym (take_add r.next (length e.payload) stream)
          ∙ ap (λ n. take n stream) (sym (pop_one-next r e h found))

  pub pop_ready-Continues : (r : ReorderBuffer) → Holds stream cut r → Continues r (pop_ready r)
  unfolding pop_ready
  pop_ready-Continues r =
      pop_loop_induction (λ s t. Holds stream cut s → Continues s t)
        (λ s h. (h, append-nil (take s.next stream)))
        (λ s e t found ih h. step-Continues s e t h found (ih (pop_one-Holds s e h found)))
        (length r.buffer) r

  pub late-Holds :
      (r : ReorderBuffer) (seq : ℕ) (p : List ℕ) (end : Bool)
      → Holds stream cut r
      → IsSegment stream cut seq p end
      → Holds stream cut (late r seq p end)
  unfolding late
  late-Holds r seq p end h seg = ground (arith, h, seg.fits)

  pub repeated-Holds :
      (r : ReorderBuffer) (seq : ℕ) (p : List ℕ) (d : Entry) (end : Bool)
      → Holds stream cut r
      → IsSegment stream cut seq p end
      → lookup seq r.buffer ≡ some d
      → Holds stream cut (repeated r seq d end)
  unfolding repeated
  repeated-Holds r seq p d end h seg found = elim (Bool-cases end) [
    | inl e ↦ record {
      next = ground (arith, h.next);
      segments = ground (arith, h.segments, kept e);
      end_seq = ground (arith, h.end_seq);
    }
    | inr e ↦ ground (arith, h)
  ]
    where
      old : IsSegment stream cut seq d.payload d.end
      old = AllEntries-lookup (EntrySegment stream cut) seq d r.buffer h.segments found

      kept :
          end ≡ true
          → AllEntries (EntrySegment stream cut) (insert seq (record d { end = true }) r.buffer)
      kept e =
          AllEntries-insert (EntrySegment stream cut) seq (record d { end = true }) r.buffer
            (record {
              known = old.known;
              fits = old.fits;
              content = old.content;
              last = λ _. ground (arith, seg.last e, old.known, seg.known);
            })
            h.segments

  pub store-Holds :
      (r : ReorderBuffer) (seq : ℕ) (p : List ℕ) (end : Bool)
      → Holds stream cut r
      → IsSegment stream cut seq p end
      → Holds stream cut (store r seq p end)
  unfolding store
  store-Holds r seq p end h seg = record {
    next = h.next;
    segments =
        AllEntries-insert (EntrySegment stream cut) seq (record { payload = p; end = end }) r.buffer
          seg h.segments;
    end_seq = ground (arith, h, seg.fits);
  }
