-- ===== src/Reorder/Last.antt =====
-- The chunk with the END flag is handed on at the end of the stream.
use cwnd_warm_up_proxy.Prelude.{
  ℕ, ◌^◌, ◌≤◌, ◌<◌, ◌≡◌, refl, ap, inl, inr, List, [], ◌∷◌, ◌++◌, Bool, true, false, ◌||◌, Option,
  some, length, take, length-append, length-take, append-nil, All, arith, Bool-cases,
}
use cwnd_warm_up_proxy.Prelude.Table.{lookup, AllEntries-lookup}
use cwnd_warm_up_proxy.Reorder.Cases.{chunk_of, pop_loop_induction, push_cases}
use cwnd_warm_up_proxy.Reorder.{Chunk, Entry, ReorderBuffer, pop_one, pop_ready, store, push}
use cwnd_warm_up_proxy.Reorder.Deliver.{
  chunk_bytes, chunks_of, EntrySegment, Holds, pop_one-next, pop_one-Holds, Continues,
  step-Continues, store-Holds,
}
use cwnd_warm_up_proxy.Reorder.Receive.{
  Packet, receive, IsPacket, push-Continues, receive-Continues,
}

-- Some chunk is the last.
abbrev pub any_end : List Chunk → Bool
any_end [] = false
any_end (c ∷ cs) = c.end || any_end cs

pub any_end-append : (cs ds : List Chunk) → any_end (cs ++ ds) ≡ (any_end cs || any_end ds)
any_end-append [] ds = refl
any_end-append (c ∷ cs) ds = ground (arith, any_end-append cs ds)

module _ (stream : List ℕ) (cut : ℕ → Option (List ℕ)) (short : length stream < 2 ^ 64) where
  Continues-mono :
      (r : ReorderBuffer) (t : ReorderBuffer × List Chunk)
      → Holds stream cut r
      → Continues stream cut short r t
      → r.next ≤ t.0.next
  Continues-mono r t h c = omega (
    arith,
    h.next,
    ap length c.1,
    length-append (take r.next stream) (chunk_bytes t.1),
    length-take r.next stream,
    length-take t.0.next stream,
  )

  -- If a last chunk was handed on, the position is the end of the stream.
  record AtEnd (r : ReorderBuffer) (t : ReorderBuffer × List Chunk) : Type 0 where
    continues : Continues stream cut short r t
    end : any_end t.1 ≡ true → t.0.next ≡ length stream

  step-AtEnd :
      (r : ReorderBuffer) (e : Entry) (t : ReorderBuffer × List Chunk)
      → lookup r.next r.buffer ≡ some e
      → Holds stream cut r
      → AtEnd (pop_one r e) t
      → AtEnd r (t.0, chunk_of e ∷ t.1)
  step-AtEnd r e t found h a =
      let seg = AllEntries-lookup (EntrySegment stream cut) r.next e r.buffer h.segments found in
      let next = pop_one-next stream cut short r e h found in
      let grows =
        Continues-mono (pop_one r e) t (pop_one-Holds stream cut short r e h found) a.continues in
      record {
        continues = step-Continues stream cut short r e t h found a.continues;
        end = λ ends. elim (Bool-cases e.end) [
          | inl last ↦ omega (arith, next, seg.last last, grows, a.continues.0.next)
          | inr more ↦ a.end (ground (arith, ends, more))
        ];
      }

  pop_ready-AtEnd : (r : ReorderBuffer) → Holds stream cut r → AtEnd r (pop_ready r)
  unfolding pop_ready
  pop_ready-AtEnd r =
      pop_loop_induction (λ s t. Holds stream cut s → AtEnd s t)
        (λ s h. record {
          continues = (h, append-nil (take s.next stream));
          end = λ e. absurd (ground (arith, e));
        })
        (λ s e t found ih h.
          step-AtEnd s e t found h (ih (pop_one-Holds stream cut short s e h found)))
        (length r.buffer) r

  push_end :
      (r : ReorderBuffer) (f : Packet)
      → Holds stream cut r
      → IsPacket stream cut short f
      → let t = push r f.seq f.payload f.end in
        any_end (chunks_of t.1) ≡ true → t.0.next ≡ length stream
  push_end r f h seg =
      push_cases (λ t. any_end (chunks_of t.1) ≡ true → t.0.next ≡ length stream) r f.seq f.payload
        f.end (λ _ e. absurd (ground (arith, e))) (λ _ _ _ e. absurd (ground (arith, e)))
        (λ _ _ _ e. absurd (ground (arith, e)))
        (λ _ _ _.
          (pop_ready-AtEnd (store r f.seq f.payload f.end)
            (store-Holds stream cut short r f.seq f.payload f.end h seg)).end)

  -- A run that has handed on the last chunk stands at the end of the stream.
  pub receive_end :
      (fs : List Packet) (r : ReorderBuffer)
      → Holds stream cut r
      → All (IsPacket stream cut short) fs
      → any_end (receive r fs).1 ≡ true
      → (receive r fs).0.next ≡ length stream
  unfolding receive
  receive_end [] r h segs ends = absurd (ground (arith, ends))
  receive_end (f ∷ fs) r h (seg, segs) ends =
      let t = push r f.seq f.payload f.end in
      let held = (push-Continues stream cut short r f.seq f.payload f.end h seg).0 in
      let rest = receive-Continues stream cut short fs t.0 held segs in
      elim (Bool-cases (any_end (chunks_of t.1))) [
        | inl here ↦ omega (
          arith,
          push_end r f h seg here,
          Continues-mono t.0 (receive t.0 fs) held rest,
          rest.0.next,
        )
        | inr not_here ↦
            receive_end fs t.0 held segs
              (ground (arith, ends, not_here, any_end-append (chunks_of t.1) (receive t.0 fs).1))
      ]
