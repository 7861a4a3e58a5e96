-- ===== src/Reorder/Whole.antt =====
-- Runs in which every frame of the stream was taken.
use cwnd_warm_up_proxy.Prelude.{
  ℕ, ◌^◌, ◌<◌, ◌≡◌, ◌⊎◌, inl, inr, refl, sym, subst, Bool, false, Bool-cases, ◌==◌, ◌&&◌, ◌||◌, ◌∙◌,
  List, [], ◌∷◌, true, Option, length, take, take_all, arith, All, ap,
}
use cwnd_warm_up_proxy.Prelude.Table.{lookup}
use cwnd_warm_up_proxy.Reorder.{ReorderBuffer, new, push}
use cwnd_warm_up_proxy.Reorder.Deliver.{chunk_bytes, Holds, new-Holds}
use cwnd_warm_up_proxy.Reorder.Receive.{Packet, receive, IsPacket, push-Continues, receive_prefix}
use cwnd_warm_up_proxy.Reorder.Complete.{
  IsDrained, push-IsDrained, is_ok, Seen, Starts, IsBoundary, Covers, push-Keeps, push-Seen,
}

-- No call of `Push` in the run reports an overflow.
abbrev pub AllAccepted : ReorderBuffer → List Packet → Type 0
AllAccepted r [] = Unit {0}
AllAccepted r (f ∷ fs) =
    let t = push r f.seq f.payload f.end in (is_ok t.1 ≡ true) × AllAccepted t.0 fs

-- A frame at this sequence number is in the list.
abbrev pub Among : ℕ → List Packet → Type 0
Among k [] = ⊥
Among k (f ∷ fs) = (f.seq ≡ k) ⊎ Among k fs

-- A frame at this sequence number is among those of the run that `Push` took.
abbrev pub is_taken : ℕ → ReorderBuffer → List Packet → Bool
is_taken k r [] = false
is_taken k r (f ∷ fs) =
    let t = push r f.seq f.payload f.end in ((f.seq == k) && is_ok t.1) || is_taken k t.0 fs

accepted_taken :
    (k : ℕ) (fs : List Packet) (r : ReorderBuffer)
    → AllAccepted r fs
    → Among k fs
    → is_taken k r fs ≡ true
accepted_taken k [] r a m = absurd m
accepted_taken k (f ∷ fs) r a (inl e) = ground (arith, e, a.0)
accepted_taken k (f ∷ fs) r a (inr m) =
    ground (arith, accepted_taken k fs (push r f.seq f.payload f.end).0 a.1 m)

new-next : (capacity : ℕ) → (new capacity).next ≡ 0
unfolding new
new-next capacity = refl

new-IsDrained : (capacity : ℕ) → IsDrained (new capacity)
unfolding new lookup
new-IsDrained capacity = refl

module _ (stream : List ℕ) (cut : ℕ → Option (List ℕ)) (short : length stream < 2 ^ 64) where
  -- What a run ends in: a position at which a frame starts or the stream ends, the frame that is
  -- waited for not in the buffer, and every frame seen that was seen before or came in the run.
  record Ends (r : ReorderBuffer) (fs : List Packet) (t : ReorderBuffer) : Type 0 where
    at : IsBoundary stream cut short t.next
    drained : IsDrained t
    seen : (k : ℕ) → Starts stream cut short k → Seen r k ⊎ (is_taken k r fs ≡ true) → Seen t k

  receive-Ends :
      (fs : List Packet) (r : ReorderBuffer)
      → Covers stream cut short
      → Holds stream cut r
      → IsBoundary stream cut short r.next
      → IsDrained r
      → All (IsPacket stream cut short) fs
      → Ends r fs (receive r fs).0
  unfolding receive
  receive-Ends [] r cov h at d segs = record {
    at = at;
    drained = d;
    seen = λ k _ s. ground (arith, s);
  }
  receive-Ends (f ∷ fs) r cov h at d (seg, segs) =
      let t = (push r f.seq f.payload f.end).0 in
      let kept = push-Keeps stream cut short cov r f.seq f.payload f.end h seg at in
      let held = (push-Continues stream cut short r f.seq f.payload f.end h seg).0 in
      let later =
        receive-Ends fs t cov held kept.0 (push-IsDrained r f.seq f.payload f.end d) segs in
      record {
        at = later.at;
        drained = later.drained;
        seen = λ k st s. later.seen k st (first k st s);
      }
    where
      first :
          (k : ℕ)
          → Starts stream cut short k
          → Seen r k ⊎ (is_taken k r (f ∷ fs) ≡ true)
          → Seen (push r f.seq f.payload f.end).0 k
            ⊎ (is_taken k (push r f.seq f.payload f.end).0 fs ≡ true)
      first k st (inl s) =
          inl ((push-Keeps stream cut short cov r f.seq f.payload f.end h seg at).1 k st s)
      first k st (inr m) =
          elim (Bool-cases ((f.seq == k) && is_ok (push r f.seq f.payload f.end).1)) [
            | inl here ↦
                let same : f.seq ≡ k = ground (arith, here) in
                inl (
                  subst (Seen (push r f.seq f.payload f.end).0) same (
                    push-Seen stream cut short cov r f.seq f.payload f.end h seg at
                      (subst (Starts stream cut short) (sym same) st) (ground (arith, here))))
            | inr later ↦ inr (ground (arith, m, later))
          ]

  -- A run that takes a frame at every cut delivers the stream.
  pub receive_taken :
      (capacity : ℕ) (fs : List Packet)
      → Covers stream cut short
      → All (IsPacket stream cut short) fs
      → ((k : ℕ) → Starts stream cut short k → is_taken k (new capacity) fs ≡ true)
      → chunk_bytes (receive (new capacity) fs).1 ≡ stream
  receive_taken capacity fs cov segs every =
      let t = (receive (new capacity) fs).0 in
      let ends =
        receive-Ends fs (new capacity) cov (new-Holds stream cut capacity)
          (subst (IsBoundary stream cut short) (sym (new-next capacity)) cov.first)
          (new-IsDrained capacity) segs in
      receive_prefix stream cut short capacity fs segs
      ∙ ap (λ n. take n stream)
          (at_end t ends.at ends.drained (λ st. ends.seen t.next st (inr (every t.next st))))
      ∙ take_all (length stream) stream (omega arith)
    where
      at_end :
          (t : ReorderBuffer)
          → IsBoundary stream cut short t.next
          → IsDrained t
          → (Starts stream cut short t.next → Seen t t.next)
          → t.next ≡ length stream
      at_end t (inl e) d s = e
      at_end t (inr st) d s = absurd (ground (arith, d, s st))

  -- If a run takes every frame of a stream, whatever the order and the repetitions, then the chunks
  -- that it handed on are the whole stream.
  pub receive_whole :
      (capacity : ℕ) (fs : List Packet)
      → Covers stream cut short
      → All (IsPacket stream cut short) fs
      → AllAccepted (new capacity) fs
      → ((k : ℕ) → Starts stream cut short k → Among k fs)
      → chunk_bytes (receive (new capacity) fs).1 ≡ stream
  receive_whole capacity fs cov segs acc every =
      receive_taken capacity fs cov segs
        (λ k st. accepted_taken k fs (new capacity) acc (every k st))
