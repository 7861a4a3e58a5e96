-- ===== src/Reorder/Complete.antt =====
-- Nothing that was accepted is held back: a run that took every frame has delivered the stream.
use cwnd_warm_up_proxy.Prelude.{
  ℕ, zero, suc, ◌+◌, ◌^◌, ◌<◌, ◌≤◌, ◌≡◌, ◌⊎◌, inl, inr, refl, ap, subst, List, [], ◌∷◌, Bool, true,
  false, Option, none, some, length, arith, ◌==◌, Bool-cases, Option-cases,
}
use cwnd_warm_up_proxy.Prelude.Results.{Result, ok, err}
use cwnd_warm_up_proxy.Prelude.Table.{
  lookup, delete, lookup-insert, lookup-delete, length-delete, AllEntries-lookup,
}
use cwnd_warm_up_proxy.Reorder.Cases.{
  pop_loop_stop, pop_loop_step, pop_loop_induction, push_cases, late-next, repeated-next,
  store-next,
}
use cwnd_warm_up_proxy.Reorder.{
  Chunk, Entry, ReorderBuffer, Error, pop_one, pop_loop, pop_ready, late, repeated, store, push,
}
use cwnd_warm_up_proxy.Reorder.Deliver.{
  chunks_of, IsSegment, EntrySegment, Holds, pop_one-next, pop_one-Holds, store-Holds,
}

-- The frame that the buffer waits for is not in it.
abbrev pub IsDrained : ReorderBuffer → Type 0
IsDrained r = lookup r.next r.buffer ≡ none

length-pop_one :
    (r : ReorderBuffer) (e : Entry)
    → lookup r.next r.buffer ≡ some e
    → length (pop_one r e).buffer < length r.buffer
unfolding pop_one
length-pop_one r e found = length-delete r.next r.buffer e found

lookup_empty : (k : ℕ) (m : List (ℕ × Entry)) → length m ≤ 0 → lookup k m ≡ none
unfolding lookup
lookup_empty k [] h = refl
lookup_empty k (x ∷ m) h = absurd (omega arith)

-- As many rounds as there are entries are enough for the loop to end by its own test.
pop_loop-IsDrained : (n : ℕ) (r : ReorderBuffer) → length r.buffer ≤ n → IsDrained (pop_loop n r).0
unfolding pop_loop
pop_loop-IsDrained zero r h = lookup_empty r.next r.buffer h
pop_loop-IsDrained (suc n) r h = elim (Option-cases (lookup r.next r.buffer)) [
  | inl e ↦ rw (pop_loop_stop n r e) e
  | inr (d, e) ↦
      rw (pop_loop_step n r d e)
        (pop_loop-IsDrained n (pop_one r d) (omega (arith, length-pop_one r d e)))
]

late-IsDrained :
    (r : ReorderBuffer) (seq : ℕ) (p : List ℕ) (end : Bool)
    → IsDrained r
    → IsDrained (late r seq p end)
unfolding late
late-IsDrained r seq p end d = ground arith

repeated-IsDrained :
    (r : ReorderBuffer) (seq : ℕ) (e : Entry) (end : Bool)
    → IsDrained r
    → lookup seq r.buffer ≡ some e
    → IsDrained (repeated r seq e end)
unfolding repeated
repeated-IsDrained r seq e end d found =
    ground (arith, lookup-insert seq r.next (record e { end = true }) r.buffer)

-- After every call the buffer waits for a frame that it does not hold.
pub push-IsDrained :
    (r : ReorderBuffer) (seq : ℕ) (p : List ℕ) (end : Bool)
    → IsDrained r
    → IsDrained (push r seq p end).0
unfolding pop_ready
push-IsDrained r seq p end d =
    push_cases (λ t. IsDrained t.0) r seq p end (λ _. late-IsDrained r seq p end d)
      (λ e _ found. repeated-IsDrained r seq e end d found) (λ _ _ _. d)
      (λ _ _ _. pop_loop-IsDrained _ (store r seq p end) (omega arith))

abbrev pub is_some : Option Entry → Bool
is_some none = false
is_some (some e) = true

abbrev pub is_ok : Result Error (List Chunk) → Bool
is_ok (ok cs) = true
is_ok (err e) = false

-- A frame is behind the buffer's position, or waits in it.
abbrev pub Seen : ReorderBuffer → ℕ → Type 0
Seen r k = (k < r.next) ⊎ (is_some (lookup k r.buffer) ≡ true)

late-Seen :
    (r : ReorderBuffer) (seq : ℕ) (p : List ℕ) (end : Bool) (k : ℕ)
    → Seen r k
    → Seen (late r seq p end) k
unfolding late
late-Seen r seq p end k s = ground (arith, s)

repeated-Seen :
    (r : ReorderBuffer) (seq : ℕ) (e : Entry) (end : Bool) (k : ℕ)
    → Seen r k
    → Seen (repeated r seq e end) k
unfolding repeated
repeated-Seen r seq e end k s =
    ground (arith, s, lookup-insert seq k (record e { end = true }) r.buffer)

store-Seen :
    (r : ReorderBuffer) (seq : ℕ) (p : List ℕ) (end : Bool) (k : ℕ)
    → (k ≡ seq) ⊎ Seen r k
    → Seen (store r seq p end) k
unfolding store
store-Seen r seq p end k s =
    ground (arith, s, lookup-insert seq k (record { payload = p; end = end }) r.buffer)

pop_one-buffer : (r : ReorderBuffer) (e : Entry) → (pop_one r e).buffer ≡ delete r.next r.buffer
unfolding pop_one
pop_one-buffer r e = refl

module _ (stream : List ℕ) (cut : ℕ → Option (List ℕ)) (short : length stream < 2 ^ 64) where
  -- A frame with data starts at this position.
  abbrev pub Starts : ℕ → Type 0
  Starts n = (p : List ℕ) × (cut n ≡ some p) × (0 < length p)

  abbrev pub IsBoundary : ℕ → Type 0
  IsBoundary n = (n ≡ length stream) ⊎ Starts n

  -- The frames cover the stream: one starts at 0, and one where another ends, up to the end.
  pub record Covers : Type 0 where
    pub first : IsBoundary 0
    pub follows : (k : ℕ) (p : List ℕ) → cut k ≡ some p → 0 < length p → IsBoundary (k + length p)

  module _ (covers : Covers) where
    pop_one-IsBoundary :
        (r : ReorderBuffer) (e : Entry)
        → Holds stream cut r
        → IsBoundary r.next
        → lookup r.next r.buffer ≡ some e
        → IsBoundary (pop_one r e).next
    pop_one-IsBoundary r e h at found =
        let seg = AllEntries-lookup (EntrySegment stream cut) r.next e r.buffer h.segments found in
        rw (pop_one-next stream cut short r e h found) (elim (Bool-cases (length e.payload == 0)) [
          | inl no_data ↦
              let stays : r.next ≡ r.next + length e.payload = ground arith in
              subst IsBoundary stays at
          | inr data_here ↦ covers.follows r.next e.payload seg.known (ground arith)
        ])

    pop_one-Seen :
        (r : ReorderBuffer) (e : Entry) (k : ℕ)
        → Holds stream cut r
        → lookup r.next r.buffer ≡ some e
        → Starts k
        → Seen r k
        → Seen (pop_one r e) k
    pop_one-Seen r e k h found (p, here, some_data) s =
        let seg = AllEntries-lookup (EntrySegment stream cut) r.next e r.buffer h.segments found in
        ground (
          arith,
          s,
          some_data,
          pop_one-next stream cut short r e h found,
          pop_one-buffer r e,
          lookup-delete r.next k r.buffer,
          same_frame seg,
        )
      where
        same_frame :
            IsSegment stream cut r.next e.payload e.end → k ≡ r.next → length p ≡ length e.payload
        same_frame seg same = ground (arith, seg.known, here, ap cut same)

    -- What popReadyLocked keeps of the position and of the frames seen.
    abbrev pub Keeps : ReorderBuffer → ReorderBuffer × List Chunk → Type 0
    Keeps r t = IsBoundary t.0.next × ((k : ℕ) → Starts k → Seen r k → Seen t.0 k)

    pop_ready-Keeps :
        (r : ReorderBuffer) → Holds stream cut r → IsBoundary r.next → Keeps r (pop_ready r)
    unfolding pop_ready
    pop_ready-Keeps r =
        pop_loop_induction (λ s t. Holds stream cut s → IsBoundary s.next → Keeps s t)
          (λ s h at. (at, λ k _ seen. seen))
          (λ s e t found ih h at.
            let later =
              ih (pop_one-Holds stream cut short s e h found) (pop_one-IsBoundary s e h at found) in
            (later.0, λ k st seen. later.1 k st (pop_one-Seen s e k h found st seen)))
          (length r.buffer) r

    pub push-Keeps :
        (r : ReorderBuffer) (seq : ℕ) (p : List ℕ) (end : Bool)
        → Holds stream cut r
        → IsSegment stream cut seq p end
        → IsBoundary r.next
        → let t = push r seq p end in Keeps r (t.0, chunks_of t.1)
    push-Keeps r seq p end h seg at =
        push_cases (λ t. Keeps r (t.0, chunks_of t.1)) r seq p end
          (λ _. (rw (late-next r seq p end) at, λ k _. late-Seen r seq p end k))
          (λ d _ _. (rw (repeated-next r seq d end) at, λ k _. repeated-Seen r seq d end k))
          (λ _ _ _. (at, λ k _ seen. seen))
          (λ _ _ _.
            let kept =
              pop_ready-Keeps (store r seq p end) (store-Holds stream cut short r seq p end h seg)
                (rw (store-next r seq p end) at) in
            (kept.0, λ k st seen. kept.1 k st (store-Seen r seq p end k (inr seen))))

    pub push-Seen :
        (r : ReorderBuffer) (seq : ℕ) (p : List ℕ) (end : Bool)
        → Holds stream cut r
        → IsSegment stream cut seq p end
        → IsBoundary r.next
        → Starts seq
        → is_ok (push r seq p end).1 ≡ true
        → Seen (push r seq p end).0 seq
    push-Seen r seq p end h seg at st =
        push_cases (λ t. is_ok t.1 ≡ true → Seen t.0 seq) r seq p end
          (λ before _. late-Seen r seq p end seq (inl before))
          (λ d _ found _. repeated-Seen r seq d end seq (inr (ground (arith, found))))
          (λ _ _ _ no_error. absurd (ground (arith, no_error)))
          (λ _ _ _ _.
            let kept =
              pop_ready-Keeps (store r seq p end) (store-Holds stream cut short r seq p end h seg)
                (rw (store-next r seq p end) at) in
            kept.1 seq st (store-Seen r seq p end seq (inl refl)))
