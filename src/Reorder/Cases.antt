-- ===== src/Reorder/Cases.antt =====
-- The ways through `Push` and through the loop of popReadyLocked, for proofs by cases.
use cwnd_warm_up_proxy.Prelude.{
  ℕ, zero, suc, ◌≤◌, ◌<◌, ◌≡◌, refl, inl, inr, List, [], ◌∷◌, Bool, true, false, none, some, ltb,
  arith, Bool-cases, Option-cases, ltb→lt, ltb_false→le,
}
use cwnd_warm_up_proxy.Prelude.Results.{Result, ok, err}
use cwnd_warm_up_proxy.Prelude.Table.{lookup}
use cwnd_warm_up_proxy.Reorder.{
  Chunk, Entry, ReorderBuffer, Error, reorder_overflow, pop_one, pop_loop, pop_ready, late,
  repeated, store, does_overflow, delivered, push_new, push_at, push,
}

abbrev pub chunk_of : Entry → Chunk
chunk_of e = record { bytes = e.payload; end = e.end }

pub pop_loop_stop :
    (n : ℕ) (r : ReorderBuffer) → lookup r.next r.buffer ≡ none → pop_loop (suc n) r ≡ (r, [])
unfolding pop_loop
pop_loop_stop n r h = rw (h, pop_loop) refl

pub pop_loop_step :
    (n : ℕ) (r : ReorderBuffer) (e : Entry)
    → lookup r.next r.buffer ≡ some e
    → pop_loop (suc n) r ≡ ((pop_loop n (pop_one r e)).0, chunk_of e ∷ (pop_loop n (pop_one r e)).1)
unfolding pop_loop
pop_loop_step n r e h = rw (h, pop_loop) refl

-- A property of the loop's result from one of each round.
pub pop_loop_induction {ℓ} :
    (P : ReorderBuffer → ReorderBuffer × List Chunk → Type ℓ)
    → ((r : ReorderBuffer) → P r (r, []))
    → ((r : ReorderBuffer) (e : Entry) (t : ReorderBuffer × List Chunk)
        → lookup r.next r.buffer ≡ some e
        → P (pop_one r e) t
        → P r (t.0, chunk_of e ∷ t.1))
    → (n : ℕ) (r : ReorderBuffer) → P r (pop_loop n r)
unfolding pop_loop
pop_loop_induction P stop step zero r = stop r
pop_loop_induction P stop step (suc n) r = elim (Option-cases (lookup r.next r.buffer)) [
  | inl h ↦ rw (pop_loop_stop n r h) (stop r)
  | inr (e, h) ↦
      rw (pop_loop_step n r e h)
        (step r e (pop_loop n (pop_one r e)) h (pop_loop_induction P stop step n (pop_one r e)))
]

module _ {ℓ} (P : ReorderBuffer × Result Error (List Chunk) → Type ℓ) (r : ReorderBuffer) (seq : ℕ)
    (p : List ℕ) (end : Bool) (at_late : seq < r.next → P (late r seq p end, ok []))
    (at_repeat : (e : Entry)
      → r.next ≤ seq
      → lookup seq r.buffer ≡ some e
      → P (repeated r seq e end, ok []))
    (at_overflow : r.next ≤ seq
      → lookup seq r.buffer ≡ none
      → does_overflow r p ≡ true
      → P (r, err reorder_overflow))
    (at_store : r.next ≤ seq
      → lookup seq r.buffer ≡ none
      → does_overflow r p ≡ false
      → P (delivered (pop_ready (store r seq p end)))) where
  -- A property of `Push` from one of each of its four outcomes.
  pub push_cases : P (push r seq p end)
  unfolding push push_at push_new
  push_cases = elim (Bool-cases (ltb seq r.next)) [
    | inl e ↦ rw e (at_late (ltb→lt seq r.next e))
    | inr e ↦ elim (Option-cases (lookup seq r.buffer)) [
      | inl free ↦ elim (Bool-cases (does_overflow r p)) [
        | inl full ↦
            rw (e, free, full, push_new) (at_overflow (ltb_false→le seq r.next e) free full)
        | inr room ↦ rw (e, free, room, push_new) (at_store (ltb_false→le seq r.next e) free room)
      ]
      | inr (d, found) ↦ rw (e, found) (at_repeat d (ltb_false→le seq r.next e) found)
    ]
  ]

pub late-next :
    (r : ReorderBuffer) (seq : ℕ) (p : List ℕ) (end : Bool) → (late r seq p end).next ≡ r.next
unfolding late
late-next r seq p end = ground arith

pub repeated-next :
    (r : ReorderBuffer) (seq : ℕ) (e : Entry) (end : Bool) → (repeated r seq e end).next ≡ r.next
unfolding repeated
repeated-next r seq e end = ground arith

pub store-next :
    (r : ReorderBuffer) (seq : ℕ) (p : List ℕ) (end : Bool) → (store r seq p end).next ≡ r.next
unfolding store
store-next r seq p end = refl
