-- ===== src/Reorder/Bounds.antt =====
-- The count of buffered bytes, and the capacity.
use cwnd_warm_up_proxy.Prelude.{
  ℕ, ◌+◌, ◌^◌, ◌≤◌, ◌<◌, ◌≡◌, refl, List, [], ◌∷◌, Bool, true, false, none, some, length, arith,
}
use cwnd_warm_up_proxy.Prelude.Table.{
  lookup, insert, delete, Distinct, insert-Distinct, delete-Distinct, delete_absent,
}
use cwnd_warm_up_proxy.Reorder.Cases.{pop_loop_induction, push_cases}
use cwnd_warm_up_proxy.Reorder.{
  Entry, ReorderBuffer, new, pop_one, pop_ready, late, repeated, store, does_overflow, push,
}

-- The bytes of all the entries.
unfoldable pub total : List (ℕ × Entry) → ℕ
total [] = 0
total ((k, e) ∷ m) = length e.payload + total m

total-insert :
    (k : ℕ) (e : Entry) (m : List (ℕ × Entry))
    → lookup k m ≡ none
    → total (insert k e m) ≡ length e.payload + total m
unfolding total lookup insert
total-insert k e [] h = refl
total-insert k e ((j, d) ∷ m) h = ground (arith, total-insert k e m)

total-insert_same :
    (k : ℕ) (e d : Entry) (m : List (ℕ × Entry))
    → lookup k m ≡ some d
    → e.payload ≡ d.payload
    → total (insert k e m) ≡ total m
unfolding total lookup insert
total-insert_same k e d [] h s = cc
total-insert_same k e d ((j, c) ∷ m) h s = ground (arith, total-insert_same k e d m)

total-delete :
    (k : ℕ) (d : Entry) (m : List (ℕ × Entry))
    → Distinct m
    → lookup k m ≡ some d
    → total (delete k m) + length d.payload ≡ total m
unfolding total lookup delete
total-delete k d [] u h = cc
total-delete k d ((j, c) ∷ m) u h = ground (arith, total-delete k d m u.1, delete_absent k m)

-- No key twice, and the count of bytes is exact and within the capacity.
pub record IsBounded (r : ReorderBuffer) : Type 0 where
  pub distinct : Distinct r.buffer
  pub counted : r.buffered ≡ total r.buffer
  pub within : r.buffered ≤ r.capacity
  pub capacity : r.capacity < 2 ^ 32

pub new-IsBounded : (capacity : ℕ) → capacity < 2 ^ 32 → IsBounded (new capacity)
unfolding new total
new-IsBounded capacity h = record {
  distinct = tt;
  counted = refl;
  within = omega arith;
  capacity = h;
}

pop_one-IsBounded :
    (r : ReorderBuffer) (e : Entry)
    → IsBounded r
    → lookup r.next r.buffer ≡ some e
    → IsBounded (pop_one r e)
unfolding pop_one
pop_one-IsBounded r e b h =
    let fewer = total-delete r.next e r.buffer b.distinct h in
    record {
      distinct = delete-Distinct r.next r.buffer b.distinct;
      counted = ground (arith, fewer, b);
      within = ground (arith, fewer, b);
      capacity = b.capacity;
    }

pop_ready-IsBounded : (r : ReorderBuffer) → IsBounded r → IsBounded (pop_ready r).0
unfolding pop_ready
pop_ready-IsBounded r =
    pop_loop_induction (λ s t. IsBounded s → IsBounded t.0) (λ s b. b)
      (λ s e t h ih b. ih (pop_one-IsBounded s e b h)) (length r.buffer) r

store-IsBounded :
    (r : ReorderBuffer) (seq : ℕ) (p : List ℕ) (end : Bool)
    → IsBounded r
    → r.capacity + length p < 2 ^ 32
    → lookup seq r.buffer ≡ none
    → does_overflow r p ≡ false
    → IsBounded (store r seq p end)
unfolding store
store-IsBounded r seq p end b fits free room =
    let more = total-insert seq (record { payload = p; end = end }) r.buffer free in
    record {
      distinct = insert-Distinct seq _ r.buffer b.distinct;
      counted = ground (arith, more, b);
      within = ground (arith, more, b);
      capacity = b.capacity;
    }

-- Whatever frames arrive, `Push` keeps the count of buffered bytes exact and within the capacity,
-- as long as the capacity and one payload together fit 32 bits.
pub push-IsBounded :
    (r : ReorderBuffer) (seq : ℕ) (p : List ℕ) (end : Bool)
    → IsBounded r
    → r.capacity + length p < 2 ^ 32
    → IsBounded (push r seq p end).0
unfolding late repeated
push-IsBounded r seq p end b fits =
    push_cases (λ t. IsBounded t.0) r seq p end (λ _. ground (arith, b))
      (λ d _ found.
        ground (arith, b, same d found, insert-Distinct seq (record d { end = true }) r.buffer))
      (λ _ _ _. b)
      (λ _ free room. pop_ready-IsBounded _ (store-IsBounded r seq p end b fits free room))
  where
    same :
        (d : Entry)
        → lookup seq r.buffer ≡ some d
        → total (insert seq (record d { end = true }) r.buffer) ≡ total r.buffer
    same d found = total-insert_same seq (record d { end = true }) d r.buffer found refl
