-- ===== src/Reorder/Ranges/Complete.antt =====
-- A selective acknowledgement that has room left names every byte that waits in the buffer.
use cwnd_warm_up_proxy.Prelude.{
  ℕ, ◌≤◌, ◌<◌, ◌≡◌, refl, sym, subst, ◌⊎◌, inl, inr, List, [], ◌∷◌, some, length, leb, take,
  length-take, take_all, arith, Bool-cases, ◌==◌,
}
use cwnd_warm_up_proxy.Prelude.Table.{lookup, AllEntries, AllEntries-lookup}
use cwnd_warm_up_proxy.Protocol.{SackRange, max_sack_ranges}
use cwnd_warm_up_proxy.Reorder.{Entry, ReorderBuffer}
use cwnd_warm_up_proxy.Reorder.Ranges.{
  payload_length, range_at, widen, coalesce, ranges_of, sack_ranges, sort_keys, insert_key,
  data_keys,
}
use cwnd_warm_up_proxy.Reorder.Ranges.Sound.{InRange, InRanges, Held, coalesce_join, coalesce_split}
use cwnd_warm_up_proxy.Reorder.Ranges.Order.{EntryFits}

abbrev Any : (ℕ → Type 0) → List ℕ → Type 0
Any P [] = ⊥
Any P (k ∷ ks) = P k ⊎ Any P ks

insert_key-Any : (P : ℕ → Type 0) (k : ℕ) (ks : List ℕ) → P k ⊎ Any P ks → Any P (insert_key k ks)
unfolding insert_key
insert_key-Any P k [] h = h
insert_key-Any P k (j ∷ ks) h = elim (Bool-cases (leb k j)) [
  | inl e ↦ rw e h
  | inr e ↦ rw e (past h (λ i. insert_key-Any P k ks i))
]
  where
    past :
        P k ⊎ (P j ⊎ Any P ks)
        → (P k ⊎ Any P ks → Any P (insert_key k ks))
        → P j ⊎ Any P (insert_key k ks)
    past (inl p) next = inr (next (inl p))
    past (inr (inl p)) next = inl p
    past (inr (inr p)) next = inr (next (inr p))

sort_keys-Any : (P : ℕ → Type 0) (ks : List ℕ) → Any P ks → Any P (sort_keys ks)
unfolding sort_keys
sort_keys-Any P [] h = h
sort_keys-Any P (k ∷ ks) (inl h) = insert_key-Any P k (sort_keys ks) (inl h)
sort_keys-Any P (k ∷ ks) (inr h) = insert_key-Any P k (sort_keys ks) (inr (sort_keys-Any P ks h))

data_keys-Any :
    (P : ℕ → Type 0) (k : ℕ) (e : Entry) (m : List (ℕ × Entry))
    → lookup k m ≡ some e
    → 0 < length e.payload
    → P k
    → Any P (data_keys m)
unfolding data_keys lookup
data_keys-Any P k e [] found h p = absurd (ground (arith, found))
data_keys-Any P k e ((j, d) ∷ m) found h p = elim (Bool-cases (length d.payload == 0)) [
  | inl z ↦ rw z (data_keys-Any P k e m (ground (arith, found, h, z)) h p)
  | inr z ↦ rw z (elim (Bool-cases (j == k)) [
    | inl same ↦ inl (let e' : k ≡ j = ground arith in subst P e' p)
    | inr other ↦ inr (data_keys-Any P k e m (ground (arith, found, other)) h p)
  ])
]

-- The keys ascend from `n` on.
abbrev Ascends : ℕ → List ℕ → Type 0
Ascends n [] = Unit {0}
Ascends n (k ∷ ks) = (n ≤ k) × Ascends k ks

insert_key-Ascends : (n k : ℕ) (ks : List ℕ) → n ≤ k → Ascends n ks → Ascends n (insert_key k ks)
unfolding insert_key
insert_key-Ascends n k [] h a = (h, tt)
insert_key-Ascends n k (j ∷ ks) h a = elim (Bool-cases (leb k j)) [
  | inl e ↦ rw e (h, (ground arith, a.1))
  | inr e ↦ rw e (a.0, insert_key-Ascends j k ks (ground arith) a.1)
]

sort_keys-Ascends : (ks : List ℕ) → Ascends 0 (sort_keys ks)
unfolding sort_keys
sort_keys-Ascends [] = tt
sort_keys-Ascends (k ∷ ks) =
    insert_key-Ascends 0 k (sort_keys ks) (omega arith) (sort_keys-Ascends ks)

Ascends-mono : (n k : ℕ) (ks : List ℕ) → n ≤ k → Ascends k ks → Ascends n ks
Ascends-mono n k [] h a = tt
Ascends-mono n k (j ∷ ks) h a = (omega (arith, a.0), a.1)

range_at-start : (m : List (ℕ × Entry)) (k : ℕ) → (range_at m k).start ≡ k
unfolding range_at
range_at-start m k = refl

widen-start : (last r : SackRange) → (widen last r).start ≡ last.start
widen-start last r = ground arith

module _ (m : List (ℕ × Entry)) (x : ℕ) where
  abbrev InKey : ℕ → Type 0
  InKey k = InRange x (range_at m k)

  coalesce-InRanges :
      (last : SackRange) (ks : List ℕ)
      → Ascends last.start ks
      → InRange x last ⊎ Any InKey ks
      → InRanges x (coalesce m last ks)
  unfolding coalesce
  coalesce-InRanges last [] a h = h
  coalesce-InRanges last (k ∷ ks) a h = elim (Bool-cases (leb (range_at m k).start last.end)) [
    | inl near ↦ rw (coalesce_join m last k ks near) (
        coalesce-InRanges (widen last (range_at m k)) ks
          (rw (widen-start last (range_at m k)) (Ascends-mono last.start k ks a.0 a.1)) (widened h))
    | inr far ↦
        rw (coalesce_split m last k ks far)
          (apart h (λ i. coalesce-InRanges (range_at m k) ks (rw (range_at-start m k) a.1) i))
  ]
    where
      widened :
          InRange x last ⊎ (InKey k ⊎ Any InKey ks)
          → InRange x (widen last (range_at m k)) ⊎ Any InKey ks
      widened (inl i) = inl (ground (arith, i))
      widened (inr (inl i)) = inl (ground (arith, i, a.0, range_at-start m k))
      widened (inr (inr i)) = inr i

      apart :
          InRange x last ⊎ (InKey k ⊎ Any InKey ks)
          → (InKey k ⊎ Any InKey ks → InRanges x (coalesce m (range_at m k) ks))
          → InRange x last ⊎ InRanges x (coalesce m (range_at m k) ks)
      apart (inl i) later = inl i
      apart (inr i) later = inr (later i)

  ranges_of-InRanges : (ks : List ℕ) → Ascends 0 ks → Any InKey ks → InRanges x (ranges_of m ks)
  unfolding ranges_of
  ranges_of-InRanges [] a h = h
  ranges_of-InRanges (k ∷ ks) a h =
      coalesce-InRanges (range_at m k) ks (rw (range_at-start m k) a.1) h

  Held-Any : AllEntries EntryFits m → Held m x → Any InKey (data_keys m)
  unfolding range_at payload_length
  Held-Any fits h =
      let no_wrap = AllEntries-lookup EntryFits h.seq h.entry m fits h.present in
      data_keys-Any InKey h.seq h.entry m h.present (omega (arith, h.after, h.before))
        (ground (arith, h.after, h.present), ground (arith, h.before, h.present, no_wrap))

short_take : (n : ℕ) (gs : List SackRange) → length (take n gs) < n → take n gs ≡ gs
short_take n gs h = take_all n gs (omega (arith, length-take n gs))

-- As long as an ACK names fewer than four ranges, it names every byte that the buffer holds. No
-- entry's sequence numbers wrap.
pub Held-sack_ranges :
    (r : ReorderBuffer) (x : ℕ)
    → AllEntries EntryFits r.buffer
    → length (sack_ranges r) < max_sack_ranges
    → Held r.buffer x
    → InRanges x (sack_ranges r)
unfolding sack_ranges
Held-sack_ranges r x fits few h =
    let keys = sort_keys (data_keys r.buffer) in
    subst (InRanges x) (sym (short_take max_sack_ranges (ranges_of r.buffer keys) few)) (
      ranges_of-InRanges r.buffer x keys (sort_keys-Ascends (data_keys r.buffer))
        (sort_keys-Any (InKey r.buffer x) (data_keys r.buffer) (Held-Any r.buffer x fits h)))
