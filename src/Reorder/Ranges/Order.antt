-- ===== src/Reorder/Ranges/Order.antt =====
-- The ranges of an ACK stand in order, apart from one another, and none is empty.
use cwnd_warm_up_proxy.Prelude.{
  ℕ, zero, suc, ◌+◌, ◌^◌, ◌≤◌, ◌<◌, ◌≡◌, inl, inr, List, [], ◌∷◌, some, length, leb, take,
  length-take, arith, Bool-cases, ◌==◌, All,
}
use cwnd_warm_up_proxy.Prelude.Table.{lookup, Distinct, AllEntries, Distinct-lookup}
use cwnd_warm_up_proxy.Protocol.{SackRange, max_sack_ranges}
use cwnd_warm_up_proxy.Reorder.{Entry, ReorderBuffer}
use cwnd_warm_up_proxy.Reorder.Ranges.{
  payload_length, range_at, widen, coalesce, ranges_of, sack_ranges, sort_keys, insert_key,
  data_keys,
}
use cwnd_warm_up_proxy.Reorder.Ranges.Sound.{coalesce_join, coalesce_split}

-- The first range starts at `n` or later, and each further one behind the end of the one before.
abbrev pub ApartFrom : ℕ → List SackRange → Type 0
ApartFrom n [] = Unit {0}
ApartFrom n (g ∷ gs) = (n ≤ g.start) × (g.start < g.end) × ApartFrom (suc g.end) gs

ApartFrom-take : (k n : ℕ) (gs : List SackRange) → ApartFrom n gs → ApartFrom n (take k gs)
ApartFrom-take zero n gs h = tt
ApartFrom-take (suc k) n [] h = tt
ApartFrom-take (suc k) n (g ∷ gs) h = (h.0, h.1, ApartFrom-take k (suc g.end) gs h.2)

module _ (m : List (ℕ × Entry)) where
  abbrev HasData : ℕ → Type 0
  HasData k = (range_at m k).start < (range_at m k).end

  coalesce-ApartFrom :
      (n : ℕ) (last : SackRange) (ks : List ℕ)
      → n ≤ last.start
      → last.start < last.end
      → All HasData ks
      → ApartFrom n (coalesce m last ks)
  unfolding coalesce
  coalesce-ApartFrom n last [] h o d = (h, o, tt)
  coalesce-ApartFrom n last (k ∷ ks) h o (d, ds) =
      elim (Bool-cases (leb (range_at m k).start last.end)) [
        | inl near ↦
            rw (coalesce_join m last k ks near)
              (coalesce-ApartFrom n (widen last (range_at m k)) ks (ground arith) (ground arith) ds)
        | inr far ↦
            rw (coalesce_split m last k ks far)
              (h, o, coalesce-ApartFrom (suc last.end) (range_at m k) ks (ground arith) d ds)
      ]

insert_key-All {κ} :
    (P : ℕ → Type κ) (k : ℕ) (ks : List ℕ) → P k → All P ks → All P (insert_key k ks)
unfolding insert_key
insert_key-All P k [] h hs = (h, tt)
insert_key-All P k (j ∷ ks) h hs = elim (Bool-cases (leb k j)) [
  | inl e ↦ rw e (h, hs)
  | inr e ↦ rw e (hs.0, insert_key-All P k ks h hs.1)
]

sort_keys-All {κ} : (P : ℕ → Type κ) (ks : List ℕ) → All P ks → All P (sort_keys ks)
unfolding sort_keys
sort_keys-All P [] h = tt
sort_keys-All P (k ∷ ks) h = insert_key-All P k (sort_keys ks) h.0 (sort_keys-All P ks h.1)

-- The sequence numbers of the entry's bytes do not wrap.
abbrev pub EntryFits : ℕ → Entry → Type 0
EntryFits k e = k + length e.payload < 2 ^ 64

data_keys-HasData :
    (m part : List (ℕ × Entry))
    → AllEntries (λ k e. lookup k m ≡ some e) part
    → AllEntries EntryFits part
    → All (HasData m) (data_keys part)
unfolding data_keys range_at payload_length
data_keys-HasData m [] found fits = tt
data_keys-HasData m ((k, e) ∷ part) found fits = elim (Bool-cases (length e.payload == 0)) [
  | inl z ↦ rw z (data_keys-HasData m part found.1 fits.1)
  | inr z ↦ rw z (ground (arith, found.0, fits.0), data_keys-HasData m part found.1 fits.1)
]

ranges_of-ApartFrom :
    (m : List (ℕ × Entry)) (ks : List ℕ) → All (HasData m) ks → ApartFrom 0 (ranges_of m ks)
unfolding ranges_of range_at
ranges_of-ApartFrom m [] h = tt
ranges_of-ApartFrom m (k ∷ ks) h = coalesce-ApartFrom m 0 (range_at m k) ks (omega arith) h.0 h.1

-- An ACK names at most four ranges, each with data, in ascending order and with a gap between one
-- and the next. No key of the buffer stands twice, and no entry's sequence numbers wrap.
pub sack_ranges-ApartFrom :
    (r : ReorderBuffer)
    → Distinct r.buffer
    → AllEntries EntryFits r.buffer
    → ApartFrom 0 (sack_ranges r) × (length (sack_ranges r) ≤ max_sack_ranges)
unfolding sack_ranges
sack_ranges-ApartFrom r d fits =
    let keys = sort_keys (data_keys r.buffer) in
    (
      ApartFrom-take max_sack_ranges 0 (ranges_of r.buffer keys) (
          ranges_of-ApartFrom r.buffer keys (
            sort_keys-All (HasData r.buffer) (data_keys r.buffer)
              (data_keys-HasData r.buffer r.buffer (Distinct-lookup r.buffer d) fits))),
      omega (arith, length-take max_sack_ranges (ranges_of r.buffer keys)),
    )
