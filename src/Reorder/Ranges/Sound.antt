-- ===== src/Reorder/Ranges/Sound.antt =====
-- A selective acknowledgement names only bytes that wait in the buffer.
use cwnd_warm_up_proxy.Prelude.{
  ℕ, zero, suc, ◌+◌, ◌≤◌, ◌<◌, ◌≡◌, refl, subst, ◌⊎◌, inl, inr, List, [], ◌∷◌, true, false, some,
  length, leb, take, arith, Bool-cases, Option-cases, leb→le,
}
use cwnd_warm_up_proxy.Prelude.Table.{lookup}
use cwnd_warm_up_proxy.Protocol.{SackRange, max_sack_ranges}
use cwnd_warm_up_proxy.Reorder.{Entry, ReorderBuffer}
use cwnd_warm_up_proxy.Reorder.Ranges.{
  payload_length, range_at, widen, coalesce, ranges_of, sack_ranges,
}

-- The byte of the stream at position `x` lies in one of the ranges.
abbrev pub InRange : ℕ → SackRange → Type 0
InRange x g = (g.start ≤ x) × (x < g.end)

abbrev pub InRanges : ℕ → List SackRange → Type 0
InRanges x [] = ⊥
InRanges x (g ∷ gs) = InRange x g ⊎ InRanges x gs

-- An entry of the buffer holds the byte at position `x`.
pub record Held (m : List (ℕ × Entry)) (x : ℕ) : Type 0 where
  pub seq : ℕ
  pub entry : Entry
  pub present : lookup seq m ≡ some entry
  pub after : seq ≤ x
  pub before : x < seq + length entry.payload

pub coalesce_join :
    (m : List (ℕ × Entry)) (last : SackRange) (k : ℕ) (ks : List ℕ)
    → leb (range_at m k).start last.end ≡ true
    → coalesce m last (k ∷ ks) ≡ coalesce m (widen last (range_at m k)) ks
unfolding coalesce
coalesce_join m last k ks h = rw (h, coalesce) refl

pub coalesce_split :
    (m : List (ℕ × Entry)) (last : SackRange) (k : ℕ) (ks : List ℕ)
    → leb (range_at m k).start last.end ≡ false
    → coalesce m last (k ∷ ks) ≡ last ∷ coalesce m (range_at m k) ks
unfolding coalesce
coalesce_split m last k ks h = rw (h, coalesce) refl

module _ (m : List (ℕ × Entry)) (x : ℕ) where
  range_at-Held : (k : ℕ) → InRange x (range_at m k) → Held m x
  unfolding range_at payload_length
  range_at-Held k (after, before) = elim (Option-cases (lookup k m)) [
    | inl e ↦ absurd (ground (arith, e, after, before))
    | inr (d, e) ↦ record {
      seq = k;
      entry = d;
      present = e;
      after = after;
      before = ground (arith, e, before);
    }
  ]

  in_widen :
      (last r : SackRange)
      → r.start ≤ last.end
      → InRange x (widen last r)
      → InRange x last ⊎ InRange x r
  in_widen last r joined h = ground (arith, h)

  coalesce-Held :
      (last : SackRange) (ks : List ℕ)
      → (InRange x last → Held m x)
      → InRanges x (coalesce m last ks)
      → Held m x
  unfolding coalesce
  coalesce-Held last [] held (inl h) = held h
  coalesce-Held last [] held (inr h) = absurd h
  coalesce-Held last (k ∷ ks) held h = elim (Bool-cases (leb (range_at m k).start last.end)) [
    | inl near ↦
        coalesce-Held (widen last (range_at m k)) ks
          (λ i. joined (in_widen last (range_at m k) (leb→le _ _ near) i))
          (subst (InRanges x) (coalesce_join m last k ks near) h)
    | inr far ↦
        split (coalesce-Held (range_at m k) ks (range_at-Held k))
          (subst (InRanges x) (coalesce_split m last k ks far) h)
  ]
    where
      joined : InRange x last ⊎ InRange x (range_at m k) → Held m x
      joined (inl i) = held i
      joined (inr i) = range_at-Held k i

      split :
          (InRanges x (coalesce m (range_at m k) ks) → Held m x)
          → InRange x last ⊎ InRanges x (coalesce m (range_at m k) ks)
          → Held m x
      split later (inl i) = held i
      split later (inr i) = later i

  ranges_of-Held : (ks : List ℕ) → InRanges x (ranges_of m ks) → Held m x
  unfolding ranges_of
  ranges_of-Held [] h = absurd h
  ranges_of-Held (k ∷ ks) h = coalesce-Held (range_at m k) ks (range_at-Held k) h

in_take : (n x : ℕ) (gs : List SackRange) → InRanges x (take n gs) → InRanges x gs
in_take zero x gs h = absurd h
in_take (suc n) x [] h = h
in_take (suc n) x (g ∷ gs) (inl h) = inl h
in_take (suc n) x (g ∷ gs) (inr h) = inr (in_take n x gs h)

-- Every byte that the ranges of an ACK acknowledge beyond the cumulative point is held in the
-- buffer, whatever the buffer holds.
pub sack_ranges-Held : (r : ReorderBuffer) (x : ℕ) → InRanges x (sack_ranges r) → Held r.buffer x
unfolding sack_ranges
sack_ranges-Held r x h = ranges_of-Held r.buffer x _ (in_take max_sack_ranges x _ h)
