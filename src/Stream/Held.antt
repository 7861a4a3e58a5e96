-- ===== src/Stream/Held.antt =====
-- The sender and the receiver of a stream together: what an ACK lets the sender forget.
use cwnd_warm_up_proxy.Prelude.{
  ℕ, ◌+◌, ◌^◌, ◌≤◌, ◌<◌, ◌≡◌, sym, subst, ◌⊎◌, inl, inr, List, [], ◌∷◌, true, some, arith,
  Bool-cases,
}
use cwnd_warm_up_proxy.Protocol.{SackRange, AckPayload}
use cwnd_warm_up_proxy.Reorder.Ranges.{sack_ranges}
use cwnd_warm_up_proxy.Reorder.Ranges.Sound.{InRanges, Held, sack_ranges-Held}
use cwnd_warm_up_proxy.Stream.{PendingEntry, Stream}
use cwnd_warm_up_proxy.Stream.Ack.{some_range_covers, ack_covers_entry}
use cwnd_warm_up_proxy.Stream.Data.{ack_of}

-- The entry's sequence numbers stay below 2^64.
abbrev pub IsUnwrapped : PendingEntry → Type 0
IsUnwrapped e = e.seq + e.length < 2 ^ 64

abbrev pub InEntry : ℕ → PendingEntry → Type 0
InEntry x e = (e.seq ≤ x) × (x < e.seq + e.length)

some_range_covers-InRanges :
    (e : PendingEntry) (x : ℕ) (rs : List SackRange)
    → IsUnwrapped e
    → InEntry x e
    → some_range_covers e rs ≡ true
    → InRanges x rs
unfolding some_range_covers
some_range_covers-InRanges e x [] fits h c = absurd (cc)
some_range_covers-InRanges e x (r ∷ rs) fits h c = elim (Bool-cases (some_range_covers e rs)) [
  | inl later ↦ inr (some_range_covers-InRanges e x rs fits h later)
  | inr not_later ↦ inl (ground (arith, c, not_later, fits, h))
]

-- An entry that the ACK covers has each of its bytes below the ACK's number or in one of its ranges.
covered_byte :
    (ack : AckPayload) (e : PendingEntry) (x : ℕ)
    → IsUnwrapped e
    → InEntry x e
    → ack_covers_entry ack e ≡ true
    → (x < ack.ack_seq) ⊎ InRanges x ack.ranges
unfolding ack_covers_entry
covered_byte ack e x fits h c = elim (Bool-cases (some_range_covers e ack.ranges)) [
  | inl by_range ↦ inr (some_range_covers-InRanges e x ack.ranges fits h by_range)
  | inr no_range ↦ inl (ground (arith, c, no_range, fits, h))
]

ack_of-fields :
    (s : Stream) (credit : ℕ) (ack : AckPayload)
    → ack_of s credit ≡ some ack
    → (ack.ack_seq ≡ s.recv_seq) × (ack.ranges ≡ sack_ranges s.reorder)
unfolding ack_of
ack_of-fields s credit ack h = ground (arith, h)

-- The sender forgets an entry for an ACK only if the stream that made the ACK has written each byte of
-- the entry to its connection or holds it in its buffer. The entry's numbers do not wrap.
pub covered-Held :
    (s : Stream) (credit : ℕ) (ack : AckPayload) (e : PendingEntry) (x : ℕ)
    → ack_of s credit ≡ some ack
    → IsUnwrapped e
    → InEntry x e
    → ack_covers_entry ack e ≡ true
    → (x < s.recv_seq) ⊎ Held s.reorder.buffer x
covered-Held s credit ack e x made fits h c =
    let f = ack_of-fields s credit ack made in
    elim (covered_byte ack e x fits h c) [
      | inl below ↦ inl (rw (sym f.0) below)
      | inr ranged ↦ inr (sack_ranges-Held s.reorder x (subst (InRanges x) f.1 ranged))
    ]
