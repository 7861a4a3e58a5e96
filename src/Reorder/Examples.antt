-- ===== src/Reorder/Examples.antt =====
-- Streams of a few bytes, cut into two frames that arrive out of order.
use cwnd_warm_up_proxy.Prelude.{
  ℕ, ◌^◌, ◌≤◌, ◌<◌, ◌≡◌, refl, ◌⊎◌, inl, inr, List, [], ◌∷◌, true, false, Option, none, some,
  length, ◌==◌, All, take, if◌then◌else◌, arith, Bool-cases,
}
use cwnd_warm_up_proxy.Prelude.Table.{lookup, insert, delete}
use cwnd_warm_up_proxy.Reorder.{
  ReorderBuffer, new, push, push_at, push_new, late, repeated, store, pop_ready, pop_loop, pop_one,
}
use cwnd_warm_up_proxy.Reorder.Deliver.{chunk_bytes}
use cwnd_warm_up_proxy.Reorder.Receive.{Packet, receive, IsPacket, receive_prefix}
use cwnd_warm_up_proxy.Reorder.Complete.{Starts, Covers}
use cwnd_warm_up_proxy.Reorder.Whole.{AllAccepted, Among, receive_whole}
use cwnd_warm_up_proxy.Reorder.Bounds.{IsBounded, total, push-IsBounded}
use cwnd_warm_up_proxy.Reorder.Ranges.{
  sack_ranges, range_at, payload_length, ranges_of, sort_keys, insert_key, data_keys, coalesce,
}
use cwnd_warm_up_proxy.Reorder.Ranges.Sound.{InRanges, Held, sack_ranges-Held}
use cwnd_warm_up_proxy.Reorder.Ranges.Order.{ApartFrom, sack_ranges-ApartFrom}
use cwnd_warm_up_proxy.Reorder.Ranges.Complete.{Held-sack_ranges}

abbrev six_bytes : List ℕ
six_bytes = 10 ∷ 11 ∷ 12 ∷ 13 ∷ 14 ∷ 15 ∷ []

abbrev first_half : List ℕ
first_half = 10 ∷ 11 ∷ 12 ∷ []

abbrev second_half : List ℕ
second_half = 13 ∷ 14 ∷ 15 ∷ []

abbrev halves : ℕ → Option (List ℕ)
halves n = if n == 0 then some first_half else if n == 3 then some second_half else none

abbrev first_packet : Packet
first_packet = record { seq = 0; payload = first_half; end = false }

abbrev second_packet : Packet
second_packet = record { seq = 3; payload = second_half; end = true }

abbrev swapped : List Packet
swapped = second_packet ∷ second_packet ∷ first_packet ∷ []

six_bytes_short : length six_bytes < 2 ^ 64
six_bytes_short = omega arith

first_IsPacket : IsPacket six_bytes halves six_bytes_short first_packet
first_IsPacket = record {
  known = refl;
  fits = omega arith;
  content = refl;
  last = λ h. absurd (cc);
}

second_IsPacket : IsPacket six_bytes halves six_bytes_short second_packet
second_IsPacket = record { known = refl; fits = omega arith; content = refl; last = λ _. refl }

swapped-IsPacket : All (IsPacket six_bytes halves six_bytes_short) swapped
swapped-IsPacket = (second_IsPacket, (second_IsPacket, (first_IsPacket, tt)))

halves-cases :
    (k : ℕ) (p : List ℕ)
    → halves k ≡ some p
    → ((k ≡ 0) × (p ≡ first_half)) ⊎ ((k ≡ 3) × (p ≡ second_half))
halves-cases k p h = elim (Bool-cases (k == 0)) [
  | inl z ↦ inl (ground (arith, z, h), ground (arith, z, h))
  | inr z ↦ elim (Bool-cases (k == 3)) [
    | inl t ↦ inr (ground (arith, z, t, h), ground (arith, z, t, h))
    | inr t ↦ absurd (ground (arith, z, t, h))
  ]
]

halves-Covers : Covers six_bytes halves six_bytes_short
halves-Covers = record {
  first = inr (first_half, refl, omega arith);
  follows = λ k p h nonempty. elim (halves-cases k p h) [
    | inl (z, q) ↦ inr (rw (z, q) (second_half, refl, omega arith))
    | inr (t, q) ↦ inl (rw (t, q) refl)
  ];
}

swapped-Among : (k : ℕ) → Starts six_bytes halves six_bytes_short k → Among k swapped
swapped-Among k (p, h, nonempty) = elim (halves-cases k p h) [
  | inl (z, q) ↦ inr (inr (inl (rw z refl)))
  | inr (t, q) ↦ inl (rw t refl)
]

swapped-AllAccepted : AllAccepted (new 8) swapped
unfolding push push_at push_new late repeated store pop_ready pop_loop pop_one new lookup insert
    delete
swapped-AllAccepted = (refl, (refl, (refl, tt)))

receive_whole_example : chunk_bytes (receive (new 8) swapped).1 ≡ six_bytes
receive_whole_example =
    receive_whole six_bytes halves six_bytes_short 8 swapped halves-Covers swapped-IsPacket
      swapped-AllAccepted swapped-Among

receive_prefix_example :
    let t = receive (new 8) (second_packet ∷ first_packet ∷ []) in
    chunk_bytes t.1 ≡ take t.0.next six_bytes
receive_prefix_example =
    receive_prefix six_bytes halves six_bytes_short 8 (second_packet ∷ first_packet ∷ [])
      (second_IsPacket, (first_IsPacket, tt))

-- The second half waits in the buffer.
abbrev waiting : ReorderBuffer
waiting = record {
  next = 0;
  buffer = (3, record { payload = second_half; end = true }) ∷ [];
  buffered = 3;
  capacity = 8;
  terminal = true;
  end_seq = 6;
}

waiting-IsBounded : IsBounded waiting
waiting-IsBounded =
    unfold total lookup in
    record { distinct = (refl, tt); counted = refl; within = omega arith; capacity = omega arith }

push-IsBounded_example : IsBounded (push waiting 0 first_half false).0
push-IsBounded_example = push-IsBounded waiting 0 first_half false waiting-IsBounded (omega arith)

waiting_ranges : sack_ranges waiting ≡ (record { start = 3; end = 6 } ∷ [])
unfolding sack_ranges ranges_of range_at payload_length sort_keys insert_key data_keys coalesce
    lookup
waiting_ranges = refl

sack_ranges-Held_example : Held waiting.buffer 4
sack_ranges-Held_example =
    sack_ranges-Held waiting 4 (rw waiting_ranges (inl (omega arith, omega arith)))

sack_ranges-ApartFrom_example :
    ApartFrom 0 (sack_ranges waiting) × (length (sack_ranges waiting) ≤ 4)
sack_ranges-ApartFrom_example =
    sack_ranges-ApartFrom waiting (unfold lookup in (refl, tt)) (omega arith, tt)

Held-sack_ranges_example : InRanges 4 (sack_ranges waiting)
Held-sack_ranges_example =
    Held-sack_ranges waiting 4 (omega arith, tt) (rw waiting_ranges (omega arith))
      (record {
        seq = 3;
        entry = record { payload = second_half; end = true };
        present = unfold lookup in refl;
        after = omega arith;
        before = omega arith;
      })
