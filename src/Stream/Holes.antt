-- ===== src/Stream/Holes.antt =====
-- What an ACK makes the sender send again.
use cwnd_warm_up_proxy.Prelude.{
  ℕ, suc, max, ◌≤◌, ◌<◌, ◌≡◌, refl, ◌⊎◌, inl, inr, ◌↔◌, List, [], ◌∷◌, true, false, ltb, arith,
  Bool-cases, if◌then◌else◌, All,
}
use cwnd_warm_up_proxy.Protocol.{SackRange, AckPayload}
use cwnd_warm_up_proxy.Reorder.Ranges.Sound.{InRanges}
use cwnd_warm_up_proxy.Reorder.Ranges.Order.{ApartFrom}
use cwnd_warm_up_proxy.Stream.{PendingEntry}
use cwnd_warm_up_proxy.Stream.Ack.{
  holes_from, compute_ack_holes, some_hole_meets, should_retransmit_entry, is_recent,
}
use cwnd_warm_up_proxy.Stream.Held.{IsUnwrapped, InEntry}

-- Some range reaches beyond the position.
abbrev pub ReachedBy : ℕ → List SackRange → Type 0
ReachedBy x [] = ⊥
ReachedBy x (r ∷ rs) = (x < r.end) ⊎ ReachedBy x rs

-- The byte is missing from ranges that start at `cur`: none holds it, and a later one was received.
abbrev pub Missing : ℕ → ℕ → List SackRange → Type 0
Missing cur x rs = (cur ≤ x) × ¬ InRanges x rs × ReachedBy x rs

holes_from-cons :
    (cur : ℕ) (r : SackRange) (rs : List SackRange)
    → let rest = holes_from (if ltb cur r.end then r.end else cur) rs in
      holes_from cur (r ∷ rs)
      ≡ (if ltb cur r.start then record { start = cur; end = r.start } ∷ rest else rest)
unfolding holes_from
holes_from-cons cur r rs = refl

abbrev furthest : ℕ → SackRange → ℕ
furthest cur r = if ltb cur r.end then r.end else cur

below-InRanges : (n x : ℕ) (rs : List SackRange) → ApartFrom n rs → x < n → ¬ InRanges x rs
below-InRanges n x [] a h k = k
below-InRanges n x (r ∷ rs) a h (inl k) = omega (arith, a.0, k.0, h)
below-InRanges n x (r ∷ rs) a h (inr k) =
    below-InRanges (suc r.end) x rs a.2 (omega (arith, a.0, a.1, h)) k

holes_from_gap :
    (cur x : ℕ) (r : SackRange) (rs : List SackRange)
    → (InRanges x (holes_from cur (r ∷ rs)))
      ↔ (((cur ≤ x) × (x < r.start)) ⊎ InRanges x (holes_from (furthest cur r) rs))
holes_from_gap cur x r rs = rw (holes_from-cons cur r rs) (elim (Bool-cases (ltb cur r.start)) [
  | inl gap ↦ rw gap (λ h. h, λ h. h)
  | inr none_here ↦
      rw none_here
        (λ h. inr h, λ h. elim h [ inl k ↦ absurd (ground (arith, k, none_here)) | inr k ↦ k ])
])

holes_from-Missing :
    (n cur x : ℕ) (rs : List SackRange)
    → ApartFrom n rs
    → InRanges x (holes_from cur rs)
    → Missing cur x rs
unfolding holes_from
holes_from-Missing n cur x [] a h = absurd h
holes_from-Missing n cur x (r ∷ rs) a h = elim ((holes_from_gap cur x r rs).0 h) [
  | inl k ↦ (
    k.0,
    λ c. elim c [
      | inl c ↦ omega (arith, c.0, k.1)
      | inr c ↦ below-InRanges (suc r.end) x rs a.2 (omega (arith, a.1, k.1)) c
    ],
    inl (omega (arith, a.1, k.1)),
  )
  | inr k ↦
      let m = holes_from-Missing (suc r.end) (furthest cur r) x rs a.2 k in
      (
        ground (arith, m.0),
        λ c. elim c [ inl c ↦ ground (arith, m.0, c.1) | inr c ↦ m.1 c ],
        inr m.2,
      )
]

Missing-holes_from :
    (n cur x : ℕ) (rs : List SackRange)
    → ApartFrom n rs
    → Missing cur x rs
    → InRanges x (holes_from cur rs)
unfolding holes_from
Missing-holes_from n cur x [] a m = m.2
Missing-holes_from n cur x (r ∷ rs) a m =
    (holes_from_gap cur x r rs).1 (elim (Bool-cases (ltb x r.start)) [
      | inl before ↦ inl (m.0, ground (arith, before))
      | inr after ↦ elim (Bool-cases (ltb x r.end)) [
        | inl inside ↦ absurd (m.1 (inl (ground (arith, after), ground (arith, inside))))
        | inr beyond ↦ inr (
            Missing-holes_from (suc r.end) (furthest cur r) x rs a.2 (
              ground (arith, m.0, beyond),
              λ c. m.1 (inr c),
              elim m.2 [ inl k ↦ absurd (ground (arith, k, beyond)) | inr k ↦ k ],
            ))
      ]
    ])

-- The holes of an ACK whose ranges are in order are exactly the bytes that the receiver still misses:
-- those from the ACK's number on that no range holds and that some range lies beyond.
pub compute_ack_holes-Missing :
    (ack : AckPayload) (x : ℕ)
    → ApartFrom 0 ack.ranges
    → (InRanges x (compute_ack_holes ack)) ↔ Missing ack.ack_seq x ack.ranges
unfolding compute_ack_holes
compute_ack_holes-Missing ack x a = (
  holes_from-Missing 0 ack.ack_seq x ack.ranges a,
  Missing-holes_from 0 ack.ack_seq x ack.ranges a,
)

IsFilled : SackRange → Type 0
IsFilled h = h.start < h.end

holes_from-IsFilled : (cur : ℕ) (rs : List SackRange) → All IsFilled (holes_from cur rs)
unfolding holes_from IsFilled
holes_from-IsFilled cur [] = tt
holes_from-IsFilled cur (r ∷ rs) =
    rw (holes_from-cons cur r rs) (elim (Bool-cases (ltb cur r.start)) [
      | inl gap ↦ rw gap (ground (arith, gap), holes_from-IsFilled (furthest cur r) rs)
      | inr none_here ↦ rw none_here (holes_from-IsFilled (furthest cur r) rs)
    ])

some_hole_meets-byte :
    (e : PendingEntry) (hs : List SackRange)
    → IsUnwrapped e
    → 0 < e.length
    → All IsFilled hs
    → some_hole_meets e hs ≡ true
    → (x : ℕ) × InEntry x e × InRanges x hs
unfolding some_hole_meets IsFilled
some_hole_meets-byte e [] fits nonempty filled h = absurd (cc)
some_hole_meets-byte e (g ∷ gs) fits nonempty filled h = elim (Bool-cases (some_hole_meets e gs)) [
  | inl later ↦
      let (x, inside, found) = some_hole_meets-byte e gs fits nonempty filled.1 later in
      (x, inside, inr found)
  | inr not_later ↦ (
    max e.seq g.start,
    ground (arith, h, not_later, fits, nonempty, filled.0),
    inl (ground (arith, h, not_later, fits, nonempty, filled.0)),
  )
]

byte-some_hole_meets :
    (e : PendingEntry) (x : ℕ) (hs : List SackRange)
    → IsUnwrapped e
    → InEntry x e
    → InRanges x hs
    → some_hole_meets e hs ≡ true
unfolding some_hole_meets
byte-some_hole_meets e x [] fits inside found = absurd found
byte-some_hole_meets e x (g ∷ gs) fits inside (inl found) = ground (arith, fits, inside, found)
byte-some_hole_meets e x (g ∷ gs) fits inside (inr found) =
    let later = byte-some_hole_meets e x gs fits inside found in ground (arith, later)

-- The ACK shows a byte of the entry as missing.
abbrev pub Lacks : AckPayload → PendingEntry → Type 0
Lacks ack e = (x : ℕ) × InEntry x e × Missing ack.ack_seq x ack.ranges

module _ (ack : AckPayload) (e : PendingEntry) (now : ℕ) (ordered : ApartFrom 0 ack.ranges)
    (fits : IsUnwrapped e) where
  resend-Lacks :
      should_retransmit_entry e (compute_ack_holes ack) now ≡ true
      → (is_recent e now ≡ false) × Lacks ack e
  unfolding should_retransmit_entry compute_ack_holes
  resend-Lacks h =
      let meets : some_hole_meets e (compute_ack_holes ack) ≡ true = ground (arith, h) in
      let (x, inside, found) =
        some_hole_meets-byte e (compute_ack_holes ack) fits (ground (arith, h))
          (holes_from-IsFilled ack.ack_seq ack.ranges) meets in
      (ground (arith, h), (x, inside, (compute_ack_holes-Missing ack x ordered).0 found))

  Lacks-resend :
      (is_recent e now ≡ false) × Lacks ack e
      → should_retransmit_entry e (compute_ack_holes ack) now ≡ true
  unfolding should_retransmit_entry
  Lacks-resend (stale, (x, inside, lacks)) =
      let meets =
        byte-some_hole_meets e x (compute_ack_holes ack) fits inside
          ((compute_ack_holes-Missing ack x ordered).1 lacks) in
      ground (arith, stale, inside, meets)

  -- The sender's test for sending an entry again holds exactly when it has not sent it within the interval
  -- and the ACK shows one of the entry's bytes as missing: a byte from the ACK's number on that no range
  -- holds and that some range lies beyond. The ranges of the ACK are in order, and the entry's numbers
  -- do not wrap.
  pub should_retransmit_entry-Lacks :
      (should_retransmit_entry e (compute_ack_holes ack) now ≡ true)
      ↔ ((is_recent e now ≡ false) × Lacks ack e)
  should_retransmit_entry-Lacks = (resend-Lacks, Lacks-resend)
