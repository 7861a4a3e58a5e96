-- ===== src/Stream/Pending.antt =====
-- The pending entries after an ACK.
use cwnd_warm_up_proxy.Prelude.{
  ℕ, none, some, arith, false, sym, subst, ap₂, ◌≡◌, ◌≢◌, All, refl, ap, ◌∙◌, inl, inr, List, [],
  ◌∷◌, Bool, true, not, ◌&&◌, Option, ◌==◌, if◌then◌else◌, map, Bool-cases, Option-cases,
}
use cwnd_warm_up_proxy.Protocol.{Frame, AckPayload}
use cwnd_warm_up_proxy.Stream.{Error, PendingEntry, Stream, fail}
use cwnd_warm_up_proxy.Stream.Send.{update, mark, stamp}
use cwnd_warm_up_proxy.Stream.Ack.{
  ack_covers_entry, should_retransmit_entry, compute_ack_holes, uncovered, to_resend, absorb,
  retransmit, retransmit_all, on_ack,
}

-- The entries that pass a test, in their order.
unfoldable pub keep : (PendingEntry → Bool) → List PendingEntry → List PendingEntry
keep p [] = []
keep p (e ∷ es) = let rest = keep p es in if p e then e ∷ rest else rest

uncovered-keep :
    (ack : AckPayload) (es : List PendingEntry)
    → uncovered ack es ≡ keep (λ e. not (ack_covers_entry ack e)) es
unfolding uncovered keep
uncovered-keep ack [] = refl
uncovered-keep ack (e ∷ es) = elim (Bool-cases (ack_covers_entry ack e)) [
  | inl c ↦ rw c (uncovered-keep ack es)
  | inr c ↦ rw c (ap (◌∷◌ e) (uncovered-keep ack es))
]

pub to_resend-keep :
    (ack : AckPayload) (now : ℕ) (es : List PendingEntry)
    → to_resend ack now es
      ≡ keep
          (λ e.
            not (ack_covers_entry ack e) && should_retransmit_entry e (compute_ack_holes ack) now)
          es
unfolding to_resend keep
to_resend-keep ack now [] = refl
to_resend-keep ack now (e ∷ es) = elim (Bool-cases (ack_covers_entry ack e)) [
  | inl c ↦ rw c (to_resend-keep ack now es)
  | inr c ↦ rw c (elim (Bool-cases (should_retransmit_entry e (compute_ack_holes ack) now)) [
    | inl r ↦ rw r (ap (◌∷◌ e) (to_resend-keep ack now es))
    | inr r ↦ rw r (to_resend-keep ack now es)
  ])
]

-- No two entries have the same address.
unfoldable pub Distinct : List PendingEntry → Type 0
Distinct [] = Unit {0}
Distinct (e ∷ es) = All (λ (x : PendingEntry). x.address ≢ e.address) es × Distinct es

All-keep :
    (P : PendingEntry → Type 0) (p : PendingEntry → Bool) (es : List PendingEntry)
    → All P es
    → All P (keep p es)
unfolding keep
All-keep P p [] h = tt
All-keep P p (e ∷ es) h = elim (Bool-cases (p e)) [
  | inl y ↦ rw y (h.0, All-keep P p es h.1)
  | inr n ↦ rw n (All-keep P p es h.1)
]

keep-Distinct :
    (p : PendingEntry → Bool) (es : List PendingEntry) → Distinct es → Distinct (keep p es)
unfolding keep Distinct
keep-Distinct p [] h = tt
keep-Distinct p (e ∷ es) h = elim (Bool-cases (p e)) [
  | inl y ↦
      rw y (All-keep (λ (x : PendingEntry). x.address ≢ e.address) p es h.0, keep-Distinct p es h.1)
  | inr n ↦ rw n (keep-Distinct p es h.1)
]

keep-keep :
    (p q : PendingEntry → Bool) (es : List PendingEntry)
    → keep p (keep q es) ≡ keep (λ e. q e && p e) es
unfolding keep
keep-keep p q [] = refl
keep-keep p q (e ∷ es) = elim (Bool-cases (q e)) [
  | inl y ↦ rw y (elim (Bool-cases (p e)) [
    | inl z ↦ rw z (ap (◌∷◌ e) (keep-keep p q es))
    | inr z ↦ rw z (keep-keep p q es)
  ])
  | inr n ↦ rw n (keep-keep p q es)
]

update-update :
    (address : ℕ) (f g : PendingEntry → PendingEntry) (es : List PendingEntry)
    → ((e : PendingEntry) → (f e).address ≡ e.address)
    → update address g (update address f es) ≡ update address (λ e. g (f e)) es
unfolding update
update-update address f g [] h = refl
update-update address f g (e ∷ es) h = elim (Bool-cases (e.address == address)) [
  | inl here ↦
      let kept : ((f e).address == address) ≡ true = ap (λ a. a == address) (h e) ∙ here in
      rw here (rw kept refl)
  | inr there ↦ rw there (rw there (ap (◌∷◌ e) (update-update address f g es h)))
]

update-here :
    (f : PendingEntry → PendingEntry) (e : PendingEntry) (es : List PendingEntry)
    → update e.address f (e ∷ es) ≡ f e ∷ es
unfolding update
update-here f e es =
    let itself : (e.address == e.address) ≡ true = ground arith in rw (itself, if◌then◌else◌) refl

-- An entry once `retransmit` has sent it: marked as a duplicate, and with the time unless the send failed.
abbrev pub sent_as : ℕ → ℕ → Option Error → PendingEntry → PendingEntry
sent_as session_id now none e = stamp now (mark session_id true e)
sent_as session_id now (some error) e = mark session_id true e

sent_as-address :
    (session_id now : ℕ) (r : Option Error) (e : PendingEntry)
    → (sent_as session_id now r e).address ≡ e.address
sent_as-address session_id now none e = refl
sent_as-address session_id now (some error) e = refl

module _ (send : Frame → Option Error) (session_id now : ℕ) where
  abbrev pub outcome : PendingEntry → Option Error
  outcome d = send (mark session_id true d).frame

  retransmit-pending :
      (d : PendingEntry) (s : Stream)
      → (retransmit send session_id now d s).pending
        ≡ update d.address (sent_as session_id now (outcome d)) s.pending
  unfolding retransmit fail
  retransmit-pending d s = elim (Option-cases (outcome d)) [
    | inl k ↦
        rw (k, retransmit)
          (update-update d.address (mark session_id true) (stamp now) s.pending (λ _. refl))
    | inr (error, k) ↦ rw (k, retransmit) refl
  ]

  -- The writes through the pointers to some entries, one after another.
  write_each : List PendingEntry → List PendingEntry → List PendingEntry
  write_each [] es = es
  write_each (d ∷ ds) es = write_each ds (update d.address (sent_as session_id now (outcome d)) es)

  retransmit_all-pending :
      (ds : List PendingEntry) (s : Stream)
      → (retransmit_all send session_id now ds s).pending ≡ write_each ds s.pending
  unfolding retransmit_all write_each
  retransmit_all-pending [] s = refl
  retransmit_all-pending (d ∷ ds) s =
      retransmit_all-pending ds (retransmit send session_id now d s)
      ∙ ap (write_each ds) (retransmit-pending d s)

  write_each-cons :
      (ds : List PendingEntry) (x : PendingEntry) (es : List PendingEntry)
      → All (λ (d : PendingEntry). d.address ≢ x.address) ds
      → write_each ds (x ∷ es) ≡ x ∷ write_each ds es
  unfolding write_each update
  write_each-cons [] x es h = refl
  write_each-cons (d ∷ ds) x es h =
      let other : (x.address == d.address) ≡ false =
        ground (arith, λ (e : x.address ≡ d.address). h.0 (sym e)) in
      rw other (write_each-cons ds x (update d.address (sent_as session_id now (outcome d)) es) h.1)

  write_each-keep :
      (p : PendingEntry → Bool) (es : List PendingEntry)
      → Distinct es
      → write_each (keep p es) es
        ≡ map (λ e. if p e then sent_as session_id now (outcome e) e else e) es
  unfolding write_each keep Distinct update
  write_each-keep p [] h = refl
  write_each-keep p (e ∷ es) h =
      let others = All-keep (λ (x : PendingEntry). x.address ≢ e.address) p es h.0 in
      let rest = write_each-keep p es h.1 in
      elim (Bool-cases (p e)) [
        | inl y ↦
            let new = sent_as session_id now (outcome e) e in
            let same = sent_as-address session_id now (outcome e) e in
            rw y (
              ap (write_each (keep p es)) (update-here (sent_as session_id now (outcome e)) e es)
              ∙ write_each-cons (keep p es) new es (
                  subst (λ a. All (λ (x : PendingEntry). x.address ≢ a) (keep p es)) (sym same)
                    others)
              ∙ ap (◌∷◌ new) rest)
        | inr n ↦ rw n (write_each-cons (keep p es) e es others ∙ ap (◌∷◌ e) rest)
      ]

  absorb-pending :
      (ack : AckPayload) (s : Stream) → (absorb ack s).pending ≡ uncovered ack s.pending
  unfolding absorb
  absorb-pending ack s = elim (Bool-cases (ack.credit == 0)) [
    | inl z ↦ rw z refl
    | inr z ↦ rw z refl
  ]

  -- An ACK takes out of the pending entries exactly those it covers and keeps the others in their order. Of
  -- these it has exactly those sent again that are due: they are marked as duplicates, and have the time
  -- of the ACK unless their send fails; the others stay as they are. No two entries have one address.
  pub on_ack-pending :
      (ack : AckPayload) (s : Stream)
      → Distinct s.pending
      → (on_ack send session_id now ack s).pending
        ≡ map
            (λ e.
              if should_retransmit_entry e (compute_ack_holes ack) now
              then sent_as session_id now (outcome e) e
              else e)
            (keep (λ e. not (ack_covers_entry ack e)) s.pending)
  unfolding on_ack
  on_ack-pending ack s distinct =
      let left = keep (λ e. not (ack_covers_entry ack e)) s.pending in
      let due = λ (e : PendingEntry). should_retransmit_entry e (compute_ack_holes ack) now in
      retransmit_all-pending (to_resend ack now s.pending) (absorb ack s)
      ∙ ap₂ write_each
          (to_resend-keep ack now s.pending
            ∙ sym (keep-keep due (λ e. not (ack_covers_entry ack e)) s.pending))
          (absorb-pending ack s ∙ uncovered-keep ack s.pending)
      ∙ write_each-keep due left
          (keep-Distinct (λ e. not (ack_covers_entry ack e)) s.pending distinct)
