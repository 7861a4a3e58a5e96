-- ===== src/Metrics/Ring.antt =====
-- The ring of buckets of a counter, and what `roll` leaves.
use cwnd_warm_up_proxy.Prelude.{
  ℕ, zero, suc, ◌+◌, ◌-◌, ◌*◌, ◌/◌, ◌%◌, ◌≤◌, ◌<◌, ◌≡◌, refl, ap, subst, ◌∙◌, ◌⊎◌, inl, inr, List,
  [], ◌∷◌, true, Option, none, some, length, ltb, ◌==◌, set, get_or, All, All-set, length-set,
  arith, Bool-cases,
}
use native.Mathlib.Nat.{div-add-mod, mod-lt}
use cwnd_warm_up_proxy.Metrics
use cwnd_warm_up_proxy.Metrics.{
  Bucket, SlidingCounter, empty_bucket, new, advance, roll, roll_from, roll_to, current, add,
  is_within, total, sum,
}

-- No stamp is later than `t`.
abbrev pub IsBefore : ℕ → Option ℕ → Type 0
IsBefore t none = Unit {0}
IsBefore t (some u) = u ≤ t

abbrev pub NotAfter : ℕ → Bucket → Type 0
NotAfter t b = IsBefore t b.stamp

-- The ring as the counter's methods keep it: a bucket is current, its stamp is not older than the last
-- roll, and an unused one is empty.
abbrev pub IsFresh : Option ℕ → Bucket → Type 0
IsFresh none b = b.value ≡ 0
IsFresh (some last) (b) = (b.value ≡ 0) ⊎ ((t : ℕ) × (b.stamp ≡ some t) × (last ≤ t))

pub record IsRing (s : SlidingCounter) : Type 0 where
  pub index : s.index < length s.buckets
  pub current : IsFresh s.last (current s)

pub get_or-set :
    (bs : List Bucket) (i : ℕ) (b : Bucket) → i < length bs → get_or (set bs i b) i empty_bucket ≡ b
get_or-set [] i b h = absurd (omega (arith, h))
get_or-set (x ∷ bs) zero b h = refl
get_or-set (x ∷ bs) (suc i) b h = get_or-set bs i b (omega (arith, h))

advance-index :
    (n : ℕ) (s : SlidingCounter)
    → s.index < length s.buckets
    → (advance n s).index < length (advance n s).buckets
unfolding advance
advance-index zero s h = h
advance-index (suc n) s h =
    let index = (s.index + 1) % length s.buckets in
    advance-index n (record s { index = index; buckets = set s.buckets index empty_bucket })
      (omega (arith, h, length-set s.buckets index empty_bucket))

advance-current :
    (n : ℕ) (s : SlidingCounter)
    → s.index < length s.buckets
    → (current s).value ≡ 0
    → (current (advance n s)).value ≡ 0
unfolding advance
advance-current zero s h z = z
advance-current (suc n) s h z =
    let index = (s.index + 1) % length s.buckets in
    advance-current n (record s { index = index; buckets = set s.buckets index empty_bucket })
      (omega (arith, h, length-set s.buckets index empty_bucket))
      (ap (λ (b : Bucket). b.value) (get_or-set s.buckets index empty_bucket (omega (arith, h))))

pub advance-NotAfter :
    (t n : ℕ) (s : SlidingCounter)
    → All (NotAfter t) s.buckets
    → All (NotAfter t) (advance n s).buckets
unfolding advance
advance-NotAfter t zero s h = h
advance-NotAfter t (suc n) s h =
    let index = (s.index + 1) % length s.buckets in
    advance-NotAfter t n (record s { index = index; buckets = set s.buckets index empty_bucket })
      (All-set (NotAfter t) s.buckets index empty_bucket tt h)

pub advance-window :
    (n : ℕ) (s : SlidingCounter) → ((advance n s).window ≡ s.window) × ((advance n s).step ≡ s.step)
unfolding advance
advance-window zero s = (refl, refl)
advance-window (suc n) s = advance-window n _

advance_clears :
    (n : ℕ) (s : SlidingCounter)
    → s.index < length s.buckets
    → 0 < n
    → (current (advance n s)).value ≡ 0
unfolding advance
advance_clears zero s h p = absurd (omega (arith, p))
advance_clears (suc n) s h p =
    let index = (s.index + 1) % length s.buckets in
    advance-current n (record s { index = index; buckets = set s.buckets index empty_bucket })
      (omega (arith, h, length-set s.buckets index empty_bucket))
      (ap (λ (b : Bucket). b.value) (get_or-set s.buckets index empty_bucket (omega (arith, h))))

-- A bucket that is empty or was stamped less than a step ago.
abbrev pub IsRecent : ℕ → ℕ → Bucket → Type 0
IsRecent step now b = (b.value ≡ 0) ⊎ ((t : ℕ) × (b.stamp ≡ some t) × (now < t + step))

-- The counter right after a call of `roll` at `now`.
pub record Rolled (now : ℕ) (s r : SlidingCounter) : Type 0 where
  pub last : ℕ
  pub rolled_at : r.last ≡ some last
  pub recent : ltb (now - last) s.step ≡ true
  pub index : r.index < length r.buckets
  pub current : IsRecent s.step now (current r)
  pub fresh : IsFresh (some last) (Metrics.current r)
  pub window : r.window ≡ s.window
  pub step : r.step ≡ s.step
  pub past : IsBefore now s.last → last ≤ now

at_first :
    (now : ℕ) (s : SlidingCounter)
    → 0 < s.step
    → IsRing s
    → s.last ≡ none
    → Rolled now s (record s { last = some now })
at_first now s p r e = record {
  last = now;
  rolled_at = refl;
  recent = ground (arith, p);
  index = r.index;
  current = inl (subst (λ l. IsFresh l (current s)) e r.current);
  fresh = inl (subst (λ l. IsFresh l (current s)) e r.current);
  window = refl;
  step = refl;
  past = λ _. omega arith;
}

still_recent :
    (step now last : ℕ) (b : Bucket)
    → ltb (now - last) step ≡ true
    → IsFresh (some last) b
    → IsRecent step now b
still_recent step now last b h (inl z) = inl z
still_recent step now last b h (inr (t, e, le)) = inr (t, e, ground (arith, h, le))

quotient_pos : (a b : ℕ) → 0 < b → b ≤ a → 0 < a / b
quotient_pos a b p h = elim (Bool-cases (a / b == 0)) [
  | inl z ↦
      let q : a / b ≡ 0 = ground (arith, z) in
      absurd (omega (arith, p, h, div-add-mod a b, mod-lt a p, ap (λ k. b * k) q))
  | inr z ↦ ground (arith, z)
]

roll_from-Rolled :
    (now last : ℕ) (s : SlidingCounter)
    → 0 < s.step
    → IsRing s
    → s.last ≡ some last
    → Rolled now s (roll_from s last now)
unfolding roll_from
roll_from-Rolled now last s p r e = elim (Bool-cases (ltb (now - last) s.step)) [
  | inl soon ↦ rw soon (record {
    last = last;
    rolled_at = e;
    recent = soon;
    index = r.index;
    current =
        still_recent s.step now last (current s) soon
          (subst (λ l. IsFresh l (current s)) e r.current);
    fresh = subst (λ l. IsFresh l (current s)) e r.current;
    window = refl;
    step = refl;
    past = λ b. subst (IsBefore now) e b;
  })
  | inr late ↦ rw late (
      let n = (now - last) / s.step in
      let cleared =
        advance_clears n s r.index (quotient_pos (now - last) s.step p (ground (arith, late))) in
      record {
        last = now;
        rolled_at = refl;
        recent = ground (arith, p);
        index = advance-index n s r.index;
        current = inl cleared;
        fresh = inl cleared;
        window = (advance-window n s).0;
        step = (advance-window n s).1;
        past = λ _. omega arith;
      })
]

roll_to-Rolled :
    (now : ℕ) (s : SlidingCounter) (last : Option ℕ)
    → 0 < s.step
    → IsRing s
    → s.last ≡ last
    → Rolled now s (roll_to s now last)
roll_to-Rolled now s none p r e = at_first now s p r e
roll_to-Rolled now s (some last) p r e = roll_from-Rolled now last s p r e

pub roll-Rolled : (now : ℕ) (s : SlidingCounter) → 0 < s.step → IsRing s → Rolled now s (roll s now)
unfolding roll
roll-Rolled now s p r = roll_to-Rolled now s s.last p r refl

pub roll_again :
    (now last : ℕ) (q : SlidingCounter)
    → q.last ≡ some last
    → ltb (now - last) q.step ≡ true
    → roll q now ≡ q
unfolding roll roll_from
roll_again now last q e h = ap (roll_to q now) e ∙ (rw h refl)
