-- ===== src/Metrics/Recent.antt =====
-- What a counter's sum holds: what was added lately, and nothing from before the window.
use cwnd_warm_up_proxy.Prelude.{
  ℕ, zero, suc, ◌+◌, ◌-◌, ◌/◌, ◌≤◌, ◌<◌, ◌≡◌, refl, ap, subst, sym, ◌∙◌, inl, inr, List, [], ◌∷◌,
  true, Option, none, some, length, ltb, set, get_or, All, le→ltb_false, length-set, arith,
  Bool-cases, Option-cases,
}
use cwnd_warm_up_proxy.Metrics.{
  Bucket, SlidingCounter, empty_bucket, roll, roll_from, roll_to, current, add, total, sum,
}
-- No stamp is later than `t`.
use cwnd_warm_up_proxy.Metrics.Ring.{
  IsBefore, NotAfter, IsFresh, IsRing, IsRecent, get_or-set, advance-NotAfter, advance-window,
  roll-Rolled, roll_again,
}

total-set :
    (window now v i : ℕ) (bs : List Bucket)
    → 0 < window
    → i < length bs
    → IsRecent window now (get_or bs i empty_bucket)
    → total window now
        (set bs i (record { stamp = some now; value = (get_or bs i empty_bucket).value + v }))
      ≡ total window now bs + v
unfolding total
total-set window now v i [] p h c = absurd (omega (arith, h))
total-set window now v zero (b ∷ bs) p h (inl z) = ground (arith, p, z)
total-set window now v zero (b ∷ bs) p h (inr (t, e, lt)) = ground (arith, p, e, lt)
total-set window now v (suc i) (b ∷ bs) p h c =
    let rest = total-set window now v i bs p (omega (arith, h)) c in ground (arith, rest)

widen_recent :
    (step window now : ℕ) (b : Bucket) → step ≤ window → IsRecent step now b → IsRecent window now b
widen_recent step window now b le (inl z) = inl z
widen_recent step window now b le (inr (t, e, lt)) = inr (t, e, omega (arith, le, lt))

-- What is added counts at once and in full: the sum right after a call of Add is the sum before it and the
-- value. The ring stays as it should be, the step is not above the window, and the clock does not run back.
pub sum-add :
    (s : SlidingCounter) (value now : ℕ)
    → IsRing s
    → 0 < s.step
    → s.step ≤ s.window
    → IsBefore now s.last
    → IsRing (add s value now) × ((sum (add s value now) now).1 ≡ (sum s now).1 + value)
unfolding add sum
sum-add s value now ring p le past =
    let r = roll s now in
    let f = roll-Rolled now s p ring in
    let b : Bucket = record { stamp = some now; value = (current r).value + value } in
    let added : SlidingCounter = record r { buckets = set r.buckets r.index b } in
    let stays =
      roll_again now f.last added f.rolled_at
        (subst (λ n. ltb (now - f.last) n ≡ true) (sym f.step) f.recent) in
    let counted =
      total-set r.window now value r.index r.buckets (omega (arith, p, le, f.window)) f.index
        (widen_recent s.step r.window now (current r) (omega (arith, le, f.window)) f.current) in
    (
      record {
        index = omega (arith, f.index, length-set r.buckets r.index b);
        current =
            subst (λ l. IsFresh l (current added)) (sym f.rolled_at)
              (inr (
                now,
                ap (λ (c : Bucket). c.stamp) (get_or-set r.buckets r.index b f.index),
                f.past past,
              ));
      },
      ap (λ (c : SlidingCounter). total c.window now c.buckets) stays ∙ counted,
    )

total_expired :
    (window now t : ℕ) (bs : List Bucket)
    → t + window ≤ now
    → All (NotAfter t) bs
    → total window now bs ≡ 0
unfolding total
total_expired window now t [] late h = refl
total_expired window now t (b ∷ bs) late h = elim (Option-cases b.stamp) [
  | inl e ↦ rw e (total_expired window now t bs late h.1)
  | inr (u, e) ↦
      let before : u ≤ t = subst (IsBefore t) e h.0 in
      rw (e, le→ltb_false now (u + window) (omega (arith, late, before)))
        (total_expired window now t bs late h.1)
]

roll_to-NotAfter :
    (t now : ℕ) (s : SlidingCounter) (last : Option ℕ)
    → All (NotAfter t) s.buckets
    → All (NotAfter t) (roll_to s now last).buckets
unfolding roll_from
roll_to-NotAfter t now s none h = h
roll_to-NotAfter t now s (some last) h = elim (Bool-cases (ltb (now - last) s.step)) [
  | inl soon ↦ rw soon h
  | inr late ↦ rw late (advance-NotAfter t ((now - last) / s.step) s h)
]

roll_to-window :
    (now : ℕ) (s : SlidingCounter) (last : Option ℕ) → (roll_to s now last).window ≡ s.window
unfolding roll_from
roll_to-window now s none = refl
roll_to-window now s (some last) = elim (Bool-cases (ltb (now - last) s.step)) [
  | inl soon ↦ rw soon refl
  | inr late ↦ rw late (advance-window ((now - last) / s.step) s).0
]

-- When nothing was added since a window ago, the sum is 0.
pub sum_expired :
    (s : SlidingCounter) (t now : ℕ)
    → All (NotAfter t) s.buckets
    → t + s.window ≤ now
    → (sum s now).1 ≡ 0
unfolding sum roll
sum_expired s t now h late =
    let r = roll_to s now s.last in
    total_expired r.window now t r.buckets (omega (arith, late, roll_to-window now s s.last))
      (roll_to-NotAfter t now s s.last h)

-- A counter that `Add` and `Sum` may be called on at `now`.
pub record IsReady (now : ℕ) (s : SlidingCounter) : Type 0 where
  pub ring : IsRing s
  pub step : 0 < s.step
  pub fits : s.step ≤ s.window
  pub past : IsBefore now s.last

pub add-IsReady :
    (s : SlidingCounter) (value now : ℕ) → IsReady now s → IsReady now (add s value now)
unfolding add
add-IsReady s value now h =
    let f = roll-Rolled now s h.step h.ring in
    record {
      ring = (sum-add s value now h.ring h.step h.fits h.past).0;
      step = omega (arith, h.step, f.step);
      fits = omega (arith, h.fits, f.step, f.window);
      past = subst (IsBefore now) (sym f.rolled_at) (f.past h.past);
    }
