-- ===== src/Metrics.antt =====
-- internal/metrics/sliding.go: a counter over a window of time, in a ring of buckets. Times are
-- nanoseconds on a clock that does not run backwards, none for the zero time. The values added are byte
-- counts, and so not negative.
pub mod Ring
pub mod Recent
mod Examples
use cwnd_warm_up_proxy.Prelude.{
  ℕ, zero, suc, ◌+◌, ◌-◌, ◌/◌, ◌%◌, List, [], ◌∷◌, Bool, true, false, Option, none, some, length,
  ltb, ◌==◌, if◌then◌else◌, set, get_or, replicate,
}

-- bucket
pub record Bucket : Type 0 where
  pub stamp : Option ℕ
  pub value : ℕ

pub record SlidingCounter : Type 0 where
  pub window : ℕ
  pub step : ℕ
  pub buckets : List Bucket
  pub index : ℕ
  pub last : Option ℕ

abbrev pub empty_bucket : Bucket
empty_bucket = record { stamp = none; value = 0 }

-- 500 ms
abbrev pub default_step : ℕ
default_step = 500000000

-- A division by 0 does not occur, since the step is not 0 any more.
unfoldable pub new : ℕ → ℕ → SlidingCounter
new window step =
    let step = if step == 0 then default_step else step in
    let count = window / step in
    record {
      window = window;
      step = step;
      buckets = replicate (if count == 0 then 1 else count) empty_bucket;
      index = 0;
      last = none;
    }

-- The loop of `roll`.
unfoldable pub advance : ℕ → SlidingCounter → SlidingCounter
advance zero s = s
advance (suc n) s =
    let index = (s.index + 1) % length s.buckets in
    advance n (record s { index = index; buckets = set s.buckets index empty_bucket })

abbrev pub roll_from : SlidingCounter → ℕ → ℕ → SlidingCounter
unfolding advance
roll_from s last now =
    let elapsed = now - last in
    let rolled = advance (elapsed / s.step) s in
    if ltb elapsed s.step then s else record rolled { last = some now }

abbrev pub roll_to : SlidingCounter → ℕ → Option ℕ → SlidingCounter
roll_to s now none = record s { last = some now }
roll_to s now (some last) = roll_from s last now

unfoldable pub roll : SlidingCounter → ℕ → SlidingCounter
roll s now = roll_to s now s.last

abbrev pub current : SlidingCounter → Bucket
current s = get_or s.buckets s.index empty_bucket

unfoldable pub add : SlidingCounter → ℕ → ℕ → SlidingCounter
unfolding roll
add s value now =
    let s = roll s now in
    record s {
      buckets =
          set s.buckets s.index (record { stamp = some now; value = (current s).value + value });
    }

-- `stamp.After(now - window)`
abbrev pub is_within : ℕ → ℕ → Option ℕ → Bool
is_within window now none = false
is_within window now (some t) = ltb now (t + window)

unfoldable pub total : ℕ → ℕ → List Bucket → ℕ
total window now [] = 0
total window now (b ∷ bs) =
    let rest = total window now bs in if is_within window now b.stamp then b.value + rest else rest

-- The counter after the call, and the sum.
unfoldable pub sum : SlidingCounter → ℕ → SlidingCounter × ℕ
unfolding roll total
sum s now = let s = roll s now in (s, total s.window now s.buckets)
