-- ===== src/Metrics/Examples.antt =====
-- A counter over ten units of time in five buckets.
use cwnd_warm_up_proxy.Prelude.{◌+◌, ◌≡◌, refl, some, ◌∷◌, [], arith}
use cwnd_warm_up_proxy.Metrics.{SlidingCounter, new, add, sum, empty_bucket}
use cwnd_warm_up_proxy.Metrics.Ring.{IsRing}
use cwnd_warm_up_proxy.Metrics.Recent.{sum-add, sum_expired}

abbrev five_buckets : SlidingCounter
five_buckets = new 10 2

five_buckets-IsRing : IsRing five_buckets
unfolding new
five_buckets-IsRing = record { index = omega arith; current = refl }

sum-add_example :
    IsRing (add five_buckets 700 4)
    × ((sum (add five_buckets 700 4) 4).1 ≡ (sum five_buckets 4).1 + 700)
unfolding new
sum-add_example = sum-add five_buckets 700 4 five_buckets-IsRing (omega arith) (omega arith) tt

abbrev added_once : SlidingCounter
added_once = record {
  window = 10;
  step = 2;
  buckets = empty_bucket ∷ record { stamp = some 4; value = 700 } ∷ [];
  index = 1;
  last = some 4;
}

sum_expired_example : (sum added_once 14).1 ≡ 0
sum_expired_example = sum_expired added_once 4 14 (tt, (omega arith, tt)) (omega arith)
