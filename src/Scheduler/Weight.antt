-- ===== src/Scheduler/Weight.antt =====
-- The weights that goodput gives.
use cwnd_warm_up_proxy.Prelude.{ℕ, ◌≤◌, ◌<◌, ◌≡◌, arith}
use cwnd_warm_up_proxy.Prelude.Int.{ℤ, pos, negsuc}
use cwnd_warm_up_proxy.Scheduler.{
  Entry, min_weight, max_weight, weight_from_throughput, refresh_entry,
}

pub weight_bounds :
    (bytes : ℤ)
    → (min_weight ≤ weight_from_throughput bytes) × (weight_from_throughput bytes ≤ max_weight)
unfolding weight_from_throughput
weight_bounds (negsuc n) = omega arith
weight_bounds (pos bytes) = ground arith

abbrev pub ◌≤ℤ◌ : ℤ → ℤ → Type 0
◌≤ℤ◌ (pos a) (pos b) = a ≤ b
◌≤ℤ◌ (pos a) (negsuc b) = ⊥
◌≤ℤ◌ (negsuc a) (pos b) = Unit {0}
◌≤ℤ◌ (negsuc a) (negsuc b) = b ≤ a

-- More goodput never lowers a weight, weights stay between 1 and 8, and the weight is 8 from seven
-- quanta a second on.
pub weight_mono :
    (a b : ℤ)
    → ◌≤ℤ◌ a b
    → (weight_from_throughput a ≤ weight_from_throughput b)
      × (min_weight ≤ weight_from_throughput a)
      × (weight_from_throughput b ≤ max_weight)
      × ((n : ℕ) → 4587520 ≤ n → weight_from_throughput (pos n) ≡ max_weight)
unfolding weight_from_throughput
weight_mono (pos a) (pos b) h = (ground arith, ground arith, ground arith, λ n m. ground arith)
weight_mono (pos a) (negsuc b) h = absurd h
weight_mono (negsuc a) (pos b) h = (ground arith, ground arith, ground arith, λ n m. ground arith)
weight_mono (negsuc a) (negsuc b) h =
    (ground arith, ground arith, ground arith, λ n m. ground arith)

-- After a refresh an entry has the weight of its goodput, and a quota between 1 and that weight if
-- the quota was within its weight before.
pub refresh_entry_lem :
    (goodput : ℕ → ℤ) (e : Entry)
    → e.quota ≤ e.weight
    → let f = refresh_entry goodput e in
      (f.ref ≡ e.ref)
      × (f.weight ≡ weight_from_throughput (goodput e.ref))
      × (0 < f.quota)
      × (f.quota ≤ f.weight)
unfolding refresh_entry
refresh_entry_lem goodput e h = ground (arith, weight_bounds (goodput e.ref))
