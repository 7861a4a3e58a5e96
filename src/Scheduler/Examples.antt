-- ===== src/Scheduler/Examples.antt =====
-- Two subflows, one of which carries three quanta a second.
use cwnd_warm_up_proxy.Prelude.{
  ℕ, ◌≤◌, ◌≡◌, ◌≢◌, ◌↔◌, inl, [], ◌∷◌, map, ◌==◌, if◌then◌else◌, arith,
}
use cwnd_warm_up_proxy.Prelude.Int.{ℤ, pos}
use cwnd_warm_up_proxy.Scheduler.{
  Entry, Scheduler, nil, panics, weight_from_throughput, next, min_weight, max_weight,
}
use cwnd_warm_up_proxy.Scheduler.Weight.{weight_mono}
use cwnd_warm_up_proxy.Scheduler.Valid.{IsValid, next-IsValid}
use cwnd_warm_up_proxy.Scheduler.Run.{run}
use cwnd_warm_up_proxy.Scheduler.Round.{full, turns, total_weight, run_round}

-- Over ten seconds.
abbrev carried : ℕ → ℤ
carried id = if id == 2 then pos 1966080 else pos 100

abbrev second : Entry
second = record { ref = 2; weight = 3; quota = 1 }

abbrev two_subflows : Scheduler
two_subflows = record {
  entries = record { ref = 1; weight = 1; quota = 0 } ∷ second ∷ [];
  position = 1;
}

two_subflows-IsValid : IsValid two_subflows
two_subflows-IsValid = record {
  position = inl (omega arith);
  quotas = (omega arith, (omega arith, tt));
}

next-IsValid_example :
    IsValid (next carried two_subflows).0
    × ((next carried two_subflows).1 ≢ panics)
    × ((next carried two_subflows).1 ≡ nil ↔ two_subflows.entries ≡ [])
next-IsValid_example = next-IsValid carried two_subflows two_subflows-IsValid

weight_mono_example :
    (weight_from_throughput (pos 100) ≤ weight_from_throughput (pos 1966080))
    × (min_weight ≤ weight_from_throughput (pos 100))
    × (weight_from_throughput (pos 1966080) ≤ max_weight)
    × ((n : ℕ) → 4587520 ≤ n → weight_from_throughput (pos n) ≡ max_weight)
weight_mono_example = weight_mono (pos 100) (pos 1966080) (omega arith)

run_round_example :
    (run carried
      (total_weight carried (1 ∷ 2 ∷ []))
      (record { entries = map (full carried) (1 ∷ 2 ∷ []); position = 0 })).1
    ≡ turns carried (1 ∷ 2 ∷ [])
run_round_example = run_round carried 1 (2 ∷ [])
