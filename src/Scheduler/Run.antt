-- ===== src/Scheduler/Run.antt =====
-- Calls of `Next` in a row.
use cwnd_warm_up_proxy.Prelude.{
  ℕ, zero, suc, ◌+◌, ◌<◌, ◌≡◌, refl, sym, ap₂, ◌∙◌, List, [], ◌∷◌, ◌++◌, length, arith, length-map,
}
use Prim.Native.Nat.add
use cwnd_warm_up_proxy.Prelude.Int.{ℤ}
use cwnd_warm_up_proxy.Scheduler.{Scheduler, Choice, refresh_entry, refresh_weights, choose, next}
use cwnd_warm_up_proxy.Scheduler.Valid.{next_choose}

module _ (goodput : ℕ → ℤ) where
  -- `k` calls of `Next` in a row, and what they return.
  unfoldable pub run : ℕ → Scheduler → Scheduler × List Choice
  run zero s = (s, [])
  run (suc k) s = let t = next goodput s in let rest = run k t.0 in (rest.0, t.1 ∷ rest.1)

  pub length-refresh :
      (s : Scheduler) → length (refresh_weights goodput s).entries ≡ length s.entries
  unfolding refresh_weights
  length-refresh s = length-map s.entries (refresh_entry goodput)

  pub run_step :
      (k : ℕ) (s t u : Scheduler) (c : Choice) (cs : List Choice)
      → next goodput s ≡ (t, c)
      → run k t ≡ (u, cs)
      → run (suc k) s ≡ (u, c ∷ cs)
  unfolding run
  run_step k s t u c cs first later = rw (first, later) refl

  run-add_lem :
      (a b : ℕ) (s : Scheduler)
      → run (a + b) s ≡ ((run b (run a s).0).0, (run a s).1 ++ (run b (run a s).0).1)
  unfolding run
  run-add_lem zero b s = rw (add.zero b) refl
  run-add_lem (suc a) b s = rw (add.suc a b) (
      run_step (a + b) s (next goodput s).0 _ (next goodput s).1 _ refl
        (run-add_lem a b (next goodput s).0))

  pub run-add :
      (a b : ℕ) (s t u : Scheduler) (cs ds : List Choice)
      → run a s ≡ (t, cs)
      → run b t ≡ (u, ds)
      → run (a + b) s ≡ (u, cs ++ ds)
  run-add a b s t u cs ds first later = run-add_lem a b s ∙ rw (first, later) refl

  pub run-refresh :
      (k : ℕ) (s : Scheduler)
      → 0 < k
      → 0 < length s.entries
      → refresh_weights goodput (refresh_weights goodput s) ≡ refresh_weights goodput s
      → run k (refresh_weights goodput s) ≡ run k s
  run-refresh zero s h e i = absurd (omega arith)
  run-refresh (suc k) s h e i =
      run_step k (refresh_weights goodput s) (next goodput s).0 (run k (next goodput s).0).0
        (next goodput s).1 (run k (next goodput s).0).1 same refl
      ∙ sym (run_step k s (next goodput s).0 _ (next goodput s).1 _ refl refl)
    where
      same : next goodput (refresh_weights goodput s) ≡ next goodput s
      same =
          next_choose goodput (refresh_weights goodput s) (omega (arith, e, length-refresh s))
          ∙ ap₂ choose (length-refresh s) i
          ∙ sym (next_choose goodput s e)
