-- ===== src/Scheduler/Pick.antt =====
-- Which subflow `Next` returns: the one at the position, as long as its quota lasts.
use cwnd_warm_up_proxy.Prelude.{
  ℕ, zero, suc, ◌+◌, ◌-◌, ◌%◌, ◌<◌, ◌≡◌, refl, ap, ◌∙◌, List, [], ◌∷◌, some, false, length,
  get_elem?, ◌==◌, if◌then◌else◌, map, All-get_elem?, arith, length-map, length-set, leb,
}
use cwnd_warm_up_proxy.Prelude.Int.{ℤ}
use cwnd_warm_up_proxy.Scheduler.{
  Entry, Scheduler, subflow, refresh_entry, refresh_weights, use_entry, choose, next,
}
use cwnd_warm_up_proxy.Scheduler.Weight.{refresh_entry_lem}
use cwnd_warm_up_proxy.Scheduler.Valid.{WithinQuota, IsValid, next_choose}

get_elem?-map :
    (f : Entry → Entry) (es : List Entry) (i : ℕ) (e : Entry)
    → get_elem? es i ≡ some e
    → get_elem? (map f es) i ≡ some (f e)
get_elem?-map f [] i e h = absurd (cc)
get_elem?-map f (x ∷ es) zero e h = cc
get_elem?-map f (x ∷ es) (suc i) e h = get_elem?-map f es i e h

get_elem?-some : (es : List Entry) (i : ℕ) (e : Entry) → get_elem? es i ≡ some e → i < length es
get_elem?-some [] i e h = absurd (cc)
get_elem?-some (x ∷ es) zero e h = omega arith
get_elem?-some (x ∷ es) (suc i) e h = omega (arith, get_elem?-some es i e h)

choose_use :
    (n : ℕ) (s : Scheduler) (e : Entry)
    → 0 < n
    → get_elem? s.entries s.position ≡ some e
    → 0 < e.quota
    → choose n s ≡ use_entry s e
unfolding choose
choose_use zero s e some_round h q = absurd (omega arith)
choose_use (suc n) s e some_round h q = rw (h, choose) (rw (positive, choose) refl)
  where
    positive : (e.quota == 0) ≡ false
    positive = ground (arith, q)

-- After the refresh no quota is 0, so `Next` takes the entry at the position without passing any.
pub next_use :
    (goodput : ℕ → ℤ) (s : Scheduler) (e : Entry)
    → get_elem? s.entries s.position ≡ some e
    → WithinQuota e
    → next goodput s ≡ use_entry (refresh_weights goodput s) (refresh_entry goodput e)
unfolding refresh_weights
next_use goodput s e h q =
    let some_entry = get_elem?-some s.entries s.position e h in
    next_choose goodput s (omega (arith, some_entry))
    ∙ choose_use (length s.entries) (refresh_weights goodput s) (refresh_entry goodput e)
        (omega (arith, some_entry)) (get_elem?-map (refresh_entry goodput) s.entries s.position e h)
        (refresh_entry_lem goodput e q).2

-- `Next` returns the subflow at the position, and moves on to the following one exactly when that
-- takes the last unit of the entry's quota.
pub next_picks :
    (goodput : ℕ → ℤ) (s : Scheduler) (e : Entry)
    → IsValid s
    → get_elem? s.entries s.position ≡ some e
    → let t = next goodput s in
      (t.1 ≡ subflow e.ref)
      × (length t.0.entries ≡ length s.entries)
      × (t.0.position ≡ (
          if leb (refresh_entry goodput e).quota 1
          then (s.position + 1) % length s.entries
          else s.position))
unfolding use_entry refresh_weights
next_picks goodput s e v h =
    let q = All-get_elem? WithinQuota s.entries s.position e v.quotas h in
    rw (next_use goodput s e h q) (
      ap subflow (refresh_entry_lem goodput e q).0,
      ground (
        arith,
        length-map s.entries (refresh_entry goodput),
        length-set (map (refresh_entry goodput) s.entries) s.position
            (spent (refresh_entry goodput e)),
      ),
      ground (
        arith,
        length-map s.entries (refresh_entry goodput),
        length-set (map (refresh_entry goodput) s.entries) s.position
            (spent (refresh_entry goodput e)),
      ),
    )
  where
    spent : Entry → Entry
    spent f = record f { quota = f.quota - 1 }
