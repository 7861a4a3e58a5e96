-- ===== src/Scheduler/Valid.antt =====
-- The scheduler's invariant: the position is an index, and no quota exceeds its weight.
use cwnd_warm_up_proxy.Prelude.{
  ℕ, zero, suc, ◌-◌, ◌≤◌, ◌<◌, ◌≡◌, ◌≢◌, ◌↔◌, refl, ◌⊎◌, inl, inr, List, [], ◌∷◌, length,
  length-append, length-set, ◌==◌, map, All, All-append, arith, Bool-cases, All-set, All-get_elem?,
  get_elem?-lt, length-map,
}
use cwnd_warm_up_proxy.Prelude.Int.{ℤ}
use cwnd_warm_up_proxy.Scheduler.{
  Entry, Scheduler, new, attach, detach, without, refresh_entry, refresh_weights, set_quota,
  advance, use_entry, skip_entry, first_entry, choose, next, Choice, nil, panics,
}
use cwnd_warm_up_proxy.Scheduler.Weight.{refresh_entry_lem}

abbrev pub WithinQuota : Entry → Type 0
WithinQuota e = e.quota ≤ e.weight

-- In an empty scheduler the position is 0.
pub record IsValid (s : Scheduler) : Type 0 where
  pub position : (s.position < length s.entries) ⊎ ((s.entries ≡ []) × (s.position ≡ 0))
  pub quotas : All WithinQuota s.entries

pub new-IsValid : IsValid new
unfolding new
new-IsValid = record { position = inr (refl, refl); quotas = tt }

pub attach-IsValid : (s : Scheduler) (subflow : ℕ) → IsValid s → IsValid (attach s subflow)
unfolding attach
attach-IsValid s subflow v =
    let one : Entry = record { ref = subflow; weight = 1; quota = 1 } in
    record {
      position = inl (ground (arith, v.position, length-append s.entries (one ∷ [])));
      quotas = All-append WithinQuota s.entries (one ∷ []) v.quotas (omega arith, tt);
    }

without-WithinQuota :
    (id : ℕ) (es : List Entry) → All WithinQuota es → All WithinQuota (without id es)
unfolding without
without-WithinQuota id [] h = tt
without-WithinQuota id (e ∷ es) h = elim (Bool-cases (e.ref == id)) [
  | inl gone ↦ rw gone (without-WithinQuota id es h.1)
  | inr kept ↦ rw kept (h.0, without-WithinQuota id es h.1)
]

nonempty : (es : List Entry) → (es ≡ []) ⊎ (0 < length es)
nonempty [] = inl refl
nonempty (e ∷ es) = inr (omega arith)

pub detach-IsValid : (s : Scheduler) (id : ℕ) → IsValid s → IsValid (detach s id)
unfolding detach
detach-IsValid s id v = record {
  position = ground (arith, nonempty (without id s.entries));
  quotas = without-WithinQuota id s.entries v.quotas;
}

module _ (goodput : ℕ → ℤ) where
  refresh-WithinQuota :
      (es : List Entry) → All WithinQuota es → All WithinQuota (map (refresh_entry goodput) es)
  refresh-WithinQuota [] h = tt
  refresh-WithinQuota (e ∷ es) h = ((refresh_entry_lem goodput e h.0).3, refresh-WithinQuota es h.1)

  -- The position is an index of the entries.
  record IsReady (s : Scheduler) : Type 0 where
    position : s.position < length s.entries
    quotas : All WithinQuota s.entries

  refresh-IsReady :
      (s : Scheduler) → IsValid s → 0 < length s.entries → IsReady (refresh_weights goodput s)
  unfolding refresh_weights
  refresh-IsReady s v some_entry = record {
    position = ground (arith, v.position, length-map s.entries (refresh_entry goodput), some_entry);
    quotas = refresh-WithinQuota s.entries v.quotas;
  }

  set_quota-IsReady :
      (s : Scheduler) (e : Entry) (q : ℕ) → q ≤ e.weight → IsReady s → IsReady (set_quota s e q)
  set_quota-IsReady s e q h v = record {
    position = omega (arith, v.position, length-set s.entries s.position (record e { quota = q }));
    quotas = All-set WithinQuota s.entries s.position (record e { quota = q }) h v.quotas;
  }

  advance-IsReady : (s : Scheduler) → IsReady s → IsReady (record s { position = advance s })
  advance-IsReady s v = record { position = omega (arith, v.position); quotas = v.quotas }

  use_entry-IsReady :
      (s : Scheduler) (e : Entry) → WithinQuota e → IsReady s → IsReady (use_entry s e).0
  unfolding use_entry
  use_entry-IsReady s e h v =
      let t = set_quota-IsReady s e (e.quota - 1) (omega arith) v in
      elim (Bool-cases (e.quota - 1 == 0)) [
        | inl z ↦ rw z (advance-IsReady (set_quota s e (e.quota - 1)) t)
        | inr z ↦ rw z t
      ]

  skip_entry-IsReady : (s : Scheduler) (e : Entry) → IsReady s → IsReady (skip_entry s e)
  unfolding skip_entry
  skip_entry-IsReady s e v =
      advance-IsReady (set_quota s e e.weight) (set_quota-IsReady s e e.weight (omega arith) v)

  Works : Scheduler × Choice → Type 0
  Works t = IsReady t.0 × (t.1 ≢ panics) × (t.1 ≢ nil)

  choose-Works : (n : ℕ) (s : Scheduler) → IsReady s → Works (choose n s)
  unfolding choose Works use_entry
  choose-Works zero s v =
      let (e, h) = get_elem?-lt s.entries 0 (omega (arith, v.position)) in
      rw h (unfold first_entry in (v, λ x. cc, λ x. cc))
  choose-Works (suc n) s v =
      let (e, h) = get_elem?-lt s.entries s.position v.position in
      let within = All-get_elem? WithinQuota s.entries s.position e v.quotas h in
      elim (Bool-cases (e.quota == 0)) [
        | inl z ↦
            rw (h, choose)
              (rw (z, choose) (choose-Works n (skip_entry s e) (skip_entry-IsReady s e v)))
        | inr z ↦ rw (h, choose) (rw (z, choose) (use_entry-IsReady s e within v, λ x. cc, λ x. cc))
      ]

  next_empty : (s : Scheduler) → s.entries ≡ [] → next goodput s ≡ (s, nil)
  unfolding next
  next_empty s e = ground (arith, e)

  pub next_choose :
      (s : Scheduler)
      → 0 < length s.entries
      → next goodput s ≡ choose (length s.entries) (refresh_weights goodput s)
  unfolding next
  next_choose s h = ground (arith, h)

  -- `Next` keeps the scheduler valid and never reads past its entries; it returns nil exactly when
  -- there is no subflow.
  pub next-IsValid :
      (s : Scheduler)
      → IsValid s
      → IsValid (next goodput s).0
        × ((next goodput s).1 ≢ panics)
        × ((next goodput s).1 ≡ nil ↔ s.entries ≡ [])
  unfolding Works
  next-IsValid s v = elim (nonempty s.entries) [
    | inl e ↦ rw (next_empty s e) (v, λ x. cc, (λ _. e, λ _. refl))
    | inr h ↦
        let w =
          choose-Works (length s.entries) (refresh_weights goodput s) (refresh-IsReady s v h) in
        rw (next_choose s h) (
          record { position = inl w.0.position; quotas = w.0.quotas },
          w.1,
          (λ q. absurd (w.2 q), λ q. absurd (ground (arith, q, h))),
        )
  ]
