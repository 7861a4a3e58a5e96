-- ===== src/Scheduler/Round.antt =====
-- A whole round under steady goodput: every subflow in its turn, as often in a row as its weight says.
use cwnd_warm_up_proxy.Prelude.{
  ℕ, zero, suc, ◌+◌, ◌-◌, ◌%◌, ◌≤◌, ◌<◌, ◌≡◌, refl, sym, ap, ap₂, ◌∙◌, inl, inr, List, [], ◌∷◌,
  ◌++◌, some, false, length, get_elem?, set, ◌==◌, if◌then◌else◌, map, replicate, arith, Bool-cases,
  length-map, length-append, get_elem?-middle, set-middle, append_assoc, append-nil,
}
use native.Mathlib.Nat.{mod-eq_of_lt, add-zero}
use mathlib.Core.List.{map-append}
use cwnd_warm_up_proxy.Prelude.Int.{ℤ}
use cwnd_warm_up_proxy.Scheduler.{
  Entry, Scheduler, Choice, subflow, weight_from_throughput, refresh_entry, refresh_weights,
  use_entry, next,
}
use cwnd_warm_up_proxy.Scheduler.Weight.{weight_bounds}
use cwnd_warm_up_proxy.Scheduler.Pick.{next_use}
use cwnd_warm_up_proxy.Scheduler.Run.{run, run_step, run-add, run-refresh}

module _ (goodput : ℕ → ℤ) where
  abbrev pub weight_of : ℕ → ℕ
  weight_of id = weight_from_throughput (goodput id)

  -- An entry at the start of its turn.
  abbrev pub full : ℕ → Entry
  full id = record { ref = id; weight = weight_of id; quota = weight_of id }

  abbrev spent : ℕ → ℕ → Entry
  spent id quota = record { ref = id; weight = weight_of id; quota = quota }

  pub turns : List ℕ → List Choice
  turns [] = []
  turns (id ∷ ids) = replicate (weight_of id) (subflow id) ++ turns ids

  pub total_weight : List ℕ → ℕ
  total_weight [] = 0
  total_weight (id ∷ ids) = weight_of id + total_weight ids

  -- The entries before and behind the one whose turn it is have their full quotas.
  abbrev in_turn : List ℕ → Entry → List ℕ → ℕ → Scheduler
  in_turn before e after position = record {
    entries = map full before ++ (e ∷ map full after);
    position = position;
  }

  refresh_full : (id : ℕ) → refresh_entry goodput (full id) ≡ full id
  unfolding refresh_entry
  refresh_full id = ground (arith, weight_bounds (goodput id))

  refresh_spent :
      (id quota : ℕ)
      → refresh_entry goodput (spent id quota) ≡ (if quota == 0 then full id else spent id quota)
  unfolding refresh_entry
  refresh_spent id quota = ground (arith, weight_bounds (goodput id))

  refresh_started :
      (id quota : ℕ) → refresh_entry goodput (spent id (suc quota)) ≡ spent id (suc quota)
  refresh_started id quota = refresh_spent id (suc quota) ∙ ground arith

  refresh-map-full : (ids : List ℕ) → map (refresh_entry goodput) (map full ids) ≡ map full ids
  refresh-map-full [] = refl
  refresh-map-full (id ∷ ids) = ap₂ ◌∷◌ (refresh_full id) (refresh-map-full ids)

  refresh-in_turn :
      (before : List ℕ) (e : Entry) (after : List ℕ) (position : ℕ)
      → refresh_weights goodput (in_turn before e after position)
        ≡ in_turn before (refresh_entry goodput e) after position
  unfolding refresh_weights
  refresh-in_turn before e after position =
      ap (λ es. record { entries = es; position = position })
        (map-append (refresh_entry goodput) (map full before) (e ∷ map full after)
          ∙ ap₂ (λ xs ys. xs ++ (refresh_entry goodput e ∷ ys)) (refresh-map-full before)
              (refresh-map-full after))

  abbrev size : List ℕ → List ℕ → ℕ
  size before after = length before + suc (length after)

  found :
      (before : List ℕ) (e : Entry) (after : List ℕ)
      → get_elem? (map full before ++ (e ∷ map full after)) (length before) ≡ some e
  found before e after =
      rw (length-map before full) at (get_elem?-middle (map full before) e (map full after))

  written :
      (before : List ℕ) (d e : Entry) (after : List ℕ)
      → set (map full before ++ (d ∷ map full after)) (length before) e
        ≡ map full before ++ (e ∷ map full after)
  written before d e after =
      rw (length-map before full) at (set-middle (map full before) d e (map full after))

  length-in_turn :
      (before : List ℕ) (e : Entry) (after : List ℕ)
      → length (map full before ++ (e ∷ map full after)) ≡ size before after
  length-in_turn before e after =
      length-append (map full before) (e ∷ map full after)
      ∙ ap₂ (λ a b. a + suc b) (length-map before full) (length-map after full)

  use-in_turn :
      (before : List ℕ) (id quota : ℕ) (after : List ℕ)
      → use_entry
          (in_turn before (spent id (suc quota)) after (length before))
          (spent id (suc quota))
        ≡ (
          in_turn before
              (spent id quota)
              after
              (if quota == 0 then (length before + 1) % size before after else length before),
          subflow id,
        )
  unfolding use_entry
  use-in_turn before id quota after =
      let less : suc quota - 1 ≡ quota = omega arith in
      rw
        (
          less,
          written before (spent id (suc quota)) (spent id quota) after,
          length-in_turn before (spent id quota) after,
        )
        (elim (Bool-cases (quota == 0)) [ inl z ↦ rw z refl | inr z ↦ rw z refl ])

  -- One call in the middle of a turn.
  next-in_turn :
      (before : List ℕ) (id quota : ℕ) (after : List ℕ)
      → suc quota ≤ weight_of id
      → next goodput (in_turn before (spent id (suc quota)) after (length before)) ≡ (
        in_turn before
            (spent id quota)
            after
            (if quota == 0 then (length before + 1) % size before after else length before),
        subflow id,
      )
  next-in_turn before id quota after h =
      next_use goodput (in_turn before (spent id (suc quota)) after (length before))
        (spent id (suc quota)) (found before (spent id (suc quota)) after) (omega arith)
      ∙ ap₂ use_entry
          (refresh-in_turn before (spent id (suc quota)) after (length before)
            ∙ ap (λ e. in_turn before e after (length before)) (refresh_started id quota))
          (refresh_started id quota)
      ∙ use-in_turn before id quota after

  -- The calls of one turn, from any quota that is left.
  run_turn :
      (before : List ℕ) (id quota : ℕ) (after : List ℕ)
      → suc quota ≤ weight_of id
      → run goodput (suc quota) (in_turn before (spent id (suc quota)) after (length before)) ≡ (
        in_turn before (spent id 0) after ((length before + 1) % size before after),
        replicate (suc quota) (subflow id),
      )
  run_turn before id zero after h =
      run_step goodput 0 _ _ _ (subflow id) [] (next-in_turn before id 0 after h)
        (unfold run in refl)
  run_turn before id (suc quota) after h =
      run_step goodput (suc quota) _ _ _ (subflow id) (replicate (suc quota) (subflow id))
        (next-in_turn before id (suc quota) after h
          ∙ ap
              (λ b. (
                in_turn before (spent id (suc quota)) after
                    (if b then (length before + 1) % size before after else length before),
                subflow id,
              ))
              stays)
        (run_turn before id quota after (omega arith))
    where
      stays : (suc quota == 0) ≡ false
      stays = ground arith

  run_full_turn :
      (before : List ℕ) (id w : ℕ) (after : List ℕ)
      → w ≡ weight_of id
      → run goodput w (in_turn before (spent id w) after (length before)) ≡ (
        in_turn before (spent id 0) after ((length before + 1) % size before after),
        replicate w (subflow id),
      )
  run_full_turn before id zero after h = absurd (omega (arith, h, weight_bounds (goodput id)))
  run_full_turn before id (suc quota) after h = run_turn before id quota after (omega (arith, h))

  -- Behind a turn the refresh fills the quota again, and the next turn begins.
  next_turn :
      (before : List ℕ) (id id' : ℕ) (after : List ℕ)
      → refresh_weights goodput (
          in_turn before
            (spent id 0)
            (id' ∷ after)
            ((length before + 1) % size before (id' ∷ after)))
        ≡ in_turn (before ++ (id ∷ [])) (full id') after (length (before ++ (id ∷ [])))
  next_turn before id id' after =
      refresh-in_turn before (spent id 0) (id' ∷ after)
        ((length before + 1) % size before (id' ∷ after))
      ∙ ap₂ (λ (es : List Entry) (p : ℕ). record { entries = es; position = p }) same_entries
          same_position
    where
      same_entries :
          map full before ++ (refresh_entry goodput (spent id 0) ∷ (full id' ∷ map full after))
          ≡ map full (before ++ (id ∷ [])) ++ (full id' ∷ map full after)
      same_entries =
          rw (refresh_spent id 0, map-append full before (id ∷ []))
            (sym (append_assoc (map full before) (full id ∷ []) (full id' ∷ map full after)))

      same_position : (length before + 1) % size before (id' ∷ after) ≡ length (before ++ (id ∷ []))
      same_position = mod-eq_of_lt (omega arith) ∙ sym (length-append before (id ∷ []))

  -- From the start of a turn on, with steady goodput, the calls of `Next` go through the rest of the
  -- entries.
  run_rest :
      (after before : List ℕ) (id : ℕ)
      → (run goodput (total_weight (id ∷ after)) (in_turn before (full id) after (length before))).1
        ≡ turns (id ∷ after)
  unfolding total_weight turns
  run_rest [] before id =
      ap (λ k. (run goodput k (in_turn before (full id) [] (length before))).1)
        (add-zero (weight_of id))
      ∙ ap (λ t. t.1) (run_full_turn before id (weight_of id) [] refl)
      ∙ sym (unfold turns in append-nil (replicate (weight_of id) (subflow id)))
  run_rest (id' ∷ after) before id =
      ap (λ t. t.1)
        (run-add goodput (weight_of id) rest _ _ _ _ _
          (run_full_turn before id (weight_of id) (id' ∷ after) refl) refl)
      ∙ ap (λ l. replicate (weight_of id) (subflow id) ++ l)
          (ap (λ t. t.1) (sym (run-refresh goodput rest left rest_pos left_pos idem))
            ∙ ap (λ t. (run goodput rest t).1) (next_turn before id id' after)
            ∙ run_rest after (before ++ (id ∷ [])) id')
    where
      rest : ℕ
      rest = total_weight (id' ∷ after)

      left : Scheduler
      left =
          in_turn before (spent id 0) (id' ∷ after)
            ((length before + 1) % size before (id' ∷ after))

      rest_pos : 0 < rest
      rest_pos = omega (arith, weight_bounds (goodput id'))

      left_pos : 0 < length left.entries
      left_pos = omega (arith, length-in_turn before (spent id 0) (id' ∷ after))

      idem : refresh_weights goodput (refresh_weights goodput left) ≡ refresh_weights goodput left
      idem = rw (next_turn before id id' after) (
          refresh-in_turn (before ++ (id ∷ [])) (full id') after (length (before ++ (id ∷ [])))
          ∙ ap (λ e. in_turn (before ++ (id ∷ [])) e after (length (before ++ (id ∷ []))))
              (refresh_full id'))

  -- Under steady goodput a round of `Next`, from all quotas full, returns every subflow in turn, each
  -- as many times in a row as its weight, and so each in proportion to its weight.
  pub run_round :
      (id : ℕ) (ids : List ℕ)
      → (run goodput
          (total_weight (id ∷ ids))
          (record { entries = map full (id ∷ ids); position = 0 })).1
        ≡ turns (id ∷ ids)
  run_round id ids = run_rest ids [] id
