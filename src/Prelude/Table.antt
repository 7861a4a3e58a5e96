-- ===== src/Prelude/Table.antt =====
-- A Go map with integer keys as an association list. `Distinct` says that no key stands twice.
use cwnd_warm_up_proxy.Prelude.Lists.{length}
use cwnd_warm_up_proxy.Prelude.Tests.{◌==◌, ==_iff, Bool-cases, if◌then◌else◌}
use Prim.Native.Nat.{ℕ, ◌≤◌, ◌<◌}
use mathlib.Core.Path.{◌≡◌, refl, subst₂}
use mathlib.Core.Logic.{inl, inr}
use mathlib.Core.List.{List, [], ◌∷◌}
use mathlib.Core.Option.{Option, none, some}
use native.Mathlib.Omega.{arith}

module _ {ℓ} {V : Type ℓ} where
  unfoldable pub lookup : ℕ → List (ℕ × V) → Option V
  lookup k [] = none
  lookup k ((j, v) ∷ m) = if j == k then some v else lookup k m

  -- An assignment to a key of the map.
  unfoldable pub insert : ℕ → V → List (ℕ × V) → List (ℕ × V)
  insert key new [] = (key, new) ∷ []
  insert key new ((k, old) ∷ rest) =
      if k == key then (key, new) ∷ rest else (k, old) ∷ insert key new rest

  unfoldable pub delete : ℕ → List (ℕ × V) → List (ℕ × V)
  delete key [] = []
  delete key ((k, old) ∷ rest) = if k == key then delete key rest else (k, old) ∷ delete key rest

  -- What a reader of key `at` finds after an assignment to `key`.
  pub lookup-insert :
      (key at : ℕ) (new : V) (table : List (ℕ × V))
      → lookup at (insert key new table) ≡ (if key == at then some new else lookup at table)
  unfolding insert lookup
  lookup-insert key at new [] = refl
  lookup-insert key at new (entry ∷ table) = ground (arith, lookup-insert key at new table)

  pub lookup-delete :
      (key at : ℕ) (table : List (ℕ × V))
      → lookup at (delete key table) ≡ (if key == at then none else lookup at table)
  unfolding delete lookup
  lookup-delete key at [] = ground arith
  lookup-delete key at (entry ∷ table) = ground (arith, lookup-delete key at table)

  -- No key of the list stands again further down.
  abbrev pub Distinct : List (ℕ × V) → Type ℓ
  Distinct [] = Unit {ℓ}
  Distinct ((k, v) ∷ m) = (lookup k m ≡ none) × Distinct m

  pub insert-Distinct : (k : ℕ) (v : V) (m : List (ℕ × V)) → Distinct m → Distinct (insert k v m)
  unfolding insert
  insert-Distinct k v [] d = (unfold lookup in refl, tt)
  insert-Distinct k v ((i, w) ∷ m) d =
      ground (arith, insert-Distinct k v m d.1, lookup-insert k i v m)

  pub delete-Distinct : (k : ℕ) (m : List (ℕ × V)) → Distinct m → Distinct (delete k m)
  unfolding delete
  delete-Distinct k [] d = tt
  delete-Distinct k ((i, w) ∷ m) d = ground (arith, delete-Distinct k m d.1, lookup-delete k i m)

  pub delete_absent : (k : ℕ) (m : List (ℕ × V)) → lookup k m ≡ none → delete k m ≡ m
  unfolding lookup delete
  delete_absent k [] e = refl
  delete_absent k ((i, w) ∷ m) e = ground (arith, delete_absent k m)

  length-delete-le : (k : ℕ) (m : List (ℕ × V)) → length (delete k m) ≤ length m
  unfolding delete
  length-delete-le k [] = omega arith
  length-delete-le k ((i, w) ∷ m) = ground (arith, length-delete-le k m)

  -- The deletion of a key that is there makes the table smaller.
  pub length-delete :
      (k : ℕ) (m : List (ℕ × V)) (v : V) → lookup k m ≡ some v → length (delete k m) < length m
  unfolding lookup delete
  length-delete k [] v e = cc
  length-delete k ((i, w) ∷ m) v e = ground (arith, length-delete k m v, length-delete-le k m)

-- A predicate on every entry of a table.
module _ {ℓ κ} {V : Type ℓ} (P : ℕ → V → Type κ) where
  abbrev pub AllEntries : List (ℕ × V) → Type κ
  AllEntries [] = Unit {κ}
  AllEntries ((k, v) ∷ m) = P k v × AllEntries m

  pub AllEntries-lookup :
      (k : ℕ) (v : V) (m : List (ℕ × V)) → AllEntries m → lookup k m ≡ some v → P k v
  unfolding lookup
  AllEntries-lookup k v [] h e = absurd (ground (arith, e))
  AllEntries-lookup k v ((j, w) ∷ m) h e = elim (Bool-cases (j == k)) [
    | inl same ↦ subst₂ P ((==_iff j k).0 same) (ground arith) h.0
    | inr other ↦ AllEntries-lookup k v m h.1 (ground arith)
  ]

  pub AllEntries-insert :
      (k : ℕ) (v : V) (m : List (ℕ × V)) → P k v → AllEntries m → AllEntries (insert k v m)
  unfolding insert
  AllEntries-insert k v [] p h = (p, tt)
  AllEntries-insert k v ((j, w) ∷ m) p h = elim (Bool-cases (j == k)) [
    | inl same ↦ rw same (p, h.1)
    | inr other ↦ rw other (h.0, AllEntries-insert k v m p h.1)
  ]

  pub AllEntries-delete : (k : ℕ) (m : List (ℕ × V)) → AllEntries m → AllEntries (delete k m)
  unfolding delete
  AllEntries-delete k [] h = tt
  AllEntries-delete k ((j, w) ∷ m) h = elim (Bool-cases (j == k)) [
    | inl same ↦ rw same (AllEntries-delete k m h.1)
    | inr other ↦ rw other (h.0, AllEntries-delete k m h.1)
  ]

module _ {ℓ} {V : Type ℓ} where
  lookup_weaken :
      (k : ℕ) (v : V) (m part : List (ℕ × V))
      → lookup k part ≡ none
      → AllEntries (λ j w. lookup j m ≡ some w) part
      → AllEntries (λ j w. lookup j ((k, v) ∷ m) ≡ some w) part
  unfolding lookup
  lookup_weaken k v m [] free h = tt
  lookup_weaken k v m ((j, w) ∷ part) free h =
      (ground (arith, free, h.0), lookup_weaken k v m part (ground (arith, free)) h.1)

  -- In a table with distinct keys every entry is the one that its key finds.
  pub Distinct-lookup : (m : List (ℕ × V)) → Distinct m → AllEntries (λ k v. lookup k m ≡ some v) m
  unfolding lookup
  Distinct-lookup [] d = tt
  Distinct-lookup ((k, v) ∷ m) d = (ground arith, lookup_weaken k v m m d.0 (Distinct-lookup m d.1))
