-- ===== src/Scheduler.antt =====
-- internal/overlay/scheduler.go: weighted round-robin over the subflows. A subflow is its ID; what
-- the scheduler asks of it, the sum of its goodput window, is the argument `goodput`.
pub mod Weight
pub mod Valid
pub mod Pick
pub mod Run
pub mod Round
mod Examples
use cwnd_warm_up_proxy.Prelude.{
  ℕ, zero, suc, ◌+◌, ◌-◌, ◌*◌, ◌/◌, ◌%◌, List, [], ◌∷◌, ◌++◌, Option, none, some, Bool, true, false,
  length, get_elem?, set, ltb, leb, ◌==◌, if◌then◌else◌, map,
}
use cwnd_warm_up_proxy.Prelude.Int.{ℤ, pos, negsuc}

-- scheduleEntry
pub record Entry : Type 0 where
  pub ref : ℕ
  pub weight : ℕ
  pub quota : ℕ

pub record Scheduler : Type 0 where
  pub entries : List Entry
  pub position : ℕ

unfoldable pub new : Scheduler
new = record { entries = []; position = 0 }

abbrev pub min_weight : ℕ
min_weight = 1

abbrev pub max_weight : ℕ
max_weight = 8

-- 64 << 10
abbrev weight_quantum : ℕ
weight_quantum = 65536

-- 10 * time.Second, in seconds.
abbrev goodput_window : ℕ
goodput_window = 10

-- `int(rate / weightQuantum) + 1` of a rate in floating point is the whole quotient: a rate is a
-- tenth of an integer, and the quotient matters only below eight quanta.
pub weight_from_throughput : ℤ → ℕ
weight_from_throughput (negsuc n) = min_weight
weight_from_throughput (pos bytes) =
    if bytes == 0
    then min_weight
    else let weight = bytes / (goodput_window * weight_quantum) + 1 in
      if ltb weight min_weight
      then min_weight
      else if ltb max_weight weight
      then max_weight
      else weight

unfoldable pub attach : Scheduler → ℕ → Scheduler
attach s subflow = record s {
  entries = s.entries ++ (record { ref = subflow; weight = 1; quota = 1 } ∷ []);
}

without : ℕ → List Entry → List Entry
without id [] = []
without id (e ∷ es) = if e.ref == id then without id es else e ∷ without id es

pub detach : Scheduler → ℕ → Scheduler
detach s id =
    let entries = without id s.entries in
    record s {
      entries = entries;
      position = if leb (length entries) s.position then 0 else s.position;
    }

module _ (goodput : ℕ → ℤ) where
  pub refresh_entry : Entry → Entry
  refresh_entry e =
      let weight = weight_from_throughput (goodput e.ref) in
      if weight == e.weight
      then (if e.quota == 0 then record e { quota = e.weight } else e)
      else record e { weight = weight; quota = weight }

  pub refresh_weights : Scheduler → Scheduler
  refresh_weights s = record s { entries = map refresh_entry s.entries }

-- `Next` returns a subflow or nil; an index out of range would panic.
pub data Choice : Type 0 where
  nil : Choice
  subflow : ℕ → Choice
  panics : Choice

-- `(position + 1) % len(entries)`
abbrev advance : Scheduler → ℕ
advance s = (s.position + 1) % length s.entries

abbrev set_quota : Scheduler → Entry → ℕ → Scheduler
set_quota s e quota = record s { entries = set s.entries s.position (record e { quota = quota }) }

-- An entry whose quota is not 0 is used.
pub use_entry : Scheduler → Entry → Scheduler × Choice
use_entry s e =
    let t = set_quota s e (e.quota - 1) in
    (if e.quota - 1 == 0 then record t { position = advance t } else t, subflow e.ref)

-- An entry whose quota is 0 gets a new one and is passed over.
pub skip_entry : Scheduler → Entry → Scheduler
skip_entry s e = let t = set_quota s e e.weight in record t { position = advance t }

-- `return s.entries[0].ref`
first_entry : Scheduler → Option Entry → Scheduler × Choice
first_entry s none = (s, panics)
first_entry s (some e) = (s, subflow e.ref)

pub choose : ℕ → Scheduler → Scheduler × Choice
choose zero s = first_entry s (get_elem? s.entries 0)
choose (suc n) s = elim (get_elem? s.entries s.position) [
  | none ↦ (s, panics)
  | some e ↦ elim (e.quota == 0) [ true ↦ choose n (skip_entry s e) | false ↦ use_entry s e ]
]

unfoldable pub next : (ℕ → ℤ) → Scheduler → Scheduler × Choice
next goodput s =
    if length s.entries == 0
    then (s, nil)
    else choose (length s.entries) (refresh_weights goodput s)
