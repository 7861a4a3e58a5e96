-- ===== src/Session/Spawn.antt =====
-- The number of subflows while connections break and are dialled again.
use cwnd_warm_up_proxy.Prelude.{
  ℕ, ◌+◌, ◌≤◌, ◌≡◌, refl, ap, inl, inr, List, [], ◌∷◌, ◌++◌, Bool, true, false, Option, none, some,
  length, leb, if◌then◌else◌, arith, Bool-cases, length-append,
}
use cwnd_warm_up_proxy.Session.{
  Session, may_spawn, add_id, delete_id, prepare_subflow_spawn, register_subflow,
  subflow_spawn_failed, remove_subflow, on_subflow_error, close_session,
}

-- The session together with the IDs that goroutines are dialling, in dialSubflow.
pub record Dialling : Type 0 where
  pub session : Session
  pub ids : List ℕ

abbrev pub started : List ℕ → Option (ℕ × Bool) → List ℕ
started ids none = ids
started ids (some (id, opens)) = id ∷ ids

abbrev pub dials : List ℕ → Session × Option (ℕ × Bool) → Dialling
dials ids (s, spawned) = record { session = s; ids = started ids spawned }

-- A subflow breaks, a timer lets the session try again, a dial comes to its end, or the session closes.
pub data Step (d : Dialling) : Dialling → Type 0 where
  breaks : (id : ℕ) → Step d (dials d.ids (on_subflow_error d.session id))
  retries : Step d (dials d.ids (prepare_subflow_spawn d.session))
  connects :
      (before : List ℕ) (id : ℕ) (after : List ℕ)
      → d.ids ≡ before ++ (id ∷ after)
      → Step d (record { session = register_subflow d.session id; ids = before ++ after })
  fails :
      (before : List ℕ) (id : ℕ) (after : List ℕ)
      → d.ids ≡ before ++ (id ∷ after)
      → Step d (record { session = subflow_spawn_failed d.session; ids = before ++ after })
  closes : Step d (record d { session = close_session d.session })

pub data Steps (d : Dialling) : Dialling → Type 0 where
  here : Steps d d
  next : {e f : Dialling} → Steps d e → Step e f → Steps d f

-- Every dial is counted, and with the subflows they do not exceed the target.
record Counted (target : ℕ) (d : Dialling) : Type 0 where
  pub target_kept : d.session.target ≡ target
  pub within : length d.session.subflows + d.session.pending_spawns ≤ target
  pub dialled : length d.ids ≤ d.session.pending_spawns

length-delete_id : (id : ℕ) (ids : List ℕ) → length (delete_id id ids) ≤ length ids
unfolding delete_id
length-delete_id id [] = omega arith
length-delete_id id (k ∷ ks) = ground (arith, length-delete_id id ks)

length-add_id : (id : ℕ) (ids : List ℕ) → length (add_id id ids) ≤ length ids + 1
length-add_id id ids = ground (arith, length-append ids (id ∷ []))

length-middle :
    (before : List ℕ) (id : ℕ) (after : List ℕ)
    → length (before ++ (id ∷ after)) ≡ length (before ++ after) + 1
length-middle [] id after = omega arith
length-middle (x ∷ before) id after = omega (arith, length-middle before id after)

prepare-Counted :
    (target : ℕ) (s : Session) (ids : List ℕ)
    → Counted target (record { session = s; ids = ids })
    → Counted target (dials ids (prepare_subflow_spawn s))
unfolding prepare_subflow_spawn
prepare-Counted target s ids c = elim (Bool-cases (may_spawn s)) [
  | inr not_may ↦ rw not_may c
  | inl may ↦ rw may (elim (Bool-cases (leb s.target (length s.subflows + s.pending_spawns))) [
    | inl full ↦ rw full c
    | inr room ↦ rw room (record {
      target_kept = c.target_kept;
      within = ground (arith, room, c);
      dialled = omega (arith, c.dialled);
    })
  ])
]

if-Counted :
    (target : ℕ) (ids : List ℕ) (b : Bool) (t u : Session × Option (ℕ × Bool))
    → Counted target (dials ids t)
    → Counted target (dials ids u)
    → Counted target (dials ids (if b then t else u))
if-Counted target ids true t u h k = h
if-Counted target ids false t u h k = k

Step-Counted : (target : ℕ) {d e : Dialling} → Counted target d → Step d e → Counted target e
unfolding on_subflow_error remove_subflow register_subflow subflow_spawn_failed close_session
Step-Counted target {d} c (breaks id) =
    let removed = remove_subflow d.session id in
    let k : Counted target (record { session = removed; ids = d.ids }) = record {
      target_kept = c.target_kept;
      within = omega (arith, c.within, length-delete_id id d.session.subflows);
      dialled = c.dialled;
    } in
    if-Counted target d.ids (may_spawn d.session) (prepare_subflow_spawn removed) (removed, none)
      (prepare-Counted target removed d.ids k) k
Step-Counted target {d} c retries = prepare-Counted target d.session d.ids c
Step-Counted target {d} c (connects before id after e) = elim (Bool-cases d.session.closed) [
  | inl shut ↦ rw shut (record {
    target_kept = c.target_kept;
    within = c.within;
    dialled = omega (arith, c.dialled, ap length e, length-middle before id after);
  })
  | inr running ↦ rw running (record {
    target_kept = c.target_kept;
    within = omega (
      arith,
      c.within,
      c.dialled,
      ap length e,
      length-middle before id after,
      length-add_id id d.session.subflows,
    );
    dialled = omega (arith, c.dialled, ap length e, length-middle before id after);
  })
]
Step-Counted target {d} c (fails before id after e) = record {
  target_kept = c.target_kept;
  within = omega (arith, c.within);
  dialled = omega (arith, c.dialled, ap length e, length-middle before id after);
}
Step-Counted target {d} c closes = elim (Bool-cases d.session.closed) [
  | inl shut ↦
      rw shut (record { target_kept = c.target_kept; within = c.within; dialled = c.dialled })
  | inr running ↦ rw running (record {
    target_kept = c.target_kept;
    within = omega (arith, c.within);
    dialled = c.dialled;
  })
]

Steps-Counted :
    {d e : Dialling} → Counted d.session.target d → Steps d e → Counted d.session.target e
Steps-Counted c here = c
Steps-Counted {d} c (next r st) = Step-Counted d.session.target (Steps-Counted c r) st

-- However subflows break, dials fail or succeed late, and timers fire, the subflows of a session and the
-- dials under way stay within the target, if the session started within it and with no dial under way.
pub Steps_within_target :
    (s : Session) {e : Dialling}
    → length s.subflows + s.pending_spawns ≤ s.target
    → Steps (record { session = s; ids = [] }) e
    → length e.session.subflows + length e.ids ≤ s.target
Steps_within_target s fits r =
    let c = Steps-Counted (record { target_kept = refl; within = fits; dialled = omega arith }) r in
    omega (arith, c.within, c.dialled)
