-- ===== src/Session/Open/Establish.antt =====
-- internal/overlay/client.go: the subflows of a new client, up to the first that fails.
use cwnd_warm_up_proxy.Prelude.{
  ℕ, zero, suc, ◌+◌, ◌<◌, ◌≤◌, ◌≡◌, ◌≢◌, refl, sym, ap, ap₂, subst, ◌∙◌, ◌⊎◌, inl, inr, List, [],
  ◌∷◌, ◌++◌, Bool, true, false, ◌||◌, Option, none, some, map, append-nil, Bool-cases, ==_iff, ◌==◌,
  if◌then◌else◌, arith,
}
use cwnd_warm_up_proxy.Protocol.{Frame}
use cwnd_warm_up_proxy.Scheduler.{Entry, new, attach}
use cwnd_warm_up_proxy.Stream.{Error}
use cwnd_warm_up_proxy.Session.{Session, client, new_session, register_subflow, has_id, add_id}
use cwnd_warm_up_proxy.Session.Send.{send_on}
use cwnd_warm_up_proxy.Session.Open.{
  Attempt, connected, not_dialled, not_sent, hello_frame, establish_one, unless_failed, establish,
}

-- The IDs below a number, in order.
abbrev pub up_to : ℕ → List ℕ
up_to zero = []
up_to (suc n) = up_to n ++ (n ∷ [])

pub has_id-append :
    (id k : ℕ) (ids : List ℕ) → has_id id (ids ++ (k ∷ [])) ≡ (has_id id ids || (k == id))
has_id-append id k [] = ground arith
has_id-append id k (j ∷ ids) = ground (arith, has_id-append id k ids)

has_id-up_to : (n id : ℕ) → n ≤ id → has_id id (up_to n) ≡ false
has_id-up_to zero id l = refl
has_id-up_to (suc n) id l =
    ground (arith, has_id-append id n (up_to n), has_id-up_to n id (omega arith))

pub map-append_one {ℓ κ} :
    {A : Type ℓ} {B : Type κ} (f : A → B) (xs : List A) (x : A)
    → map f (xs ++ (x ∷ [])) ≡ map f xs ++ (f x ∷ [])
map-append_one f [] x = refl
map-append_one f (y ∷ xs) x = ap (λ r. f y ∷ r) (map-append_one f xs x)

abbrev pub scheduled : Session → List ℕ
scheduled s = map (λ (e : Entry). e.ref) s.scheduler.entries

-- The first frames of as many subflows: the one on subflow 0 opens the session, the others join it.
abbrev pub hellos : Session → ℕ → List (ℕ × Frame)
hellos c zero = []
hellos c (suc n) = hellos c n ++ ((n, hello_frame c (n == 0)) ∷ [])

abbrev pub failure : Attempt → Option Error
failure connected = none
failure (not_dialled e) = some e
failure (not_sent e) = some e

-- An open session with as many subflows as given, and nothing else done since it began as `c`.
record IsUp (c : Session) (n : ℕ) (s : Session) : Type 0 where
  running : s.closed ≡ false
  id : s.id ≡ c.id
  window : s.initial_window ≡ c.initial_window
  subflows : s.subflows ≡ up_to n
  scheduled : scheduled s ≡ up_to n
  next : s.next_subflow_id ≡ n
  sent : s.sent ≡ hellos c n

hello_frame-IsUp :
    {c : Session} {n : ℕ} {s : Session}
    → IsUp c n s
    → (b : Bool) → hello_frame s b ≡ hello_frame c b
hello_frame-IsUp {c = c} up b =
    ap₂ (λ (id : ℕ) (window : ℕ). hello_frame (record c { id = id; initial_window = window }) b)
      up.id up.window

pub if_false {ℓ} : {A : Type ℓ} (x y : A) (b : Bool) → b ≡ false → y ≡ (if b then x else y)
if_false x y b h = rw (h, if◌then◌else◌) refl

add_id_new : (n : ℕ) (ids : List ℕ) → ids ≡ up_to n → add_id n ids ≡ up_to (suc n)
add_id_new n ids e = rw (e, has_id-up_to n n (omega arith)) refl

registered-IsUp :
    {c : Session} {n : ℕ} {s : Session}
    → IsUp c n s
    → (t : Session) → t ≡ register_subflow (send_on n (hello_frame s (n == 0)) s) n
    → IsUp c (suc n) t
unfolding register_subflow send_on attach
registered-IsUp {c = c} {n = n} {s = s} up t e =
    let u = send_on n (hello_frame s (n == 0)) s in
    subst (IsUp c (suc n)) (if_false u _ s.closed up.running ∙ sym e) (record {
      running = up.running;
      id = up.id;
      window = up.window;
      subflows = add_id_new n s.subflows up.subflows;
      scheduled =
          map-append_one (λ (e : Entry). e.ref) s.scheduler.entries
            (record { ref = n; weight = 1; quota = 1 })
          ∙ ap (λ ids. ids ++ (n ∷ [])) up.scheduled;
      next = ground (arith, up.next);
      sent =
          ap₂ (λ frames frame. frames ++ ((n, frame) ∷ [])) up.sent (hello_frame-IsUp up (n == 0));
    })

-- The session that a client is left with, and the error.
pub record ComesTo (c : Session) (m : ℕ) (e : Option Error) (r : Session × Option Error)
    : Type 0 where
  pub error : r.1 ≡ e
  pub subflows : r.0.subflows ≡ up_to m
  pub scheduled : scheduled r.0 ≡ up_to m
  pub next : r.0.next_subflow_id ≡ m
  pub sent : (rest : List (ℕ × Frame)) × (r.0.sent ≡ hellos c m ++ rest)

up-ComesTo : {c : Session} {m : ℕ} {s : Session} → IsUp c m s → ComesTo c m none (s, none)
up-ComesTo {c = c} {m = m} up = record {
  error = refl;
  subflows = up.subflows;
  scheduled = up.scheduled;
  next = up.next;
  sent = ([], up.sent ∙ sym (append-nil (hellos c m)));
}

fails-ComesTo :
    {c : Session} {m : ℕ} {s : Session}
    → IsUp c m s
    → (attempt : Attempt) (e : Option Error) → failure attempt ≡ e
    → e ≢ none
    → (k : Session → Session × Option Error)
    → ComesTo c m e (unless_failed (establish_one m attempt s) k)
unfolding establish_one send_on
fails-ComesTo {c = c} {m = m} {s = s} up connected e is fails k = absurd (fails (sym is))
fails-ComesTo {c = c} {m = m} {s = s} up (not_dialled x) e is fails k = record {
  error = is;
  subflows = up.subflows;
  scheduled = up.scheduled;
  next = up.next;
  sent = ([], up.sent ∙ sym (append-nil (hellos c m)));
}
fails-ComesTo {c = c} {m = m} {s = s} up (not_sent x) e is fails k = record {
  error = is;
  subflows = up.subflows;
  scheduled = up.scheduled;
  next = up.next;
  sent = (
    (m, hello_frame s (m == 0)) ∷ [],
    ap (λ frames. frames ++ ((m, hello_frame s (m == 0)) ∷ [])) up.sent,
  );
}

-- No other goroutine does anything to the session.
abbrev pub undisturbed : ℕ → Session → Session
undisturbed i s = s

module _ (total m : ℕ) (attempts : ℕ → Attempt) (e : Option Error)
    (first : (j : ℕ) → j < m → attempts j ≡ connected)
    (stop : ((m ≡ total) × (e ≡ none))
      ⊎ ((m < total) × (failure (attempts m) ≡ e) × (e ≢ none))) where
  establish_from :
      {c : Session} (n i : ℕ) (s : Session)
      → i ≤ m
      → i + n ≡ total
      → IsUp c i s
      → ComesTo c m e (establish i n attempts undisturbed s)
  unfolding establish
  establish_from {c = c} zero i s l sum up = elim stop [
    | inl (all, none_fails) ↦
        let last : i ≡ m = omega (arith, l, sum, all) in
        subst (λ x. ComesTo c m x (s, none)) (sym none_fails)
          (up-ComesTo (subst (λ k. IsUp c k s) last up))
    | inr (less, is, fails) ↦ absurd (omega (arith, l, sum, less))
  ]
  establish_from {c = c} (suc n) i s l sum up = elim (Bool-cases (i == m)) [
    | inl same ↦ elim stop [
      | inl (all, none_fails) ↦ absurd (ground (arith, sum, all, same))
      | inr (less, is, fails) ↦
          let here = (==_iff i m).0 same in
          let rest = establish (suc i) n attempts undisturbed in
          subst (λ j. ComesTo c m e (unless_failed (establish_one j (attempts j) s) rest))
            (sym here)
            (fails-ComesTo (subst (λ k. IsUp c k s) here up) (attempts m) e is fails rest)
    ]
    | inr before ↦ rw (first i (ground (arith, l, before))) (
        establish_from n (suc i) _ (ground (arith, l, before)) (omega (arith, sum))
          (registered-IsUp up _ refl))
  ]

-- A new client gets its subflows in the order of their IDs, up to the first one that fails or to the last, if
-- no subflow breaks and nothing else happens to its session meanwhile: those before it are the session's
-- subflows and the scheduler's, their first frames stand on them, which open the session on subflow 0 and
-- join it on the others, and the error is that of the one that fails. The next ID is the one after theirs.
pub establish_lem :
    (window target random total m : ℕ) (attempts : ℕ → Attempt) (e : Option Error)
    → ((j : ℕ) → j < m → attempts j ≡ connected)
    → ((m ≡ total) × (e ≡ none)) ⊎ ((m < total) × (failure (attempts m) ≡ e) × (e ≢ none))
    → let c = new_session client 0 window true target random in
      ComesTo c m e (establish 0 total attempts undisturbed c)
unfolding new_session new
establish_lem window target random total m attempts e first stop =
    let c = new_session client 0 window true target random in
    establish_from total m attempts e first stop total 0 c (omega arith) (omega arith) (record {
      running = refl;
      id = refl;
      window = refl;
      subflows = refl;
      scheduled = refl;
      next = refl;
      sent = refl;
    })
