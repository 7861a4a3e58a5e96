-- ===== src/Server/Taken.antt =====
-- internal/overlay/client.go and server.go: what the first frame of a subflow does to the session that gets it.
use cwnd_warm_up_proxy.Prelude.{
  ℕ, zero, suc, ◌+◌, ◌≤◌, ◌≡◌, refl, ap₂, subst, ◌∙◌, List, [], ◌∷◌, ◌++◌, Bool, true, false, arith,
}
use cwnd_warm_up_proxy.Protocol.{Frame}
use cwnd_warm_up_proxy.Scheduler.{Entry, attach}
use cwnd_warm_up_proxy.Session.{Session, is_client, has_id, add_id, register_subflow}
use cwnd_warm_up_proxy.Session.Send.{Environment, send_on}
use cwnd_warm_up_proxy.Session.Control.{accept_session, handle_control, handle_control_frame}
use cwnd_warm_up_proxy.Session.Dispatch.{dispatch_frame}
use cwnd_warm_up_proxy.Session.Open.{hello_frame}
use cwnd_warm_up_proxy.Session.Open.Establish.{scheduled, has_id-append, map-append_one, if_false}
use cwnd_warm_up_proxy.Subflow.Transfer.{flagged}

-- As many IDs from a number on, in order.
abbrev pub ids_from : ℕ → ℕ → List ℕ
ids_from k zero = []
ids_from k (suc n) = ids_from k n ++ ((k + n) ∷ [])

has_id-ids_from : (k n id : ℕ) → k + n ≤ id → has_id id (ids_from k n) ≡ false
has_id-ids_from k zero id l = refl
has_id-ids_from k (suc n) id l =
    ground
      (arith, has_id-append id (k + n) (ids_from k n), has_id-ids_from k n id (omega (arith, l)))

add_id_next :
    (k n id : ℕ) (ids : List ℕ)
    → id ≡ k + n
    → ids ≡ ids_from k n
    → add_id id ids ≡ ids_from k (suc n)
add_id_next k n id ids q e = rw (e, q, has_id-ids_from k n (k + n) (omega arith)) refl

-- A hello as it comes off the wire, with a checksum where the server asks for it.
abbrev pub hello : Bool → Session → Bool → Frame
hello plaintext c opens = flagged plaintext (hello_frame c opens)

pub session_id-hello :
    (plaintext : Bool) (c : Session) (opens : Bool) → (hello plaintext c opens).session_id ≡ c.id
session_id-hello true c opens = refl
session_id-hello false c opens = refl

-- A server session that has taken so many subflows of the client's session `c`, from ID `k` on.
pub record HasTaken (k n : ℕ) (c s : Session) : Type 0 where
  pub running : s.closed ≡ false
  pub role : is_client s.role ≡ false
  pub id : s.id ≡ c.id
  pub subflows : s.subflows ≡ ids_from k n
  pub order : scheduled s ≡ ids_from k n

pub registered-HasTaken :
    (k n : ℕ) (c s : Session) (sf : ℕ)
    → sf ≡ k + n
    → HasTaken k n c s
    → HasTaken k (suc n) c (register_subflow s sf)
unfolding register_subflow attach
registered-HasTaken k n c s sf q h =
    subst (HasTaken k (suc n) c) (if_false s _ s.closed h.running) (record {
      running = h.running;
      role = h.role;
      id = h.id;
      subflows = add_id_next k n sf s.subflows q h.subflows;
      order =
          map-append_one (λ (e : Entry). e.ref) s.scheduler.entries
            (record { ref = sf; weight = 1; quota = 1 })
          ∙ ap₂ (λ ids last. ids ++ (last ∷ [])) h.order q;
    })

pub accepted-HasTaken :
    (env : Environment) (k sf : ℕ) (c s : Session) (plaintext : Bool)
    → sf ≡ k + 0
    → s.closed ≡ false
    → is_client s.role ≡ false
    → s.subflows ≡ []
    → scheduled s ≡ []
    → HasTaken k 1 c (accept_session env sf (hello plaintext c true) s)
unfolding accept_session send_on
accepted-HasTaken env k sf c s plaintext q running role subflows order =
    let named = record s { id = (hello plaintext c true).session_id } in
    let h = registered-HasTaken k 0 c named sf q (record {
      running = running;
      role = role;
      id = session_id-hello plaintext c true;
      subflows = subflows;
      order = order;
    }) in
    record { running = h.running; role = h.role; id = h.id; subflows = h.subflows; order = h.order }

module _ (env : Environment) (rounds : ℕ) where
  pub dispatch-hello_join :
      (s c : Session) (plaintext : Bool) (sf : ℕ)
      → is_client s.role ≡ false
      → dispatch_frame env rounds sf (hello plaintext c false) s ≡ register_subflow s sf
  unfolding dispatch_frame handle_control_frame handle_control
  dispatch-hello_join s c true sf e = rw e refl
  dispatch-hello_join s c false sf e = rw e refl

  pub dispatch-hello_init :
      (s c : Session) (plaintext : Bool) (sf : ℕ)
      → is_client s.role ≡ false
      → dispatch_frame env rounds sf (hello plaintext c true) s
        ≡ accept_session env sf (hello plaintext c true) s
  unfolding dispatch_frame handle_control_frame handle_control
  dispatch-hello_init s c true sf e = rw e refl
  dispatch-hello_init s c false sf e = rw e refl
