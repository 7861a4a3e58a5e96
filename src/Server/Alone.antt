-- ===== src/Server/Alone.antt =====
-- A connection touches at most the session that its first frame names.
use cwnd_warm_up_proxy.Prelude.{
  ℕ, ◌+◌, ◌≡◌, ◌≢◌, ◌⊎◌, refl, sym, ap, ◌∙◌, Bool-cases, Option-cases, inl, inr, List, Bool, Option,
  none, true, false, not, ◌||◌, ◌==◌, some, arith, if◌then◌else◌,
}
use cwnd_warm_up_proxy.Prelude.Results.{Result, ok, err}
use cwnd_warm_up_proxy.Prelude.Table.{lookup, lookup-insert}
use cwnd_warm_up_proxy.Protocol.{
  Frame, Error, ControlPayload, control_session_init, control_session_join, frame_control,
  frame_data, frame_ack,
}
use cwnd_warm_up_proxy.Session.{
  Session, server, is_client, has_id, add_id, register_subflow, new_session,
}
use cwnd_warm_up_proxy.Session.Send.{Environment, send_on}
use cwnd_warm_up_proxy.Session.Control.{accept_session, handle_control, handle_control_frame}
use cwnd_warm_up_proxy.Session.Dispatch.{dispatch_frame}
use cwnd_warm_up_proxy.Session.Open.Establish.{has_id-append}
use cwnd_warm_up_proxy.Server.{
  opens_session, Server, closes, handed, is_control, lacks_checksum, handle_frame, find_session,
  admit, handle_conn,
}

-- The frame opens a session or joins it, so that the session takes the subflow.
abbrev pub brings_subflow : Option ControlPayload → Bool
brings_subflow none = false
brings_subflow (some control) =
    (control.control_type == control_session_init) || (control.control_type == control_session_join)

-- An open session of a server.
pub record Accepts (s : Session) : Type 0 where
  pub running : s.closed ≡ false
  pub server : is_client s.role ≡ false

has_id-add_id : (id : ℕ) (ids : List ℕ) → has_id id (add_id id ids) ≡ true
has_id-add_id id ids = elim (Bool-cases (has_id id ids)) [
  | inl there ↦ rw (there, if◌then◌else◌) there
  | inr new ↦ rw (new, if◌then◌else◌) (ground (arith, has_id-append id id ids))
]

registers :
    (s : Session) (id : ℕ) → s.closed ≡ false → has_id id (register_subflow s id).subflows ≡ true
unfolding register_subflow
registers s id running = rw (running, if◌then◌else◌) (has_id-add_id id s.subflows)

module _ (env : Environment) (rounds sf : ℕ) (frame : Frame) (s : Session) where
  control_taken :
      (control : ControlPayload)
      → Accepts s
      → brings_subflow (some control) ≡ true
      → has_id sf (handle_control env sf frame control s).subflows ≡ true
  unfolding handle_control accept_session send_on
  control_taken control a brings =
      elim (Bool-cases (control.control_type == control_session_init)) [
        | inl init ↦
            rw (init, a.server, if◌then◌else◌)
              (registers (record s { id = frame.session_id }) sf a.running)
        | inr not_init ↦
            let join : (control.control_type == control_session_join) ≡ true =
              ground (arith, brings, not_init) in
            rw (not_init, join, a.server, if◌then◌else◌) (registers s sf a.running)
      ]

  -- The session that gets the frame has the subflow among its own afterwards.
  frame_taken :
      is_control frame ≡ true
      → Accepts s
      → brings_subflow frame.control ≡ true
      → has_id sf (handle_frame env rounds sf frame s).subflows ≡ true
  unfolding dispatch_frame handle_control_frame
  frame_taken control a brings = elim (Option-cases frame.control) [
    | inl e ↦ absurd (ground (arith, e, brings))
    | inr (c, e) ↦
        let no_data : (frame.frame_type == frame_data) ≡ false = ground (arith, control) in
        let no_ack : (frame.frame_type == frame_ack) ≡ false = ground (arith, control) in
        let controls : (frame.frame_type == frame_control) ≡ true = ground (arith, control) in
        let kind : brings_subflow (some c) ≡ true = sym (ap brings_subflow e) ∙ brings in
        rw (a.running, no_data, no_ack, controls, e, handle_control_frame) (control_taken c a kind)
  ]

-- The frame of the connection has been handed to session `id`.
pub record Admitted (env : Environment) (rounds random : ℕ) (v w : Server)
    (r : Result Error (Frame × List ℕ)) (id : ℕ) : Type 0 where
  pub frame : Frame
  pub rest : List ℕ
  pub read : r ≡ ok (frame, rest)
  pub named : frame.session_id ≡ id
  pub control : is_control frame ≡ true
  pub checksum : lacks_checksum v frame ≡ false
  pub before : Session
  pub known :
      (lookup id v.sessions ≡ some before)
      ⊎ ((lookup id v.sessions ≡ none)
          × (opens_session frame.control ≡ true)
          × (before ≡ new_session server id v.initial_window false 0 random))
  pub found : lookup id w.sessions ≡ some (handle_frame env rounds v.subflow_ids frame before)
  pub taken :
      Accepts before
      → brings_subflow frame.control ≡ true
      → has_id v.subflow_ids (handle_frame env rounds v.subflow_ids frame before).subflows ≡ true
  pub others : (k : ℕ) → k ≢ id → lookup k w.sessions ≡ lookup k v.sessions
  pub counted : w.subflow_ids ≡ v.subflow_ids + 1

module _ (env : Environment) (rounds random : ℕ) (v : Server) where
  find_session_known :
      (frame : Frame) (s : Session)
      → find_session random v frame ≡ some s
      → (lookup frame.session_id v.sessions ≡ some s)
        ⊎ ((lookup frame.session_id v.sessions ≡ none)
            × (opens_session frame.control ≡ true)
            × (s ≡ new_session server frame.session_id v.initial_window false 0 random))
  unfolding find_session
  find_session_known frame s e =
      let fresh = new_session server frame.session_id v.initial_window false 0 random in
      elim (Option-cases (lookup frame.session_id v.sessions)) [
        | inl q ↦ elim (Bool-cases (opens_session frame.control)) [
          | inl opens ↦
              let made : find_session random v frame ≡ some fresh =
                rw (q, find_session, opens) refl in
              inr (
                q,
                opens,
                ap (λ (o : Option Session). elim o [ none ↦ s | some x ↦ x ]) (sym e ∙ made),
              )
          | inr not_opens ↦ absurd (ground (arith, q, not_opens, e))
        ]
        | inr (t, q) ↦
            let had : find_session random v frame ≡ some t = rw (q, find_session) refl in
            inl (q ∙ sym had ∙ e)
      ]

  -- Whatever a new connection sends first, it either is closed and the server stays as it was, or its frame is
  -- handed, with the next ID for its subflow, to a session that the server had or that the frame opens: then
  -- the frame is a control frame, with a checksum if the server is in plaintext, the session is
  -- left as its dispatch leaves it, and no other session is touched. An open session of a server has the
  -- subflow among its own then, if the frame opens the session or joins it.
  pub handle_conn_alone :
      (r : Result Error (Frame × List ℕ))
      → let (w, fate) = handle_conn env rounds random v r in
        ((fate ≡ closes) × (w ≡ v))
        ⊎ ((id : ℕ) × (fate ≡ handed id v.subflow_ids) × Admitted env rounds random v w r id)
  unfolding handle_conn admit
  handle_conn_alone (err e) = inl (refl, refl)
  handle_conn_alone (ok (frame, rest)) =
      elim (Bool-cases (not (is_control frame) || lacks_checksum v frame)) [
        | inl refused ↦ rw refused (inl (refl, refl))
        | inr fine ↦ elim (Option-cases (find_session random v frame)) [
          | inl none_found ↦ rw (fine, none_found) (inl (refl, refl))
          | inr (s, e) ↦
              rw (fine, e)
                (inr (
                  frame.session_id,
                  refl,
                  record {
                    frame = frame;
                    rest = rest;
                    read = refl;
                    named = refl;
                    control = ground (arith, fine);
                    checksum = ground (arith, fine);
                    before = s;
                    known = find_session_known frame s e;
                    taken = frame_taken env rounds v.subflow_ids frame s (ground (arith, fine));
                    found = ground (
                      arith,
                      lookup-insert frame.session_id frame.session_id
                          (handle_frame env rounds v.subflow_ids frame s) v.sessions,
                    );
                    others = λ k h. ground (
                      arith,
                      lookup-insert frame.session_id k
                          (handle_frame env rounds v.subflow_ids frame s) v.sessions,
                      λ (q : frame.session_id ≡ k). h (sym q),
                    );
                    counted = refl;
                  },
                ))
        ]
      ]
