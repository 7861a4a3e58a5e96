-- ===== src/Server/Handshake.antt =====
-- internal/overlay/client.go and server.go: the first frames of a client's subflows, at the server.
use cwnd_warm_up_proxy.Prelude.{
  ℕ, zero, suc, ◌+◌, ◌≡◌, refl, sym, ap, subst, ◌∙◌, List, [], ◌∷◌, ◌++◌, Bool, true, false, none,
  some, map, ◌==◌, arith,
}
use cwnd_warm_up_proxy.Prelude.Results.{ok}
use cwnd_warm_up_proxy.Prelude.Table.{lookup, lookup-insert}
use cwnd_warm_up_proxy.Protocol.{Frame}
use cwnd_warm_up_proxy.Scheduler.{new}
use cwnd_warm_up_proxy.Session.{Session, server, new_session}
use cwnd_warm_up_proxy.Session.Send.{Environment}
use cwnd_warm_up_proxy.Session.Open.{hello_frame}
use cwnd_warm_up_proxy.Session.Open.Establish.{hellos, scheduled, map-append_one, if_false}
use cwnd_warm_up_proxy.Subflow.Transfer.{flagged}
use cwnd_warm_up_proxy.Server.{Server, handle_frame, find_session, admit, handle_conn}
use cwnd_warm_up_proxy.Server.Taken.{
  ids_from, hello, session_id-hello, HasTaken, registered-HasTaken, accepted-HasTaken,
  dispatch-hello_join, dispatch-hello_init,
}

module _ (env : Environment) (rounds random : ℕ) where
  -- Connections one after another, each with its first frame.
  unfoldable pub handle_conns : Server → List Frame → Server
  handle_conns v [] = v
  handle_conns v (frame ∷ frames) =
      handle_conns (handle_conn env rounds random v (ok (frame, []))).0 frames

  handle_conns-append :
      (v : Server) (frames : List Frame) (frame : Frame)
      → handle_conns v (frames ++ (frame ∷ []))
        ≡ (handle_conn env rounds random (handle_conns v frames) (ok (frame, []))).0
  unfolding handle_conns
  handle_conns-append v [] frame = refl
  handle_conns-append v (x ∷ frames) frame =
      handle_conns-append (handle_conn env rounds random v (ok (x, []))).0 frames frame

  handle_conn-hello :
      (v : Server) (c : Session) (opens plaintext : Bool)
      → v.plaintext ≡ plaintext
      → handle_conn env rounds random v (ok (hello plaintext c opens, []))
        ≡ admit env rounds random v
            (hello plaintext c opens)
            (find_session random v (hello plaintext c opens))
  unfolding handle_conn
  handle_conn-hello v c opens true e = rw e refl
  handle_conn-hello v c opens false e = rw e refl

  -- The server has that session, and the number of its subflows.
  record IsServing (k n : ℕ) (c : Session) (plaintext : Bool) (w : Server) : Type 0 where
    session : Session
    found : lookup c.id w.sessions ≡ some session
    taken : HasTaken k n c session
    ids : w.subflow_ids ≡ k + n
    mode : w.plaintext ≡ plaintext

  admitted-IsServing :
      (k n : ℕ) (c s : Session) (plaintext : Bool) (w : Server) (frame : Frame)
      → frame.session_id ≡ c.id
      → w.plaintext ≡ plaintext
      → w.subflow_ids ≡ k + n
      → HasTaken k (suc n) c (handle_frame env rounds w.subflow_ids frame s)
      → IsServing k (suc n) c plaintext (admit env rounds random w frame (some s)).0
  unfolding admit
  admitted-IsServing k n c s plaintext w frame names p ids h = record {
    session = handle_frame env rounds w.subflow_ids frame s;
    found = ground (
      arith,
      names,
      lookup-insert frame.session_id c.id (handle_frame env rounds w.subflow_ids frame s)
          w.sessions,
    );
    taken = h;
    ids = omega (arith, ids);
    mode = p;
  }

  find_session-hello_init :
      (w : Server) (c : Session) (plaintext : Bool)
      → lookup c.id w.sessions ≡ none
      → find_session random w (hello plaintext c true)
        ≡ some (new_session server c.id w.initial_window false 0 random)
  unfolding find_session
  find_session-hello_init w c true e = rw (e, find_session) refl
  find_session-hello_init w c false e = rw (e, find_session) refl

  find_session-hello :
      (w : Server) (c s : Session) (opens plaintext : Bool)
      → lookup c.id w.sessions ≡ some s
      → find_session random w (hello plaintext c opens) ≡ some s
  unfolding find_session
  find_session-hello w c s opens true e = rw (e, find_session) refl
  find_session-hello w c s opens false e = rw (e, find_session) refl

  first-IsServing :
      (w : Server) (c : Session) (plaintext : Bool)
      → w.plaintext ≡ plaintext
      → lookup c.id w.sessions ≡ none
      → IsServing w.subflow_ids 1 c plaintext
          (handle_conn env rounds random w (ok (hello plaintext c true, []))).0
  unfolding new_session new
  first-IsServing w c plaintext p absent =
      let frame = hello plaintext c true in
      let s = new_session server c.id w.initial_window false 0 random in
      rw (handle_conn-hello w c true plaintext p, find_session-hello_init w c plaintext absent)
        (admitted-IsServing w.subflow_ids 0 c s plaintext w frame
          (session_id-hello plaintext c true) p (omega arith)
          (rw (dispatch-hello_init env rounds s c plaintext w.subflow_ids refl) (
            accepted-HasTaken env w.subflow_ids w.subflow_ids c s plaintext (omega arith) refl refl
              refl refl)))

  next-IsServing :
      (k n : ℕ) (w : Server) (c : Session) (plaintext : Bool)
      → IsServing k n c plaintext w
      → IsServing k
          (suc n)
          c
          plaintext
          (handle_conn env rounds random w (ok (hello plaintext c false, []))).0
  next-IsServing k n w c plaintext h =
      let frame = hello plaintext c false in
      let s = h.session in
      let joined =
        subst (HasTaken k (suc n) c)
          (sym (dispatch-hello_join env rounds s c plaintext w.subflow_ids h.taken.role))
          (registered-HasTaken k n c s w.subflow_ids h.ids h.taken) in
      rw
        (
          handle_conn-hello w c false plaintext h.mode,
          find_session-hello w c s false plaintext h.found,
        )
        (admitted-IsServing k n c s plaintext w frame (session_id-hello plaintext c false) h.mode
          h.ids (subst (HasTaken k (suc n) c) (if_false s _ s.closed h.taken.running) joined))

  served-IsServing :
      (v : Server) (c : Session) (plaintext : Bool)
      → v.plaintext ≡ plaintext
      → lookup c.id v.sessions ≡ none
      → (n : ℕ)
      → IsServing v.subflow_ids
          (suc n)
          c
          plaintext
          (handle_conns v (map (λ x. flagged plaintext x.1) (hellos c (suc n))))
  unfolding handle_conns
  served-IsServing v c plaintext p absent zero = first-IsServing v c plaintext p absent
  served-IsServing v c plaintext p absent (suc n) =
      let mark = λ (x : ℕ × Frame). flagged plaintext x.1 in
      let before = map mark (hellos c (suc n)) in
      let last = hello plaintext c false in
      let later : (suc n == 0) ≡ false = ground arith in
      let frames : map mark (hellos c (suc (suc n))) ≡ before ++ (last ∷ []) =
        map-append_one mark (hellos c (suc n)) (suc n, hello_frame c (suc n == 0))
        ∙ ap (λ (opens : Bool). before ++ (hello plaintext c opens ∷ [])) later in
      subst (IsServing v.subflow_ids (suc (suc n)) c plaintext)
        (sym (ap (handle_conns v) frames ∙ handle_conns-append v before last))
        (next-IsServing v.subflow_ids (suc n) (handle_conns v before) c plaintext
          (served-IsServing v c plaintext p absent n))

-- The first frames that a client sends on its subflows, taken by the server in their order, make one
-- session under the client's ID, where there was none: it has a subflow for each of them, with the next
-- IDs of the server, and its scheduler has the same ones in the same order. The frames have checksums
-- if the server is in plaintext.
pub handle_conns-hellos :
    (env : Environment) (rounds random : ℕ) (v : Server) (c : Session) (n : ℕ)
    → lookup c.id v.sessions ≡ none
    → let w =
        handle_conns env rounds random v (map (λ x. flagged v.plaintext x.1) (hellos c (suc n))) in
      (s : Session) × (lookup c.id w.sessions ≡ some s)
      × (s.id ≡ c.id)
      × (s.subflows ≡ ids_from v.subflow_ids (suc n))
      × (scheduled s ≡ ids_from v.subflow_ids (suc n))
handle_conns-hellos env rounds random v c n absent =
    let h = served-IsServing env rounds random v c v.plaintext refl absent n in
    (h.session, h.found, h.taken.id, h.taken.subflows, h.taken.order)
