-- ===== src/Server/Examples.antt =====
-- A server in plaintext that has taken one connection before, and a client with two subflows.
use cwnd_warm_up_proxy.Prelude.{ℕ, ◌≡◌, ◌⊎◌, refl, [], true, none, some, map}
use cwnd_warm_up_proxy.Prelude.Int.{pos}
use cwnd_warm_up_proxy.Prelude.Results.{ok}
use cwnd_warm_up_proxy.Prelude.Table.{lookup}
use cwnd_warm_up_proxy.Session.{Session, client, new_session}
use cwnd_warm_up_proxy.Session.Send.{Environment}
use cwnd_warm_up_proxy.Session.Open.Establish.{hellos, scheduled}
use cwnd_warm_up_proxy.Subflow.Transfer.{flagged}
use cwnd_warm_up_proxy.Server.{Server, new_server, closes, handed, handle_conn}
use cwnd_warm_up_proxy.Server.Alone.{Admitted, handle_conn_alone}
use cwnd_warm_up_proxy.Server.Taken.{hello, ids_from}
use cwnd_warm_up_proxy.Server.Handshake.{handle_conns, handle_conns-hellos}

abbrev quiet : Environment
quiet = record {
  goodput = λ _. pos 0;
  transmit = λ _ _. none;
  dial = λ _. none;
  now = 0;
  taken = 0;
}

abbrev listening : Server
listening = record (new_server true 0) { subflow_ids = 1 }

abbrev caller : Session
caller = new_session client 0 1000 true 2 77

handle_conn_alone_example :
    let (w, fate) = handle_conn quiet 9 5 listening (ok (hello true caller true, [])) in
    ((fate ≡ closes) × (w ≡ listening))
    ⊎ ((id : ℕ) × (fate ≡ handed id 1)
        × Admitted quiet 9 5 listening w (ok (hello true caller true, [])) id)
handle_conn_alone_example = handle_conn_alone quiet 9 5 listening (ok (hello true caller true, []))

unknown : lookup caller.id listening.sessions ≡ none
unfolding lookup new_server
unknown = refl

handle_conns-hellos_example :
    let w = handle_conns quiet 9 5 listening (map (λ x. flagged true x.1) (hellos caller 2)) in
    (s : Session) × (lookup caller.id w.sessions ≡ some s)
    × (s.id ≡ caller.id)
    × (s.subflows ≡ ids_from 1 2)
    × (scheduled s ≡ ids_from 1 2)
unfolding new_server
handle_conns-hellos_example = handle_conns-hellos quiet 9 5 listening caller 1 unknown
