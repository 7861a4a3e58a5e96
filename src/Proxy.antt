-- ===== src/Proxy.antt =====
-- cmd/client/main.go: a connection of a SOCKS client, from its handshake to the stream that carries it. What
-- net.JoinHostPort prints of an address is the argument `print`.
pub mod Target
mod Examples
use cwnd_warm_up_proxy.Prelude.{ℕ, List, Bool, Option, none, some}
use cwnd_warm_up_proxy.Prelude.Results.{Result, ok, err}
use cwnd_warm_up_proxy.Socks
use cwnd_warm_up_proxy.Socks.{Connection, Destination, handshake}
use cwnd_warm_up_proxy.Stream.{Stream, Error, Wait, waits, over, wait_for_accept, bind_client}
use cwnd_warm_up_proxy.Session.{Session}
use cwnd_warm_up_proxy.Session.Send.{Environment}
use cwnd_warm_up_proxy.Session.Open.{Request, requested, not_requested, request_stream}

-- What comes of the connection: the handshake fails, the stream is not opened, or the server is asked for it.
pub data Handled : Type 0 where
  rejected : Socks.Error → Handled
  not_opened : Error → Handled
  asked : ℕ → Handled
  panics : Handled

abbrev pub asked_for : Request → Handled
asked_for (requested id) = asked id
asked_for (not_requested e) = not_opened e
asked_for Request.panics = Handled.panics

module _ (env : Environment) (print : Destination → List ℕ) where
  unfoldable pub open_for :
      Connection × Result Socks.Error Destination → Session → Connection × Session × Handled
  unfolding request_stream
  open_for (c, err e) s = (c, s, rejected e)
  open_for (c, ok d) s =
      let request = request_stream env (print d) s in (c, request.0, asked_for request.1)

  -- `handleSOCKS` up to the wait in OpenStream.
  unfoldable pub handle_socks : Connection → Session → Connection × Session × Handled
  unfolding open_for handshake
  handle_socks c s = open_for (handshake c) s

abbrev bind_unless : Bool → Wait → Stream → Stream
unfolding bind_client
bind_unless close_write (over none) stream = bind_client close_write stream
bind_unless close_write (over (some e)) stream = stream
bind_unless close_write waits stream = stream

-- The rest of it, with whether the connection has CloseWrite and whether the ten seconds have passed.
unfoldable pub bind_socks : Bool → Bool → Stream → Stream × Wait
unfolding bind_unless wait_for_accept
bind_socks close_write timed_out stream =
    let w = wait_for_accept stream timed_out in (bind_unless close_write w stream, w)
