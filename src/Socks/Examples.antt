-- ===== src/Socks/Examples.antt =====
-- A client that asks for port 443 of a host with a name of two letters, and one that offers no method.
use cwnd_warm_up_proxy.Prelude.{◌≡◌, [], ◌∷◌, ◌++◌, arith}
use cwnd_warm_up_proxy.Prelude.Results.{ok}
use cwnd_warm_up_proxy.Protocol.Io.{Writer}
use cwnd_warm_up_proxy.Socks.{Connection, domain, Destination, ◌>>◌, handshake}
use cwnd_warm_up_proxy.Socks.Client.{greeting_bytes, request_bytes, read_greeting, read_reply}
use cwnd_warm_up_proxy.Socks.Accepts.{IsDestination, answer_bytes, handshake-request_bytes}
use cwnd_warm_up_proxy.Socks.Answers.{Answers, handshake-Answers}

abbrev two_letters : Destination
two_letters = record { host = domain (97 ∷ 98 ∷ []); port = 443 }

abbrev wide : Writer
wide = record { accepted = []; room = 20 }

two_letters-IsDestination : IsDestination two_letters
two_letters-IsDestination = record { host = omega arith; port = omega arith }

handshake-request_bytes_example :
    (handshake (record {
      reader = greeting_bytes ++ (request_bytes two_letters ++ (9 ∷ []));
      writer = wide;
    })
      ≡ (
        record { reader = 9 ∷ []; writer = record { accepted = answer_bytes; room = 8 } },
        ok two_letters,
      ))
    × ((read_greeting >> read_reply) (record { reader = answer_bytes; writer = wide })
        ≡ (record { reader = []; writer = wide }, ok tt))
handshake-request_bytes_example =
    handshake-request_bytes two_letters (9 ∷ []) wide two_letters-IsDestination (omega arith)

abbrev no_methods : Connection
no_methods = record { reader = 5 ∷ 0 ∷ 5 ∷ []; writer = wide }

handshake-Answers_example : Answers wide (handshake no_methods)
handshake-Answers_example = handshake-Answers no_methods (omega arith)
