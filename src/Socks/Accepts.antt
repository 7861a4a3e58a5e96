-- ===== src/Socks/Accepts.antt =====
-- A client and the server in one handshake.
use cwnd_warm_up_proxy.Prelude.{
  ℕ, ◌-◌, ◌/◌, ◌%◌, ◌^◌, ◌≤◌, ◌<◌, ◌≡◌, refl, ap, ap₂, drop, List, [], ◌∷◌, ◌++◌, length, arith,
  le→ltb_false, take_all, append_assoc, get_or,
}
use cwnd_warm_up_proxy.Prelude.Bytes.{get_be, be_from}
use cwnd_warm_up_proxy.Prelude.Results.{ok}
use cwnd_warm_up_proxy.Protocol.Io.{Writer, read_full, write}
use cwnd_warm_up_proxy.Protocol.Decode.Wire.{read_full-append}
use cwnd_warm_up_proxy.Socks.{
  Connection, ◌>>◌, Host, ipv4, domain, ipv6, Destination, after_read, read, send, negotiate,
  read_host, read_request, send_success, handshake,
}
use cwnd_warm_up_proxy.Socks.Client.{
  host_bytes, greeting_bytes, request_bytes, read_greeting, read_reply, bound_length,
}

-- An address of the right length; a domain's length fits one byte.
abbrev pub IsHost : Host → Type 0
IsHost (ipv4 ip) = length ip ≡ 4
IsHost (domain name) = length name < 256
IsHost (ipv6 ip) = length ip ≡ 16

pub record IsDestination (d : Destination) : Type 0 where
  pub host : IsHost d.host
  pub port : d.port < 2 ^ 16

abbrev pub granted_bytes : List ℕ
granted_bytes = 0x05 ∷ 0x00 ∷ 0x00 ∷ 0x01 ∷ 0 ∷ 0 ∷ 0 ∷ 0 ∷ 0 ∷ 0 ∷ []

-- What the server answers to a request it takes.
abbrev pub answer_bytes : List ℕ
answer_bytes = (0x05 ∷ 0x00 ∷ []) ++ granted_bytes

read_front :
    (n : ℕ) (xs ys : List ℕ) (w : Writer)
    → length xs ≡ n
    → read n (record { reader = xs ++ ys; writer = w })
      ≡ (record { reader = ys; writer = w }, ok xs)
unfolding read
read_front n xs ys w h =
    let c : Connection = record { reader = xs ++ ys; writer = w } in
    ap (after_read c) (read_full-append n xs ys h)

abbrev pub wrote : Writer → List ℕ → Writer
wrote w bytes = record { accepted = w.accepted ++ bytes; room = w.room - length bytes }

pub send_fits :
    (bytes r : List ℕ) (w : Writer)
    → length bytes ≤ w.room
    → send bytes (record { reader = r; writer = w })
      ≡ (record { reader = r; writer = wrote w bytes }, ok tt)
unfolding send write
send_fits bytes r w h = rw (le→ltb_false w.room (length bytes) h, take_all w.room bytes h) refl

negotiate-greeting_bytes :
    (more : List ℕ) (w : Writer)
    → 2 ≤ w.room
    → negotiate (record { reader = greeting_bytes ++ more; writer = w })
      ≡ (record { reader = more; writer = wrote w (0x05 ∷ 0x00 ∷ []) }, ok tt)
unfolding negotiate
negotiate-greeting_bytes more w h =
    rw
      (
        read_front 2 (0x05 ∷ 0x01 ∷ []) (0x00 ∷ more) w refl,
        read_front 1 (0x00 ∷ []) more w refl,
        send_fits (0x05 ∷ 0x00 ∷ []) more w h,
      )
      refl

get_be-port : (port : ℕ) → port < 2 ^ 16 → get_be (port / 256 % 256 ∷ port % 256 ∷ []) ≡ port
unfolding get_be be_from
get_be-port port h = omega (arith, h)

-- Reading the address, the client's port and what follows being still unread.
read_host-host_bytes :
    (host : Host) (tail : List ℕ) (w : Writer)
    → IsHost host
    → read_host
        (get_or (host_bytes host) 0 0)
        (record { reader = drop 1 (host_bytes host) ++ tail; writer = w })
      ≡ (record { reader = tail; writer = w }, ok host)
unfolding read_host host_bytes
read_host-host_bytes (ipv4 ip) tail w h = rw (read_front 4 ip tail w h) refl
read_host-host_bytes (domain name) tail w h =
    rw
      (
        read_front 1 (length name % 256 ∷ []) (name ++ tail) w refl,
        read_front (length name % 256) name tail w (omega (arith, h)),
      )
      refl
read_host-host_bytes (ipv6 ip) tail w h = rw (read_front 16 ip tail w h) refl

host_front :
    (host : Host) (port rest : List ℕ)
    → ((0x05 ∷ 0x01 ∷ 0x00 ∷ []) ++ (host_bytes host ++ port)) ++ rest
      ≡ (0x05 ∷ 0x01 ∷ 0x00 ∷ get_or (host_bytes host) 0 0 ∷ [])
        ++ (drop 1 (host_bytes host) ++ (port ++ rest))
unfolding host_bytes
host_front (ipv4 ip) port rest = ap (λ l. 0x05 ∷ 0x01 ∷ 0x00 ∷ 0x01 ∷ l) (append_assoc ip port rest)
host_front (domain name) port rest =
    ap (λ l. 0x05 ∷ 0x01 ∷ 0x00 ∷ 0x03 ∷ length name % 256 ∷ l) (append_assoc name port rest)
host_front (ipv6 ip) port rest = ap (λ l. 0x05 ∷ 0x01 ∷ 0x00 ∷ 0x04 ∷ l) (append_assoc ip port rest)

request_front :
    (d : Destination) (rest : List ℕ)
    → let port = d.port / 256 % 256 ∷ d.port % 256 ∷ [] in
      request_bytes d ++ rest
      ≡ (0x05 ∷ 0x01 ∷ 0x00 ∷ get_or (host_bytes d.host) 0 0 ∷ [])
        ++ (drop 1 (host_bytes d.host) ++ (port ++ rest))
unfolding request_bytes
request_front d rest = host_front d.host (d.port / 256 % 256 ∷ d.port % 256 ∷ []) rest

read_request-request_bytes :
    (d : Destination) (rest : List ℕ) (w : Writer)
    → IsDestination d
    → read_request (record { reader = request_bytes d ++ rest; writer = w })
      ≡ (record { reader = rest; writer = w }, ok d)
unfolding read_request
read_request-request_bytes d rest w h =
    let port = d.port / 256 % 256 ∷ d.port % 256 ∷ [] in
    rw
      (
        request_front d rest,
        read_front 4 (0x05 ∷ 0x01 ∷ 0x00 ∷ get_or (host_bytes d.host) 0 0 ∷ [])
            (drop 1 (host_bytes d.host) ++ (port ++ rest)) w refl,
        read_host-host_bytes d.host (port ++ rest) w h.host,
        read_front 2 port rest w refl,
        get_be-port d.port h.port,
      )
      refl

pub written_twice :
    (w : Writer)
    → wrote (wrote w (0x05 ∷ 0x00 ∷ [])) granted_bytes
      ≡ record { accepted = w.accepted ++ answer_bytes; room = w.room - 12 }
written_twice w =
    ap₂ (λ accepted room. record { accepted = accepted; room = room })
      (append_assoc w.accepted (0x05 ∷ 0x00 ∷ []) granted_bytes) (omega arith)

-- The server takes the request of a client, answers it, and leaves what the client sends behind it; the
-- client takes the answer. The address has its length, and the answer fits the writer.
pub handshake-request_bytes :
    (d : Destination) (rest : List ℕ) (w : Writer)
    → IsDestination d
    → 12 ≤ w.room
    → (handshake (record { reader = greeting_bytes ++ (request_bytes d ++ rest); writer = w }) ≡ (
      record {
        reader = rest;
        writer = record { accepted = w.accepted ++ answer_bytes; room = w.room - 12 };
      },
      ok d,
    ))
      × ((read_greeting >> read_reply) (record { reader = answer_bytes; writer = w })
          ≡ (record { reader = []; writer = w }, ok tt))
unfolding handshake send_success read_greeting read_reply bound_length read read_full
handshake-request_bytes d rest w h fits = (
  rw
      (
        negotiate-greeting_bytes (request_bytes d ++ rest) w (omega (arith, fits)),
        read_request-request_bytes d rest (wrote w (0x05 ∷ 0x00 ∷ [])) h,
        send_fits granted_bytes rest (wrote w (0x05 ∷ 0x00 ∷ [])) (omega (arith, fits)),
      )
      (ap (λ w. (record { reader = rest; writer = w }, ok d)) (written_twice w)),
  refl,
)
