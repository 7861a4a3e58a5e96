-- ===== src/Socks/Client.antt =====
-- cmd/test-consumer/main.go: the client's side of a SOCKS5 CONNECT.
use cwnd_warm_up_proxy.Prelude.{
  ℕ, ◌/◌, ◌%◌, List, [], ◌∷◌, ◌++◌, length, ltb, ◌==◌, if◌then◌else◌, get_or,
}
use cwnd_warm_up_proxy.Socks.{
  Io, Host, ipv4, domain, ipv6, Destination, done, require, refuse, ◌>>=◌, ◌>>◌, read,
  version_mismatch, auth_required, connect_failed, unsupported_type,
}

-- What the client sends of the host; a domain's length is one byte.
unfoldable pub host_bytes : Host → List ℕ
host_bytes (ipv4 ip) = 0x01 ∷ ip
host_bytes (domain name) = 0x03 ∷ length name % 256 ∷ name
host_bytes (ipv6 ip) = 0x04 ∷ ip

abbrev pub greeting_bytes : List ℕ
greeting_bytes = 0x05 ∷ 0x01 ∷ 0x00 ∷ []

unfoldable pub request_bytes : Destination → List ℕ
unfolding host_bytes
request_bytes d =
    (0x05 ∷ 0x01 ∷ 0x00 ∷ []) ++ (host_bytes d.host ++ (d.port / 256 % 256 ∷ d.port % 256 ∷ []))

-- The part of sendSocksGreeting behind the write.
unfoldable pub read_greeting : Io (Unit {0})
unfolding read
read_greeting = do
  resp ← read 2
  require (get_or resp 0 0 == 0x05) version_mismatch
  require (get_or resp 1 0 == 0x00) auth_required

-- How many bytes of an address are skipped.
unfoldable pub bound_length : ℕ → Io ℕ
unfolding read
bound_length addr_type =
    if addr_type == 0x01
    then done 4
    else if addr_type == 0x03
    then (read 1 >>= λ ln. done (get_or ln 0 0))
    else if addr_type == 0x04
    then done 16
    else refuse (unsupported_type addr_type)

-- The part of requestSocksConnect behind the write.
unfoldable pub read_reply : Io (Unit {0})
unfolding read bound_length
read_reply = do
  head ← read 4
  require (get_or head 0 0 == 0x05) version_mismatch
  require (get_or head 1 0 == 0x00) (connect_failed (get_or head 1 0))
  discard ← bound_length (get_or head 3 0)
  trash ← if ltb 0 discard then read discard else done []
  port ← read 2
  done tt
