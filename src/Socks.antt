-- ===== src/Socks.antt =====
-- internal/socks/handshake.go: the server's side of a SOCKS5 CONNECT, as steps on a connection that end
-- with a value or an error.
pub mod Client
pub mod Accepts
pub mod Answers
mod Examples
use cwnd_warm_up_proxy.Prelude.{
  ℕ, List, [], ◌∷◌, Bool, true, false, Option, none, some, ◌==◌, ◌||◌, if◌then◌else◌, get_or,
}
use cwnd_warm_up_proxy.Prelude.Bytes.{get_be}
use cwnd_warm_up_proxy.Prelude.Results.{Result, ok, err}
use cwnd_warm_up_proxy.Protocol
use cwnd_warm_up_proxy.Protocol.Io.{Writer, read_full, write}

-- `io` is an error of the connection.
pub data Error : Type 0 where
  io : Protocol.Error → Error
  version_mismatch unsupported_cmd no_method auth_required : Error
  unsupported_type connect_failed : ℕ → Error

-- The bytes that the peer has sent and are still unread, and the way to the peer.
pub record Connection : Type 0 where
  pub reader : List ℕ
  pub writer : Writer

abbrev pub Io : Type 0 → Type 0
Io A = Connection → Connection × Result Error A

abbrev pub proceed :
    {A B : Type 0} → Connection × Result Error A → (A → Io B) → Connection × Result Error B
proceed (c, ok a) f = f a c
proceed (c, err e) f = (c, err e)

infixl 5 ◌>>=◌ ◌>>◌
abbrev pub ◌>>=◌ : {A B : Type 0} → Io A → (A → Io B) → Io B
m >>= f = λ c. proceed (m c) f

abbrev pub ◌>>◌ : {B : Type 0} → Io (Unit {0}) → Io B → Io B
m >> k = m >>= λ _. k

abbrev pub done : {A : Type 0} → A → Io A
done a = λ c. (c, ok a)

abbrev pub require : Bool → Error → Io (Unit {0})
require true e = done tt
require false e = λ c. (c, err e)

abbrev pub refuse : {A : Type 0} → Error → Io A
refuse e = λ c. (c, err e)

abbrev pub after_read :
    Connection → Result Protocol.Error (List ℕ × List ℕ) → Connection × Result Error (List ℕ)
after_read c (ok (bytes, rest)) = (record c { reader = rest }, ok bytes)
after_read c (err e) = (record c { reader = [] }, err (io e))

-- io.ReadFull, which takes everything before it fails.
unfoldable pub read : ℕ → Io (List ℕ)
unfolding read_full
read n = λ c. after_read c (read_full n c.reader)

abbrev pub after_write :
    Connection → Writer × ℕ × Option Protocol.Error → Connection × Result Error (Unit {0})
after_write c (w, n, none) = (record c { writer = w }, ok tt)
after_write c (w, n, some e) = (record c { writer = w }, err (io e))

unfoldable pub send : List ℕ → Io (Unit {0})
unfolding write
send bytes = λ c. after_write c (write c.writer bytes)

pub data Host : Type 0 where
  ipv4 domain ipv6 : List ℕ → Host

-- The address that net.JoinHostPort prints; an IP address is its bytes.
pub record Destination : Type 0 where
  pub host : Host
  pub port : ℕ

abbrev pub contains : ℕ → List ℕ → Bool
contains m [] = false
contains m (x ∷ xs) = (x == m) || contains m xs

unfoldable pub negotiate : Io (Unit {0})
unfolding read send
negotiate = do
  buf ← read 2
  require (get_or buf 0 0 == 0x05) version_mismatch
  methods ← read (get_or buf 1 0)
  require (contains 0 methods) no_method
  send (0x05 ∷ 0x00 ∷ [])

-- The switch over the type of the address.
unfoldable pub read_host : ℕ → Io Host
unfolding read
read_host addr_type =
    if addr_type == 0x01
    then (read 4 >>= λ addr. done (ipv4 addr))
    else if addr_type == 0x03
    then (read 1 >>= λ ln. (read (get_or ln 0 0) >>= λ addr. done (domain addr)))
    else if addr_type == 0x04
    then (read 16 >>= λ addr. done (ipv6 addr))
    else refuse (unsupported_type addr_type)

unfoldable pub read_request : Io Destination
unfolding read read_host
read_request = do
  head ← read 4
  require (get_or head 0 0 == 0x05) version_mismatch
  require (get_or head 1 0 == 0x01) unsupported_cmd
  host ← read_host (get_or head 3 0)
  port ← read 2
  done (record { host = host; port = get_be port })

unfoldable pub send_success : Io (Unit {0})
unfolding send
send_success = send (0x05 ∷ 0x00 ∷ 0x00 ∷ 0x01 ∷ 0 ∷ 0 ∷ 0 ∷ 0 ∷ 0 ∷ 0 ∷ [])

unfoldable pub handshake : Io Destination
unfolding negotiate read_request send_success
handshake = do negotiate; addr ← read_request; send_success; done addr
