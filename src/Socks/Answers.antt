-- ===== src/Socks/Answers.antt =====
-- What the server writes in a handshake with any peer.
use cwnd_warm_up_proxy.Prelude.{
  ℕ, ◌≤◌, ◌≡◌, refl, sym, ap, subst, ◌∙◌, ◌⊎◌, inl, inr, List, [], ◌∷◌, ◌++◌, Bool, true, false,
  length, ◌==◌, if◌then◌else◌, arith, get_or,
}
use cwnd_warm_up_proxy.Prelude.Results.{Result, ok, err}
use cwnd_warm_up_proxy.Protocol
use cwnd_warm_up_proxy.Protocol.Io.{Writer, read_full}
use cwnd_warm_up_proxy.Socks.{
  Error, Connection, Io, ipv4, domain, ipv6, Destination, proceed, ◌>>=◌, ◌>>◌, done, require,
  refuse, after_read, contains, read, send, negotiate, read_host, read_request, send_success,
  handshake, version_mismatch, no_method, unsupported_type, unsupported_cmd,
}
use cwnd_warm_up_proxy.Socks.Accepts.{wrote, send_fits, written_twice, answer_bytes, granted_bytes}

-- A step that ends with a value has written the bytes, and one that fails nothing.
abbrev pub Writes : {A : Type 0} → Writer → List ℕ → Connection × Result Error A → Type 0
Writes w bytes (c, ok a) = c.writer ≡ wrote w bytes
Writes w bytes (c, err e) = c.writer ≡ w

abbrev Keeps : {A : Type 0} → Io A → Type 0
Keeps m = (c : Connection) → (m c).0.writer ≡ c.writer

proceed-Keeps :
    {A B : Type 0} (w : Writer) (t : Connection × Result Error A) (f : A → Io B)
    → t.0.writer ≡ w
    → ((a : A) → Keeps (f a))
    → (proceed t f).0.writer ≡ w
proceed-Keeps w (c, ok a) f h k = k a c ∙ h
proceed-Keeps w (c, err e) f h k = h

proceed-Writes :
    {A B : Type 0} (w : Writer) (bytes : List ℕ) (t : Connection × Result Error A) (f : A → Io B)
    → t.0.writer ≡ w
    → ((a : A) (c : Connection) → c.writer ≡ w → Writes w bytes (f a c))
    → Writes w bytes (proceed t f)
proceed-Writes w bytes (c, ok a) f h k = k a c h
proceed-Writes w bytes (c, err e) f h k = h

read-Keeps : (n : ℕ) → Keeps (read n)
unfolding read
read-Keeps n c = kept (read_full n c.reader)
  where
    kept : (r : Result Protocol.Error (List ℕ × List ℕ)) → (after_read c r).0.writer ≡ c.writer
    kept (ok (bytes, rest)) = refl
    kept (err e) = refl

require-Keeps : (b : Bool) (e : Error) → Keeps (require b e)
require-Keeps true e c = refl
require-Keeps false e c = refl

if-Keeps : {A : Type 0} (b : Bool) (m n : Io A) → Keeps m → Keeps n → Keeps (if b then m else n)
if-Keeps true m n h k = h
if-Keeps false m n h k = k

read_host-Keeps : (t : ℕ) → Keeps (read_host t)
unfolding read_host
read_host-Keeps t =
    if-Keeps (t == 0x01) (read 4 >>= λ addr. done (ipv4 addr)) _
      (λ c. proceed-Keeps c.writer (read 4 c) _ (read-Keeps 4 c) (λ addr d. refl))
      (if-Keeps (t == 0x03) (read 1 >>= λ ln. (read (get_or ln 0 0) >>= λ addr. done (domain addr)))
        _
        (λ c. proceed-Keeps c.writer (read 1 c) _ (read-Keeps 1 c) (λ ln d.
          proceed-Keeps d.writer (read (get_or ln 0 0) d) _ (read-Keeps (get_or ln 0 0) d)
            (λ addr b. refl)))
        (if-Keeps (t == 0x04) (read 16 >>= λ addr. done (ipv6 addr)) (refuse (unsupported_type t))
          (λ c. proceed-Keeps c.writer (read 16 c) _ (read-Keeps 16 c) (λ addr d. refl))
          (λ c. refl)))

read_request-Keeps : Keeps read_request
unfolding read_request
read_request-Keeps c = proceed-Keeps c.writer (read 4 c) _ (read-Keeps 4 c) (λ head d.
    proceed-Keeps d.writer (require (get_or head 0 0 == 0x05) version_mismatch d) _
      (require-Keeps (get_or head 0 0 == 0x05) version_mismatch d)
      (λ _ d.
        proceed-Keeps d.writer (require (get_or head 1 0 == 0x01) unsupported_cmd d) _
          (require-Keeps (get_or head 1 0 == 0x01) unsupported_cmd d)
          (λ _ d.
            proceed-Keeps d.writer (read_host (get_or head 3 0) d) _
              (read_host-Keeps (get_or head 3 0) d)
              (λ host d. proceed-Keeps d.writer (read 2 d) _ (read-Keeps 2 d) (λ port d. refl)))))

send-Writes :
    (bytes : List ℕ) (w : Writer) (c : Connection)
    → length bytes ≤ w.room
    → c.writer ≡ w
    → Writes w bytes (send bytes c)
send-Writes bytes w c fits h =
    subst (λ v. Writes v bytes (send bytes c)) h
      (rw (send_fits bytes c.reader c.writer (subst (λ v. length bytes ≤ v.room) (sym h) fits))
        refl)

negotiate-Writes :
    (c : Connection) → 2 ≤ c.writer.room → Writes c.writer (0x05 ∷ 0x00 ∷ []) (negotiate c)
unfolding negotiate
negotiate-Writes c fits =
    let w = c.writer in
    let agreed : List ℕ = 0x05 ∷ 0x00 ∷ [] in
    proceed-Writes w agreed (read 2 c) _ (read-Keeps 2 c) (λ buf d h.
      proceed-Writes w agreed (require (get_or buf 0 0 == 0x05) version_mismatch d) _
        (require-Keeps (get_or buf 0 0 == 0x05) version_mismatch d ∙ h)
        (λ _ d h.
          proceed-Writes w agreed (read (get_or buf 1 0) d) _ (read-Keeps (get_or buf 1 0) d ∙ h)
            (λ methods d h.
              proceed-Writes w agreed (require (contains 0 methods) no_method d) _
                (require-Keeps (contains 0 methods) no_method d ∙ h)
                (λ _ d h. send-Writes agreed w d fits h))))

-- The server's half of the handshake behind the negotiation.
request_part : Io Destination
request_part = read_request >>= λ addr. (send_success >> done addr)

request_part-Writes :
    (w : Writer) (c : Connection)
    → length granted_bytes ≤ w.room
    → c.writer ≡ w
    → Writes w granted_bytes (request_part c)
unfolding request_part send_success
request_part-Writes w c fits h =
    proceed-Writes w granted_bytes (read_request c) _ (read_request-Keeps c ∙ h)
      (λ addr d h. answered addr (send granted_bytes d) (send-Writes granted_bytes w d fits h))
  where
    answered :
        (addr : Destination) (t : Connection × Result Error (Unit {0}))
        → Writes w granted_bytes t
        → Writes w granted_bytes (proceed t (λ _. done addr))
    answered addr (d, ok a) k = k
    answered addr (d, err e) k = k

-- The bytes of the whole handshake: an address comes with both answers, an error with one or none.
abbrev pub Answers : Writer → Connection × Result Error Destination → Type 0
Answers w (c, ok d) = c.writer.accepted ≡ w.accepted ++ answer_bytes
Answers w (c, err e) =
    (c.writer.accepted ≡ w.accepted) ⊎ (c.writer.accepted ≡ w.accepted ++ (0x05 ∷ 0x00 ∷ []))

-- Whatever the peer sends, the server answers with success exactly if it takes the request, and on an
-- error it has written nothing or the choice of the method alone. The answers fit the writer.
pub handshake-Answers : (c : Connection) → 12 ≤ c.writer.room → Answers c.writer (handshake c)
unfolding handshake request_part
handshake-Answers c fits = joined (negotiate c) (negotiate-Writes c (omega (arith, fits)))
  where
    finished :
        (d : Connection) (t : Connection × Result Error Destination)
        → d.writer ≡ wrote c.writer (0x05 ∷ 0x00 ∷ [])
        → Writes d.writer granted_bytes t
        → Answers c.writer t
    finished d (b, ok addr) h k =
        ap (λ (w : Writer). w.accepted)
          (k ∙ ap (λ v. wrote v granted_bytes) h ∙ written_twice c.writer)
    finished d (b, err e) h k = inr (ap (λ (w : Writer). w.accepted) (k ∙ h))

    joined :
        (t : Connection × Result Error (Unit {0}))
        → Writes c.writer (0x05 ∷ 0x00 ∷ []) t
        → Answers c.writer (proceed t (λ _. request_part))
    joined (d, ok a) h = finished d (request_part d) h (
        request_part-Writes d.writer d
          (subst (λ (w : Writer). 10 ≤ w.room) (sym h) (omega (arith, fits))) refl)
    joined (d, err e) h = inl (ap (λ (w : Writer). w.accepted) h)
