-- ===== src/Pipe/Kept.antt =====
-- Every frame that a link has seen is a cut of the bytes that were queued.
use cwnd_warm_up_proxy.Prelude.{
  ℕ, ◌^◌, ◌<◌, ◌≡◌, refl, sym, ap, subst, ◌∙◌, List, [], ◌∷◌, ◌++◌, append_assoc, append-nil, Bool,
  true, false, not, ◌||◌, Option, none, some, length, length-append, get_elem?, All, All-append,
  All-get_elem?, if◌then◌else◌, arith,
}
use cwnd_warm_up_proxy.Prelude.Bytes.{u32}
use cwnd_warm_up_proxy.Window.{Window, Outcome, granted, refused, waiting, acquire}
use cwnd_warm_up_proxy.Reorder.{Chunk, ReorderBuffer, push}
use cwnd_warm_up_proxy.Reorder
use cwnd_warm_up_proxy.Reorder.Deliver.{chunks_of}
use cwnd_warm_up_proxy.Reorder.Receive.{Packet, receive}
use cwnd_warm_up_proxy.Stream.{Stream}
use cwnd_warm_up_proxy.Stream.Send.{
  already_closed, data_frame, entry_of, enter, settle, queue, queue_frame,
}
use cwnd_warm_up_proxy.Stream.Data.{is_end}
use cwnd_warm_up_proxy.Pipe.{any_last, Link, packet_of, commit, read, wake, arrive}
use cwnd_warm_up_proxy.Pipe.Front.{SameFront}
use cwnd_warm_up_proxy.Pipe.Tiles.{Tiles, next-Tiles}
use cwnd_warm_up_proxy.Pipe.Cuts.{
  earlier, All-both, IsOpen, All-more, any_last-append, IsCut, IsCut-grow, next-IsCut,
}

abbrev pub is_waiting : Option (List ℕ × Bool) → Bool
is_waiting none = false
is_waiting (some w) = true

-- The pump may still queue a frame.
abbrev pub may_queue : Stream → Option (List ℕ × Bool) → Bool
may_queue s w = not s.send_closed || is_waiting w

abbrev pub Sensible : List ℕ → Bool → Type 0
Sensible payload end = (length payload < 2 ^ 32) × (end ≡ false → 0 < length payload)

abbrev pub WaitsFor : Bool → Option (List ℕ × Bool) → Type 0
WaitsFor closed none = Unit {0}
WaitsFor closed (some (payload, end)) = Sensible payload end × (end ≡ true → closed ≡ true)

-- The frames are cuts of what was sent, and while more may come, none of them is empty or the last.
pub record Cuts (capacity : ℕ) (l : Link) : Type 0 where
  pub seq : l.sender.send_seq ≡ length l.sent
  pub history : All (IsCut l.sent l.history) l.history
  pub arrivals : All (IsCut l.sent l.history) l.arrivals
  pub tiles : Tiles l.sent l.history
  pub early : any_last l.history ≡ false → All (λ (f : Packet). f.end ≡ false) l.arrivals
  pub opens : may_queue l.sender l.waiting ≡ true → All IsOpen l.history × All IsOpen l.arrivals
  pub waits : WaitsFor l.sender.send_closed l.waiting
  pub receiver : receive (Reorder.new capacity) l.arrivals ≡ (l.receiver, l.chunks)

pub front-Cuts :
    (capacity : ℕ) (l : Link) (t : Stream)
    → Cuts capacity l
    → SameFront l.sender t
    → Cuts capacity (record l { sender = t })
front-Cuts capacity l t c f = record {
  seq = f.seq ∙ c.seq;
  history = c.history;
  arrivals = c.arrivals;
  tiles = c.tiles;
  early = c.early;
  opens = λ o. c.opens (ap (λ closed. not closed || is_waiting l.waiting) (sym f.closed) ∙ o);
  waits = subst (λ closed. WaitsFor closed l.waiting) (sym f.closed) c.waits;
  receiver = c.receiver;
}

is_end-data_frame :
    (s : Stream) (payload : List ℕ) (end : Bool) → is_end (data_frame s payload end) ≡ end
unfolding data_frame
is_end-data_frame s payload true = refl
is_end-data_frame s payload false = refl

module _ (capacity : ℕ) (l : Link) (c : Cuts capacity l)
    (opens : All IsOpen l.history × All IsOpen l.arrivals) where
  settle-Cuts :
      (payload : List ℕ) (end : Bool) (s : Stream) (a : Window × Outcome)
      → s.send_seq ≡ l.sender.send_seq
      → Sensible payload end
      → (end ≡ true → s.send_closed ≡ true)
      → length (commit payload end l (settle s payload end a)).sent < 2 ^ 64
      → Cuts capacity (commit payload end l (settle s payload end a))
  unfolding commit settle enter entry_of data_frame
  settle-Cuts payload end s (w, granted) same sensible ended short =
      let f = packet_of (data_frame (record s { send_window = w }) payload end) in
      let at : s.send_seq ≡ length l.sent = same ∙ c.seq in
      let grown =
        λ (fs : List Packet) (cuts : All (IsCut l.sent l.history) fs) (more : All IsOpen fs).
          All-both {P = IsCut l.sent l.history} {Q = IsOpen}
            {R = IsCut (l.sent ++ payload) (l.history ++ (f ∷ []))} fs
            (λ g cut open_g. IsCut-grow l.sent payload l.history (f ∷ []) g open_g.0 cut) cuts
            more in
      record {
        seq = omega (arith, at, sensible.0, short, length-append l.sent payload);
        history =
            All-append (IsCut (l.sent ++ payload) (l.history ++ (f ∷ []))) l.history (f ∷ [])
              (grown l.history c.history opens.0)
              (next-IsCut l.sent l.history f at c.history opens.0, tt);
        arrivals = grown l.arrivals c.arrivals opens.1;
        tiles =
            next-Tiles l.sent l.history f at
              (earlier l.sent l.history f at l.history c.history opens.0) c.tiles;
        early = λ more. c.early (ground (arith, more, any_last-append l.history f));
        opens = λ o.
            let not_last : end ≡ false = ground (arith, o, ended) in
            (
              All-append IsOpen l.history (f ∷ []) opens.0 (
                (
                  is_end-data_frame (record s { send_window = w }) payload end ∙ not_last,
                  sensible.1 not_last,
                ),
                tt,
              ),
              opens.1,
            );
        waits = tt;
        receiver = c.receiver;
      }
  settle-Cuts payload end s (w, refused) same sensible ended short = record {
    seq = same ∙ c.seq;
    history = c.history;
    arrivals = c.arrivals;
    tiles = c.tiles;
    early = c.early;
    opens = λ _. opens;
    waits = tt;
    receiver = c.receiver;
  }
  settle-Cuts payload end s (w, waiting) same sensible ended short = record {
    seq = same ∙ c.seq;
    history = c.history;
    arrivals = c.arrivals;
    tiles = c.tiles;
    early = c.early;
    opens = λ _. opens;
    waits = (sensible, ended);
    receiver = c.receiver;
  }

if_end :
    (s : Stream) (end : Bool)
    → end ≡ true
    → (if end then record s { send_closed = true } else s).send_closed ≡ true
if_end s true e = refl
if_end s false e = absurd (ground (arith, e))

if_end-seq :
    (s : Stream) (end : Bool)
    → (if end then record s { send_closed = true } else s).send_seq ≡ s.send_seq
if_end-seq s true = refl
if_end-seq s false = refl

idle-Cuts :
    (capacity : ℕ) (l : Link)
    → Cuts capacity l
    → l.waiting ≡ none
    → Cuts capacity (record l { waiting = none })
idle-Cuts capacity l c e = record {
  seq = c.seq;
  history = c.history;
  arrivals = c.arrivals;
  tiles = c.tiles;
  early = c.early;
  opens =
      subst (λ w. may_queue l.sender w ≡ true → All IsOpen l.history × All IsOpen l.arrivals) e
        c.opens;
  waits = tt;
  receiver = c.receiver;
}

pub or_true : (b : Bool) → (b || true) ≡ true
or_true true = refl
or_true false = refl

ended_or_not :
    (capacity : ℕ) (l : Link) (payload : List ℕ) (end : Bool)
    → Cuts capacity l
    → l.waiting ≡ none
    → Sensible payload end
    → (closed : Bool) → l.sender.send_closed ≡ closed
    → let s = if end then record l.sender { send_closed = true } else l.sender in
      let r = if closed then (l.sender, already_closed) else queue s payload end in
      length (commit payload end l r).sent < 2 ^ 64 → Cuts capacity (commit payload end l r)
unfolding commit queue
ended_or_not capacity l payload end c e sensible true h short = idle-Cuts capacity l c e
ended_or_not capacity l payload end c e sensible false h short =
    let s = if end then record l.sender { send_closed = true } else l.sender in
    let a = acquire s.send_window (u32 (length payload)) in
    settle-Cuts capacity l c (c.opens (ap (λ closed. not closed || is_waiting l.waiting) h)) payload
      end s a (if_end-seq l.sender end) sensible (if_end l.sender end) short

pub read-Cuts :
    (capacity : ℕ) (l : Link) (payload : List ℕ) (end : Bool) (w : Option (List ℕ × Bool))
    → l.waiting ≡ w
    → Cuts capacity l
    → Sensible payload end
    → length (read payload end l w).sent < 2 ^ 64
    → Cuts capacity (read payload end l w)
unfolding read queue_frame queue
read-Cuts capacity l payload end (some x) e c sensible short = c
read-Cuts capacity l payload end none e c sensible short =
    ended_or_not capacity l payload end c e sensible l.sender.send_closed refl short

pub wake-Cuts :
    (capacity : ℕ) (l : Link) (w : Option (List ℕ × Bool))
    → l.waiting ≡ w
    → Cuts capacity l
    → length (wake l w).sent < 2 ^ 64
    → Cuts capacity (wake l w)
unfolding wake queue
wake-Cuts capacity l none e c short = c
wake-Cuts capacity l (some (payload, end)) e c short =
    let (sensible, ended) = subst (WaitsFor l.sender.send_closed) e c.waits in
    let opens =
      c.opens (
        ap (λ w. not l.sender.send_closed || is_waiting w) e
        ∙ or_true (not l.sender.send_closed)) in
    settle-Cuts capacity l c opens payload end l.sender
      (acquire l.sender.send_window (u32 (length payload))) refl sensible ended short

receive-append :
    (r : ReorderBuffer) (fs : List Packet) (f : Packet)
    → receive r (fs ++ (f ∷ [])) ≡ (
        let t = receive r fs in
        let u = push t.0 f.seq f.payload f.end in (u.0, t.1 ++ chunks_of u.1))
unfolding receive
receive-append r [] f =
    ap (λ cs. ((push r f.seq f.payload f.end).0, cs))
      (append-nil (chunks_of (push r f.seq f.payload f.end).1))
receive-append r (g ∷ fs) f =
    let t = push r g.seq g.payload g.end in
    let u = receive t.0 fs in
    let last = push u.0 f.seq f.payload f.end in
    ap (λ x. (x.0, chunks_of t.1 ++ x.1)) (receive-append t.0 fs f)
    ∙ ap (λ cs. (last.0, cs)) (sym (append_assoc (chunks_of t.1) u.1 (chunks_of last.1)))

pub arrive-Cuts :
    (capacity : ℕ) (l : Link) (f : Option Packet)
    → (i : ℕ) → get_elem? l.history i ≡ f
    → Cuts capacity l
    → Cuts capacity (arrive l f)
unfolding arrive
arrive-Cuts capacity l none i e c = c
arrive-Cuts capacity l (some f) i e c = record {
  seq = c.seq;
  history = c.history;
  arrivals =
      All-append (IsCut l.sent l.history) l.arrivals (f ∷ []) c.arrivals
        (All-get_elem? (IsCut l.sent l.history) l.history i f c.history e, tt);
  tiles = c.tiles;
  early = λ more.
      All-append (λ (g : Packet). g.end ≡ false) l.arrivals (f ∷ []) (c.early more)
        (
          All-get_elem? (λ (g : Packet). g.end ≡ false) l.history i f (All-more l.history more) e,
          tt,
        );
  opens = λ o.
      let opens = c.opens o in
      (
        opens.0,
        All-append IsOpen l.arrivals (f ∷ []) opens.1
            (All-get_elem? IsOpen l.history i f opens.0 e, tt),
      );
  waits = c.waits;
  receiver =
      receive-append (Reorder.new capacity) l.arrivals f
      ∙ ap (λ t. let u = push t.0 f.seq f.payload f.end in (u.0, t.1 ++ chunks_of u.1)) c.receiver;
}
