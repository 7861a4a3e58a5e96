-- ===== src/Reorder.antt =====
-- internal/overlay/reorder.go: the bounded buffer that puts the DATA frames of a stream in order.
-- Each method holds the mutex from start to end, so a call is one step on the state.
pub mod Ranges
pub mod Cases
pub mod Bounds
pub mod Deliver
pub mod Receive
pub mod Complete
pub mod Last
pub mod Whole
mod Examples
use cwnd_warm_up_proxy.Prelude.{
  ℕ, zero, suc, ◌+◌, ◌-◌, ◌%◌, ◌^◌, List, [], ◌∷◌, Bool, true, false, not, ◌&&◌, Option, none, some,
  length, ltb, ◌==◌, if◌then◌else◌,
}
use cwnd_warm_up_proxy.Prelude.Bytes.{u32, u64}
use cwnd_warm_up_proxy.Prelude.Results.{Result, ok, err}
use cwnd_warm_up_proxy.Prelude.Table.{lookup, insert, delete}

-- ReorderedChunk
pub record Chunk : Type 0 where
  pub bytes : List ℕ
  pub end : Bool

-- reorderEntry
pub record Entry : Type 0 where
  pub payload : List ℕ
  pub end : Bool

pub record ReorderBuffer : Type 0 where
  pub next : ℕ  -- uint64
  pub buffer : List (ℕ × Entry)
  pub buffered : ℕ  -- uint32
  pub capacity : ℕ  -- uint32
  pub terminal : Bool
  pub end_seq : ℕ  -- uint64

pub data Error : Type 0 where
  reorder_overflow : Error

unfoldable pub new : ℕ → ReorderBuffer
new capacity = record {
  next = 0;
  buffer = [];
  buffered = 0;
  capacity = capacity;
  terminal = false;
  end_seq = 0;
}

abbrev max_uint64 : ℕ → ℕ → ℕ
max_uint64 a b = if ltb b a then a else b

-- The body of the loop in popReadyLocked, where `entry` stands at `next`.
unfoldable pub pop_one : ReorderBuffer → Entry → ReorderBuffer
pop_one r entry =
    let len = length entry.payload in
    let next = u64 (r.next + len) in
    record r {
      buffer = delete r.next r.buffer;
      buffered = if ltb 0 len then u32 (r.buffered + (2 ^ 32 - u32 len)) else r.buffered;
      next = if entry.end then max_uint64 next r.end_seq else next;
    }

-- The loop takes one entry out of the buffer in each round, so the number of entries is fuel enough.
unfoldable pub pop_loop : ℕ → ReorderBuffer → ReorderBuffer × List Chunk
pop_loop zero r = (r, [])
pop_loop (suc n) r = elim (lookup r.next r.buffer) [
  | none ↦ (r, [])
  | some entry ↦
      let rest = pop_loop n (pop_one r entry) in
      (rest.0, record { bytes = entry.payload; end = entry.end } ∷ rest.1)
]

unfoldable pub pop_ready : ReorderBuffer → ReorderBuffer × List Chunk
pop_ready r = pop_loop (length r.buffer) r

-- A frame below `next` was delivered before; only its END flag may be news.
pub late : ReorderBuffer → ℕ → List ℕ → Bool → ReorderBuffer
late r seq payload end =
    if end && not r.terminal
    then record r { terminal = true; end_seq = u64 (seq + length payload) }
    else r

-- A frame that is in the buffer already.
pub repeated : ReorderBuffer → ℕ → Entry → Bool → ReorderBuffer
repeated r seq existing end =
    if end && not existing.end
    then record r { buffer = insert seq (record existing { end = true }) r.buffer }
    else r

unfoldable pub store : ReorderBuffer → ℕ → List ℕ → Bool → ReorderBuffer
store r seq payload end =
    let len = u32 (length payload) in
    record r {
      buffered = if ltb 0 len then u32 (r.buffered + len) else r.buffered;
      buffer = insert seq (record { payload = payload; end = end }) r.buffer;
      terminal = if end then true else r.terminal;
      end_seq = if end then u64 (seq + length payload) else r.end_seq;
    }

abbrev pub does_overflow : ReorderBuffer → List ℕ → Bool
does_overflow r payload =
    let len = u32 (length payload) in ltb 0 len && ltb r.capacity (u32 (r.buffered + len))

abbrev pub delivered : ReorderBuffer × List Chunk → ReorderBuffer × Result Error (List Chunk)
delivered (r, chunks) = (r, ok chunks)

unfoldable pub push_new :
    ReorderBuffer → ℕ → List ℕ → Bool → ReorderBuffer × Result Error (List Chunk)
push_new r seq payload end =
    if does_overflow r payload
    then (r, err reorder_overflow)
    else delivered (pop_ready (store r seq payload end))

unfoldable pub push_at :
    ReorderBuffer → ℕ → List ℕ → Bool → Option Entry → ReorderBuffer × Result Error (List Chunk)
push_at r seq payload end none = push_new r seq payload end
push_at r seq payload end (some existing) = (repeated r seq existing end, ok [])

-- The buffer after the call, and the chunks that have become contiguous.
unfoldable pub push : ReorderBuffer → ℕ → List ℕ → Bool → ReorderBuffer × Result Error (List Chunk)
push r seq payload end =
    if ltb seq r.next
    then (late r seq payload end, ok [])
    else push_at r seq payload end (lookup seq r.buffer)

-- BufferedBytes, NextSeq and HasTerminal read one field each.
abbrev pub has_terminal : ReorderBuffer → Bool
has_terminal r = r.terminal
