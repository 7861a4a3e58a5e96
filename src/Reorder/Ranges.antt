-- ===== src/Reorder/Ranges.antt =====
-- SACKRanges of reorder.go.
pub mod Sound
pub mod Order
pub mod Complete
use cwnd_warm_up_proxy.Prelude.{
  ℕ, zero, suc, ◌+◌, List, [], ◌∷◌, true, false, Option, none, some, length, ltb, leb, ◌==◌, take,
  if◌then◌else◌,
}
use cwnd_warm_up_proxy.Prelude.Bytes.{u64}
use cwnd_warm_up_proxy.Prelude.Table.{lookup}
use cwnd_warm_up_proxy.Protocol.{SackRange, max_sack_ranges}
use cwnd_warm_up_proxy.Reorder.{Entry, ReorderBuffer}

-- The keys of the entries with data.
unfoldable pub data_keys : List (ℕ × Entry) → List ℕ
data_keys [] = []
data_keys ((seq, entry) ∷ m) = if length entry.payload == 0 then data_keys m else seq ∷ data_keys m

unfoldable pub insert_key : ℕ → List ℕ → List ℕ
insert_key k [] = k ∷ []
insert_key k (j ∷ ks) = if leb k j then k ∷ (j ∷ ks) else j ∷ insert_key k ks

-- sort.Slice by `<`
unfoldable pub sort_keys : List ℕ → List ℕ
sort_keys [] = []
sort_keys (k ∷ ks) = insert_key k (sort_keys ks)

-- The length of the payload at a key; a missing entry is the zero value.
unfoldable pub payload_length : Option Entry → ℕ
payload_length none = 0
payload_length (some entry) = length entry.payload

unfoldable pub range_at : List (ℕ × Entry) → ℕ → SackRange
range_at m seq = record { start = seq; end = u64 (seq + payload_length (lookup seq m)) }

abbrev pub widen : SackRange → SackRange → SackRange
widen last r = if ltb last.end r.end then record last { end = r.end } else last

-- `last` is the last range of the list that is being built.
unfoldable pub coalesce : List (ℕ × Entry) → SackRange → List ℕ → List SackRange
coalesce m last [] = last ∷ []
coalesce m last (k ∷ ks) = elim (leb (range_at m k).start last.end) [
  | true ↦ coalesce m (widen last (range_at m k)) ks
  | false ↦ last ∷ coalesce m (range_at m k) ks
]

unfoldable pub ranges_of : List (ℕ × Entry) → List ℕ → List SackRange
ranges_of m [] = []
ranges_of m (k ∷ ks) = coalesce m (range_at m k) ks

unfoldable pub sack_ranges : ReorderBuffer → List SackRange
sack_ranges r = take max_sack_ranges (ranges_of r.buffer (sort_keys (data_keys r.buffer)))
