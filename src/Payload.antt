-- ===== src/Payload.antt =====
-- cmd/test-consumer/main.go: the payload file that the test consumer makes for its upload.
pub mod Repeated
mod Examples
use cwnd_warm_up_proxy.Prelude.{
  ℕ, zero, suc, ◌+◌, ◌-◌, List, [], ◌∷◌, Option, none, some, length, take, ltb, if◌then◌else◌,
}
use cwnd_warm_up_proxy.Prelude.Results.{Result, ok, err}
use cwnd_warm_up_proxy.Protocol.{Error}
use cwnd_warm_up_proxy.Protocol.Io.{Writer, write}

-- "The quick brown fox jumps over the lazy dog. "
abbrev pub pattern : List ℕ
pattern =
    84 ∷ 104 ∷ 101 ∷ 32 ∷ 113 ∷ 117 ∷ 105 ∷ 99 ∷ 107 ∷ 32 ∷ 98 ∷ 114 ∷ 111 ∷ 119 ∷ 110 ∷ 32 ∷ 102
    ∷ 111 ∷ 120 ∷ 32 ∷ 106 ∷ 117 ∷ 109 ∷ 112 ∷ 115 ∷ 32 ∷ 111 ∷ 118 ∷ 101 ∷ 114 ∷ 32 ∷ 116 ∷ 104
    ∷ 101 ∷ 32 ∷ 108 ∷ 97 ∷ 122 ∷ 121 ∷ 32 ∷ 100 ∷ 111 ∷ 103 ∷ 46 ∷ 32 ∷ []

-- `unfinished` is a loop that has rounds to go.
pub data Written : Type 0 where
  wrote unfinished : Written
  failed : Error → Written

unfoldable pub next_chunk : ℕ → ℕ → List ℕ
next_chunk size written =
    let remain = size - written in
    if ltb remain (length pattern) then take remain pattern else pattern

abbrev pub unless_full : Writer → Option Error → Writer × Written → Writer × Written
unless_full file (some e) rest = (file, failed e)
unless_full file none rest = rest

-- The loop, for so many rounds at most.
unfoldable pub write_chunks : ℕ → ℕ → ℕ → Writer → Writer × Written
unfolding write next_chunk
write_chunks zero size written file = (file, if ltb written size then unfinished else wrote)
write_chunks (suc n) size written file =
    let chunk = next_chunk size written in
    let (next, count, e) = write file chunk in
    let rest = write_chunks n size (written + length chunk) next in
    if ltb written size then unless_full next e rest else (file, wrote)

-- What the calls of the file system come to; `mkdir` is none also where there is no directory to make.
pub record Disk : Type 0 where
  pub mkdir : Option Error
  pub create : Result Error Writer
  pub sync : Option Error

abbrev pub synced : Option Error → Writer × Written → Writer × Written
synced (some e) (file, wrote) = (file, failed e)
synced none (file, wrote) = (file, wrote)
synced e (file, unfinished) = (file, unfinished)
synced e (file, failed x) = (file, failed x)

abbrev pub into_file : Disk → ℕ → ℕ → Result Error Writer → Option Writer × Written
into_file disk rounds size (err e) = (none, failed e)
into_file disk rounds size (ok file) =
    let t = synced disk.sync (write_chunks rounds size 0 file) in (some t.0, t.1)

-- The file, if there is one, and what is returned. The code's size is 5 * 1024 * 1024.
unfoldable pub write_payload_file : Disk → ℕ → ℕ → Option Writer × Written
unfolding write_chunks
write_payload_file disk rounds size = made disk.mkdir
  where
    made : Option Error → Option Writer × Written
    made (some e) = (none, failed e)
    made none = into_file disk rounds size disk.create
