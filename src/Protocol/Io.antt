-- ===== src/Protocol/Io.antt =====
-- The io.Reader and io.Writer that frames go through. A reader is the bytes that are still to come
-- before the end of the stream; a writer takes bytes until its room is used up, and then fails.
use cwnd_warm_up_proxy.Prelude.{ℕ, ◌+◌, ◌-◌, List, ◌++◌, Option, none, some}
use cwnd_warm_up_proxy.Prelude.{length, take, drop, leb, ◌==◌, if◌then◌else◌, ltb, min}
use cwnd_warm_up_proxy.Prelude.Results.{Result, ok, err}
use cwnd_warm_up_proxy.Protocol.{Error, eof, unexpected_eof, short_write}

-- io.ReadFull into a buffer of n bytes: the bytes, and the reader behind them.
unfoldable pub read_full : ℕ → List ℕ → Result Error (List ℕ × List ℕ)
read_full n r =
    if leb n (length r)
    then ok (take n r, drop n r)
    else if length r == 0
    then err eof
    else err unexpected_eof

pub record Writer : Type 0 where
  pub accepted : List ℕ
  pub room : ℕ

unfoldable pub write : Writer → List ℕ → Writer × ℕ × Option Error
write w p = (
  record { accepted = w.accepted ++ take w.room p; room = w.room - length p },
  min w.room (length p),
  if ltb w.room (length p) then some short_write else none,
)

-- countingWriter
pub record CountingWriter : Type 0 where
  pub w : Writer
  pub written : ℕ

unfoldable pub counting_write : CountingWriter → List ℕ → CountingWriter × Option Error
unfolding write
counting_write cw p =
    let (w, n, e) = write cw.w p in (record { w = w; written = cw.written + n }, e)
