-- ===== src/Window.antt =====
-- internal/overlay/window.go: the byte credit of a stream. A call holds the mutex but for the wait in
-- `Acquire`, so the body of that loop is a step, made again after each broadcast.
pub mod Credit
use cwnd_warm_up_proxy.Prelude.{ℕ, ◌+◌, ◌-◌, Bool, true, false, leb, ◌==◌, if◌then◌else◌}
use cwnd_warm_up_proxy.Prelude.Bytes.{u32}

pub record Window : Type 0 where
  pub available : ℕ  -- uint32
  pub closed : Bool

unfoldable pub new : ℕ → Window
new initial = record { available = initial; closed = false }

-- `Acquire` returns true or false, or it waits.
pub data Outcome : Type 0 where
  granted refused waiting : Outcome

unfoldable pub acquire : Window → ℕ → Window × Outcome
acquire w n =
    if n == 0
    then (w, granted)
    else if w.closed
    then (w, refused)
    else if leb n w.available
    then (record w { available = w.available - n }, granted)
    else (w, waiting)

unfoldable pub release : Window → ℕ → Window
release w n = if n == 0 then w else record w { available = u32 (w.available + n) }

unfoldable pub close : Window → Window
close w = record w { closed = true }
