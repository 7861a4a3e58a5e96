-- ===== src/Window/Credit.antt =====
-- The credit in the window and the bytes in flight over any interleaving of senders and ACKs.
use cwnd_warm_up_proxy.Prelude.{ℕ, ◌+◌, ◌-◌, ◌^◌, ◌≤◌, ◌<◌, ◌≡◌, true, arith}
use cwnd_warm_up_proxy.Window.{Window, new, granted, refused, waiting, acquire, release, close}

-- The window together with the bytes that were acquired and not yet released.
pub record Account : Type 0 where
  pub window : Window
  pub in_flight : ℕ

-- A call of one of the goroutines that share the window. Only bytes in flight are released.
pub data Step (s : Account) (t : Account) : Type 0 where
  acquires :
      (n : ℕ)
      → (acquire s.window n).1 ≡ granted
      → t ≡ record { window = (acquire s.window n).0; in_flight = s.in_flight + n }
      → Step s t
  fails :
      (n : ℕ)
      → (acquire s.window n).1 ≡ refused
      → t ≡ record s { window = (acquire s.window n).0 }
      → Step s t
  waits :
      (n : ℕ)
      → (acquire s.window n).1 ≡ waiting
      → t ≡ record s { window = (acquire s.window n).0 }
      → Step s t
  releases :
      (n : ℕ)
      → n ≤ s.in_flight
      → t ≡ record { window = release s.window n; in_flight = s.in_flight - n }
      → Step s t
  closes : t ≡ record s { window = close s.window } → Step s t

pub data Steps (s : Account) : Account → Type 0 where
  here : Steps s s
  next : {t u : Account} → Steps s t → Step t u → Steps s u

module _ (initial : ℕ) (fits : initial < 2 ^ 32) where
  abbrev Balanced : Account → Type 0
  Balanced s = s.window.available + s.in_flight ≡ initial

  Step-Balanced : (s t : Account) → Step s t → Balanced s → Balanced t
  unfolding acquire release close
  Step-Balanced s t (acquires n g e) b = ground (arith, g, e, b)
  Step-Balanced s t (fails n g e) b = ground (arith, g, e, b)
  Step-Balanced s t (waits n g e) b = ground (arith, g, e, b)
  Step-Balanced s t (releases n h e) b = ground (arith, h, e, b)
  Step-Balanced s t (closes e) b = ground (arith, e, b)

  -- Whatever the interleaving of the calls, as long as no call of Release gives back more than is in flight, the
  -- credit and the bytes in flight add up to the initial window.
  pub Steps_balanced :
      {t : Account}
      → Steps (record { window = new initial; in_flight = 0 }) t
      → t.window.available + t.in_flight ≡ initial
  unfolding new
  Steps_balanced here = omega arith
  Steps_balanced (next {t} {u} r st) = Step-Balanced t u st (Steps_balanced r)

-- A closed window grants nothing but the empty request, and no call opens it again.
pub closed_refuses :
    (w : Window) (n : ℕ)
    → w.closed ≡ true
    → 0 < n
    → ((acquire w n).1 ≡ refused)
      × ((acquire w n).0.closed ≡ true)
      × ((release w n).closed ≡ true)
      × ((close w).closed ≡ true)
unfolding acquire release close
closed_refuses w n c h = ground arith

-- A sender that waits gets its bytes as soon as the credit reaches them, in an open window, and the
-- rest of the credit is left.
pub release_wakes :
    (w : Window) (n credit : ℕ)
    → (acquire w n).1 ≡ waiting
    → w.available + credit < 2 ^ 32
    → n ≤ w.available + credit
    → let t = acquire (release w credit) n in
      (t.1 ≡ granted) × (t.0.available + n ≡ w.available + credit)
unfolding acquire release
release_wakes w n credit h fits enough = ground arith
