-- ===== src/Pipe/Cuts.antt =====
-- The frames of a stream as the cuts that queueFrame makes, one behind the other.
use cwnd_warm_up_proxy.Prelude.{
  ℕ, zero, suc, ◌+◌, ◌≤◌, ◌<◌, ◌≡◌, refl, ap, ◌∙◌, List, [], ◌∷◌, ◌++◌, false, ◌||◌, Option, none,
  some, length, length-append, take, drop, All, ◌==◌, if◌then◌else◌, arith,
}
use cwnd_warm_up_proxy.Reorder.Deliver.{IsSegment}
use cwnd_warm_up_proxy.Reorder.Receive.{Packet}
use cwnd_warm_up_proxy.Pipe.{any_last}

pub All-both {ℓ κ} :
    {A : Type ℓ} {P Q R : A → Type κ} (xs : List A)
    → ((x : A) → P x → Q x → R x)
    → All P xs
    → All Q xs
    → All R xs
All-both [] f h g = tt
All-both (x ∷ xs) f h g = (f x h.0 g.0, All-both xs f h.1 g.1)

-- The payload of the first frame at a sequence number.
abbrev pub cut_of : List Packet → ℕ → Option (List ℕ)
cut_of [] k = none
cut_of (f ∷ fs) k = if f.seq == k then some f.payload else cut_of fs k

pub cut_of-append :
    (fs gs : List Packet) (k : ℕ) (p : List ℕ) → cut_of fs k ≡ some p → cut_of (fs ++ gs) k ≡ some p
cut_of-append [] gs k p h = absurd (cc)
cut_of-append (f ∷ fs) gs k p h = ground (arith, h, cut_of-append fs gs k p)

pub cut_of_new :
    (fs : List Packet) (f : Packet)
    → All (λ (g : Packet). g.seq < f.seq) fs
    → cut_of (fs ++ (f ∷ [])) f.seq ≡ some f.payload
cut_of_new [] f h = ground arith
cut_of_new (g ∷ fs) f h = ground (arith, h.0, cut_of_new fs f h.1)

-- A frame with bytes, and not the last one.
abbrev pub IsOpen : Packet → Type 0
IsOpen f = (f.end ≡ false) × (0 < length f.payload)

pub any_last-append :
    (fs : List Packet) (f : Packet) → any_last (fs ++ (f ∷ [])) ≡ (any_last fs || f.end)
any_last-append [] f = ground arith
any_last-append (g ∷ fs) f = ground (arith, any_last-append fs f)

pub none_last : (fs : List Packet) → All IsOpen fs → any_last fs ≡ false
none_last [] h = refl
none_last (f ∷ fs) h = ground (arith, h.0.0, none_last fs h.1)

pub All-more : (fs : List Packet) → any_last fs ≡ false → All (λ (f : Packet). f.end ≡ false) fs
All-more [] h = tt
All-more (f ∷ fs) h = (ground (arith, h), All-more fs (ground (arith, h)))

abbrev pub IsCut : List ℕ → List Packet → Packet → Type 0
IsCut stream history f = IsSegment stream (cut_of history) f.seq f.payload f.end

take-drop-append :
    (n k : ℕ) (xs ys : List ℕ) → k + n ≤ length xs → take n (drop k (xs ++ ys)) ≡ take n (drop k xs)
take-drop-append zero k xs ys h = refl
take-drop-append (suc n) k [] ys h = absurd (omega (arith, h))
take-drop-append (suc n) zero (x ∷ xs) ys h =
    ap (λ r. x ∷ r) (take-drop-append n 0 xs ys (omega (arith, h)))
take-drop-append (suc n) (suc k) (x ∷ xs) ys h = take-drop-append (suc n) k xs ys (omega (arith, h))

-- A cut that is not the last stays a cut as the stream grows.
pub IsCut-grow :
    (stream bytes : List ℕ) (history more : List Packet) (f : Packet)
    → f.end ≡ false
    → IsCut stream history f
    → IsCut (stream ++ bytes) (history ++ more) f
IsCut-grow stream bytes history more f open_end h = record {
  known = cut_of-append history more f.seq f.payload h.known;
  fits = omega (arith, h.fits, length-append stream bytes);
  content = take-drop-append (length f.payload) f.seq stream bytes h.fits ∙ h.content;
  last = λ e. absurd (ground (arith, e, open_end));
}

drop_behind : (xs ys : List ℕ) → drop (length xs) (xs ++ ys) ≡ ys
drop_behind [] ys = refl
drop_behind (x ∷ xs) ys = drop_behind xs ys

take_whole : (xs : List ℕ) → take (length xs) xs ≡ xs
take_whole [] = refl
take_whole (x ∷ xs) = ap (λ r. x ∷ r) (take_whole xs)

-- Frames with data that end within the stream start before its end.
pub earlier :
    (stream : List ℕ) (history : List Packet) (f : Packet)
    → f.seq ≡ length stream
    → (fs : List Packet) → All (IsCut stream history) fs
    → All IsOpen fs
    → All (λ (g : Packet). g.seq < f.seq) fs
earlier stream history f at [] c o = tt
earlier stream history f at (g ∷ fs) c o =
    (omega (arith, c.0.fits, o.0.1, at), earlier stream history f at fs c.1 o.1)

-- The next cut, behind all frames so far.
pub next-IsCut :
    (stream : List ℕ) (history : List Packet) (f : Packet)
    → f.seq ≡ length stream
    → All (IsCut stream history) history
    → All IsOpen history
    → IsCut (stream ++ f.payload) (history ++ (f ∷ [])) f
next-IsCut stream history f at cuts opens = record {
  known = cut_of_new history f (earlier stream history f at history cuts opens);
  fits = omega (arith, at, length-append stream f.payload);
  content = rw (at, drop_behind stream f.payload) (take_whole f.payload);
  last = λ e. omega (arith, at, length-append stream f.payload);
}
