-- ===== src/Prelude/Bytes.antt =====
-- Big-endian words over byte lists, as encoding/binary reads and writes them.
use cwnd_warm_up_proxy.Prelude.Lists.{length, length-append, All, All-append}
use Prim.Native.Nat.{ℕ, zero, suc, ◌+◌, ◌*◌, ◌/◌, ◌%◌, ◌^◌, ◌<◌}
use mathlib.Core.Path.{◌≡◌, refl, ◌∙◌}
use mathlib.Core.List.{List, [], ◌∷◌, ◌++◌}
use native.Mathlib.Omega.{arith}

abbrev pub IsByte : ℕ → Type 0
IsByte b = b < 256

abbrev pub IsU32 : ℕ → Type 0
IsU32 n = n < 2 ^ 32

abbrev pub IsU64 : ℕ → Type 0
IsU64 n = n < 2 ^ 64

-- The low `k` bytes of a number, the highest first.
abbrev pub put_be : ℕ → ℕ → List ℕ
put_be zero n = []
put_be (suc k) n = put_be k (n / 256) ++ (n % 256 ∷ [])

unfoldable pub be_from : ℕ → List ℕ → ℕ
be_from acc [] = acc
be_from acc (b ∷ bs) = be_from (acc * 256 + b) bs

-- The number that a byte list spells.
unfoldable pub get_be : List ℕ → ℕ
unfolding be_from
get_be bs = be_from 0 bs

be_from-append :
    (acc : ℕ) (xs : List ℕ) (b : ℕ) → be_from acc (xs ++ (b ∷ [])) ≡ be_from acc xs * 256 + b
unfolding be_from
be_from-append acc [] b = refl
be_from-append acc (x ∷ xs) b = be_from-append (acc * 256 + x) xs b

pub length-put_be : (k n : ℕ) → length (put_be k n) ≡ k
length-put_be zero n = refl
length-put_be (suc k) n =
    omega (arith, length-append (put_be k (n / 256)) (n % 256 ∷ []), length-put_be k (n / 256))

pub put_be-IsByte : (k n : ℕ) → All IsByte (put_be k n)
put_be-IsByte zero n = tt
put_be-IsByte (suc k) n =
    All-append IsByte (put_be k (n / 256)) (n % 256 ∷ []) (put_be-IsByte k (n / 256))
      (omega arith, tt)

get-put_be : (k n : ℕ) → n < 256 ^ k → be_from 0 (put_be k n) ≡ n
unfolding be_from
get-put_be zero n h = omega arith
get-put_be (suc k) n h =
    be_from-append 0 (put_be k (n / 256)) (n % 256)
    ∙ omega (arith, get-put_be k (n / 256) (omega arith))

pub get_be-put_be : (k n : ℕ) → n < 256 ^ k → get_be (put_be k n) ≡ n
unfolding get_be
get_be-put_be k n h = get-put_be k n h

-- The wrap of unsigned arithmetic.
abbrev pub u32 : ℕ → ℕ
u32 n = n % 2 ^ 32

abbrev pub u64 : ℕ → ℕ
u64 n = n % 2 ^ 64
