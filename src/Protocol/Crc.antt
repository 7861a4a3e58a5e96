-- ===== src/Protocol/Crc.antt =====
-- crc32.Update with the Castagnoli table (frame.go, crc32cTable), bit by bit.
use cwnd_warm_up_proxy.Prelude.{ℕ, zero, suc, ◌-◌, ◌/◌, ◌%◌, ◌^◌, ◌<◌, ◌≡◌, refl, arith}
use cwnd_warm_up_proxy.Prelude.{List, [], ◌∷◌, ◌==◌, if◌then◌else◌}
use Prim.Native.Nat.{bit_xor}

-- The Castagnoli polynomial, reversed.
abbrev castagnoli : ℕ
castagnoli = 0x82f6_3b78

crc_bits : ℕ → ℕ → ℕ
crc_bits zero c = c
crc_bits (suc n) c = crc_bits n (if c % 2 == 0 then c / 2 else bit_xor (c / 2) castagnoli)

crc_fold : ℕ → List ℕ → ℕ
unfolding crc_bits
crc_fold c [] = c
crc_fold c (b ∷ bs) = crc_fold (crc_bits 8 (bit_xor c b)) bs

-- `^crc` on a uint32.
abbrev complement : ℕ → ℕ
complement c = 2 ^ 32 - 1 - c % 2 ^ 32

pub crc_update : ℕ → List ℕ → ℕ
unfolding crc_fold
crc_update crc bs = complement (crc_fold (complement crc) bs)

pub crc_update-lt : (crc : ℕ) (bs : List ℕ) → crc_update crc bs < 2 ^ 32
unfolding crc_update
crc_update-lt crc bs = omega arith

-- The check value of CRC-32C, over the text "123456789".
crc_check :
    crc_update 0 (0x31 ∷ 0x32 ∷ 0x33 ∷ 0x34 ∷ 0x35 ∷ 0x36 ∷ 0x37 ∷ 0x38 ∷ 0x39 ∷ []) ≡ 0xe306_9283
unfolding crc_update
crc_check = refl
