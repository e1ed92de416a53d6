-- ===== src/Packet/Checksum.antt =====
-- The ones' complement checksum of the packet code, against the plain sum of 16-bit words.
use moonlight_tailscale_vita.Common.{
  ℕ, ◌+◌, ◌*◌, ◌/◌, ◌%◌, ◌^◌, ◌≤◌, ◌<◌, ◌≡◌, ◌↔◌, [], ◌∷◌, Bytes, IsBytes, length, arith,
}
use moonlight_tailscale_vita.Packet.{checksum_add, fold_carry, checksum_finish}

-- The sum of the big-endian 16-bit words, with a zero byte behind an odd last one, unbounded.
abbrev pub word_sum : Bytes → ℕ
word_sum [] = 0
word_sum (x ∷ []) = x * 256
word_sum (x ∷ y ∷ rest) = x * 256 + y + word_sum rest

pub word_sum-le :
    (data' : Bytes) → IsBytes data' → word_sum data' ≤ 65535 * ((length data' + 1) / 2)
word_sum-le [] h = omega arith
word_sum-le (x ∷ []) h = omega arith
word_sum-le (x ∷ y ∷ rest) (hx, (hy, h)) = omega (arith, word_sum-le rest h)

-- No 32-bit addition wraps while the plain sum fits.
pub checksum_add-word_sum :
    (data' : Bytes) (sum : ℕ)
    → IsBytes data'
    → sum + word_sum data' < 2 ^ 32
    → checksum_add sum data' ≡ sum + word_sum data'
unfolding checksum_add
checksum_add-word_sum [] sum b h = omega arith
checksum_add-word_sum (x ∷ []) sum b h = omega arith
checksum_add-word_sum (x ∷ y ∷ rest) sum b h =
    ground (arith, checksum_add-word_sum rest (sum + (x * 256 + y)) b.1.1)

-- The loop ends by its test on every 32-bit sum, keeps the residue modulo 65535, and reaches zero
-- only from zero.
pub fold_carry_lem :
    (sum : ℕ)
    → sum < 2 ^ 32
    → (fold_carry 3 sum < 2 ^ 16)
      × (fold_carry 3 sum % 65535 ≡ sum % 65535)
      × (fold_carry 3 sum ≡ 0 → sum ≡ 0)
unfolding fold_carry
fold_carry_lem sum h = ground arith

-- A sum is folded to 0xFFFF, and its complement is 0, exactly when it is a positive multiple of
-- 65535.
pub checksum_finish-zero :
    (sum : ℕ) → 0 < sum → sum < 2 ^ 32 → (checksum_finish sum ≡ 0) ↔ (sum % 65535 ≡ 0)
unfolding checksum_finish
checksum_finish-zero sum p h = ground (arith, fold_carry_lem sum h)

-- The checksum of a sum is a 16-bit word, and completes the sum to a multiple of 65535.
pub checksum_finish_completes :
    (sum : ℕ)
    → sum < 2 ^ 32
    → (checksum_finish sum < 2 ^ 16) × ((sum + checksum_finish sum) % 65535 ≡ 0)
unfolding checksum_finish
checksum_finish_completes sum h = omega (arith, fold_carry_lem sum h)

pub checksum_add_zero :
    (data' : Bytes)
    → IsBytes data'
    → word_sum data' < 2 ^ 32
    → checksum_add 0 data' ≡ word_sum data'
checksum_add_zero data' b h = omega (arith, checksum_add-word_sum data' 0 b)

pub checksum_finish-mod : (sum : ℕ) → sum < 2 ^ 32 → checksum_finish sum ≡ 0 → sum % 65535 ≡ 0
unfolding checksum_finish
checksum_finish-mod sum h z = ground (arith, fold_carry_lem sum h)
