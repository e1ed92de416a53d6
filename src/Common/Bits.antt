-- ===== src/Common/Bits.antt =====
-- `|` with zero, and `&` digit by digit.
use Prim.Native.Nat.{
  ℕ, zero, suc, ◌+◌, ◌*◌, ◌/◌, ◌%◌, ◌-◌, ◌^◌, ◌≤◌, ◌<◌, min, max, digits, bit_and, bit_or,
  bit_and-bitwise, bit_or-bitwise,
}
use mathlib.Core.Path.{◌≡◌, refl, ap, ◌∙◌}
use native.Mathlib.Nat.{le_refl, pow-suc, div-add-mod, div-div-eq-div-mul, mul_assoc, one-le-pow}
use native.Mathlib.Omega.{arith}

or_digits-zero : (fuel a : ℕ) → a ≤ fuel → digits (λ y. y) max fuel a 0 ≡ a
or_digits-zero zero zero h = refl
or_digits-zero (suc n) zero h = refl
or_digits-zero zero (suc a) h = absurd (omega arith)
or_digits-zero (suc n) (suc a) h = omega (arith, or_digits-zero n (suc a / 2) (omega arith))

pub bit_or-zero : (a : ℕ) → bit_or a 0 ≡ a
bit_or-zero a = bit_or-bitwise a 0 ∙ or_digits-zero a a (le_refl a)

pub zero-bit_or : (b : ℕ) → bit_or 0 b ≡ b
zero-bit_or b = bit_or-bitwise 0 b

or_digits-fuel :
    (n m a b : ℕ) → a ≤ n → a ≤ m → digits (λ y. y) max n a b ≡ digits (λ y. y) max m a b
or_digits-fuel zero zero a b h k = refl
or_digits-fuel zero (suc m) zero b h k = refl
or_digits-fuel zero (suc m) (suc a) b h k = absurd (omega arith)
or_digits-fuel (suc n) zero zero b h k = refl
or_digits-fuel (suc n) zero (suc a) b h k = absurd (omega arith)
or_digits-fuel (suc n) (suc m) zero b h k = refl
or_digits-fuel (suc n) (suc m) (suc a) b h k =
    omega (arith, or_digits-fuel n m (suc a / 2) (b / 2) (omega arith) (omega arith))

-- The lowest digit of `|`, and the others.
pub bit_or-halves : (a b : ℕ) → bit_or a b ≡ bit_or (a / 2) (b / 2) * 2 + max (a % 2) (b % 2)
bit_or-halves zero b = bit_or-bitwise 0 b ∙ omega (arith, bit_or-bitwise (0 / 2) (b / 2))
bit_or-halves (suc a) b =
    bit_or-bitwise (suc a) b
    ∙ omega (
      arith,
      bit_or-bitwise (suc a / 2) (b / 2),
      or_digits-fuel a (suc a / 2) (suc a / 2) (b / 2) (omega arith) (le_refl _),
    )

-- More fuel than digits changes nothing.
and_digits-fuel :
    (n m a b : ℕ) → a ≤ n → a ≤ m → digits (λ y. 0) min n a b ≡ digits (λ y. 0) min m a b
and_digits-fuel zero zero a b h k = refl
and_digits-fuel zero (suc m) zero b h k = refl
and_digits-fuel zero (suc m) (suc a) b h k = absurd (omega arith)
and_digits-fuel (suc n) zero zero b h k = refl
and_digits-fuel (suc n) zero (suc a) b h k = absurd (omega arith)
and_digits-fuel (suc n) (suc m) zero b h k = refl
and_digits-fuel (suc n) (suc m) (suc a) b h k =
    omega (arith, and_digits-fuel n m (suc a / 2) (b / 2) (omega arith) (omega arith))

-- The lowest digit of `&`, and the others.
pub bit_and-halves : (a b : ℕ) → bit_and a b ≡ bit_and (a / 2) (b / 2) * 2 + min (a % 2) (b % 2)
bit_and-halves zero b = bit_and-bitwise 0 b ∙ omega (arith, bit_and-bitwise (0 / 2) (b / 2))
bit_and-halves (suc a) b =
    bit_and-bitwise (suc a) b
    ∙ omega (
      arith,
      bit_and-bitwise (suc a / 2) (b / 2),
      and_digits-fuel a (suc a / 2) (suc a / 2) (b / 2) (omega arith) (le_refl _),
    )

and_digits-zero : (fuel a : ℕ) → a ≤ fuel → digits (λ y. 0) min fuel a 0 ≡ 0
and_digits-zero zero a h = refl
and_digits-zero (suc n) zero h = refl
and_digits-zero (suc n) (suc a) h = omega (arith, and_digits-zero n (suc a / 2) (omega arith))

pub bit_and-zero : (a : ℕ) → bit_and a 0 ≡ 0
bit_and-zero a = bit_and-bitwise a 0 ∙ and_digits-zero a a (le_refl a)

-- `(x & ~k) & k` is 0 on `w` bits.
pub bit_and-clear : (w k m : ℕ) → k < 2 ^ w → bit_and (bit_and m (2 ^ w - 1 - k)) k ≡ 0
bit_and-clear zero k m h =
    let e : k ≡ 0 = omega arith in
    ap (bit_and (bit_and m (2 ^ 0 - 1 - k))) e ∙ bit_and-zero (bit_and m (2 ^ 0 - 1 - k))
bit_and-clear (suc w) k m h =
    let mask = 2 ^ suc w - 1 - k in
    let half_mask : mask / 2 ≡ 2 ^ w - 1 - k / 2 = omega (arith, pow-suc 2 w) in
    let halves = bit_and-halves m mask in
    let half : bit_and m mask / 2 ≡ bit_and (m / 2) (2 ^ w - 1 - k / 2) =
      omega (arith, halves) ∙ ap (bit_and (m / 2)) half_mask in
    let rest : bit_and (bit_and m mask / 2) (k / 2) ≡ 0 =
      ap (λ (a : ℕ). bit_and a (k / 2)) half
      ∙ bit_and-clear w (k / 2) (m / 2) (omega (arith, pow-suc 2 w)) in
    omega (arith, pow-suc 2 w, halves, rest, bit_and-halves (bit_and m mask) k)

-- `x & (2^w - 1)` is the lowest `w` bits.
pub bit_and-low : (w a : ℕ) → bit_and a (2 ^ w - 1) ≡ a % 2 ^ w
bit_and-low zero a = omega (arith, bit_and-zero a)
bit_and-low (suc w) a =
    let half : (2 ^ suc w - 1) / 2 ≡ 2 ^ w - 1 = omega (arith, pow-suc 2 w) in
    let rest = ap (bit_and (a / 2)) half ∙ bit_and-low w (a / 2) in
    let p = 2 ^ w in
    let double : 2 ^ suc w ≡ 2 * p = omega (arith, pow-suc 2 w) in
    let positive : 1 ≤ p = one-le-pow w 2 (omega arith) in
    let digit : a % (2 * p) ≡ (a / 2 % p) * 2 + a % 2 = omega (
      arith,
      div-add-mod a (2 * p),
      div-add-mod (a / 2) p,
      div-div-eq-div-mul a 2 p,
      ap (λ (q : ℕ). 2 * p * q) (div-div-eq-div-mul a 2 p),
      ap (λ (q : ℕ). p * q) (div-div-eq-div-mul a 2 p),
      mul_assoc 2 p (a / (2 * p)),
    ) in
    omega
      (arith, positive, rest, ap (λ (q : ℕ). a % q) double, digit, bit_and-halves a (2 ^ suc w - 1))
