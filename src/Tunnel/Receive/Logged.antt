-- ===== src/Tunnel/Receive/Logged.antt =====
-- Which rejections are logged.
use Prim.Native.Nat.{bit_and}
use native.Mathlib.Nat.{pow-suc, one-le-pow}
use moonlight_tailscale_vita.Common.{
  ℕ, zero, suc, ◌+◌, ◌-◌, ◌*◌, ◌/◌, ◌%◌, ◌^◌, ◌≤◌, ◌<◌, ◌≡◌, ◌↔◌, ◌⊎◌, ◌==◌, inl, inr, refl, sym,
  ap, ap₂, ◌∙◌, true, u64, leb, arith, bit_and-halves, Bool-cases,
}
use moonlight_tailscale_vita.Tunnel.Receive.{should_log_rejection}

bit_and_self : (w n : ℕ) → n < 2 ^ w → bit_and n n ≡ n
bit_and_self zero n h = let e : n ≡ 0 = omega arith in rw e refl
bit_and_self (suc w) n h =
    omega
      (arith, pow-suc 2 w, bit_and-halves n n, bit_and_self w (n / 2) (omega (arith, pow-suc 2 w)))

-- One power of two has one digit: taking one away leaves none of its digits.
abbrev pub IsPower : ℕ → Type 0
IsPower n = (k : ℕ) × (n ≡ 2 ^ k)

one_digit : (w n : ℕ) → n < 2 ^ w → 0 < n → bit_and n (n - 1) ≡ 0 → IsPower n
one_digit zero n h p e = absurd (omega arith)
one_digit (suc w) n h p e =
    let halves = bit_and-halves n (n - 1) in
    elim (Bool-cases (n % 2 == 0)) [
      | inl even ↦
          let m = n / 2 in
          let twice : n ≡ 2 * m = ground arith in
          let same' : (n - 1) / 2 ≡ m - 1 = omega arith in
          let rest =
            one_digit w m (omega (arith, pow-suc 2 w)) (ground arith)
              (omega (arith, halves, ap (bit_and m) same', e)) in
          (suc rest.0, omega (arith, pow-suc 2 rest.0, rest.1, twice))
      | inr odd ↦
          let same' : (n - 1) / 2 ≡ n / 2 = ground arith in
          (
            0,
            ground (
              arith,
              halves,
              ap (bit_and (n / 2)) same',
              bit_and_self (suc w) (n / 2) (omega arith),
              e,
            ),
          )
    ]

power_digit : (k : ℕ) → bit_and (2 ^ k) (2 ^ k - 1) ≡ 0
power_digit zero = refl
power_digit (suc k) =
    let p = 2 ^ k in
    let positive : 1 ≤ p = one-le-pow k 2 (omega arith) in
    let double : 2 ^ suc k ≡ 2 * p = omega (arith, pow-suc 2 k) in
    let high : 2 ^ suc k / 2 ≡ p = omega arith in
    let low : (2 ^ suc k - 1) / 2 ≡ p - 1 = omega arith in
    omega (
      arith,
      double,
      bit_and-halves (2 ^ suc k) (2 ^ suc k - 1),
      ap₂ bit_and high low,
      power_digit k,
    )

-- On 64 bits a rejection is logged if it is one of the first four, or its number is a power of two,
-- and otherwise not.
pub should_log_rejection_iff :
    (count : ℕ)
    → 0 < count
    → count < 2 ^ 64
    → (should_log_rejection count ≡ true) ↔ ((count ≤ 4) ⊎ IsPower count)
unfolding should_log_rejection
should_log_rejection_iff count p h =
    let before : u64 (count + (2 ^ 64 - 1)) ≡ count - 1 = omega arith in
    elim (Bool-cases (leb count 4)) [
      | inl few ↦ (λ t. inl (ground arith), λ t. rw few refl)
      | inr many ↦ (
        λ t. inr (one_digit 64 count h p (ap (bit_and count) (sym before) ∙ ground arith)),
        λ t. elim t [
          | inl few ↦ absurd (ground arith)
          | inr (k, e) ↦
              let digit : bit_and count (count - 1) ≡ 0 = rw e (power_digit k) in
              let all : bit_and count (u64 (count + (2 ^ 64 - 1))) ≡ 0 =
                ap (bit_and count) before ∙ digit in
              ground arith
        ],
      )
    ]
