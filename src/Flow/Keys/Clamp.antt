-- ===== src/Flow/Keys/Clamp.antt =====
-- The form of a new key.
use Prim.Native.Nat.{bit_and, bit_or, max, ◌^◌}
use native.Mathlib.Nat.{pow-suc}
use moonlight_tailscale_vita.Common.{
  ℕ, zero, suc, ◌+◌, ◌*◌, ◌/◌, ◌%◌, ◌≤◌, ◌<◌, bit_and-halves, bit_and-low, bit_or-halves,
  zero-bit_or, [], ◌∷◌, Bytes, true, false, not, is_neg, length, get_or, set, u64, u8, ◌≡◌, refl,
  sym, ap, ◌∙◌, arith, Bool-cases, inl, inr,
}
use moonlight_tailscale_vita.Flow.Keys.{
  Disk, private_key, temporary, clamp, write_exact_file, create_key, load_or_create_private_key,
}

-- The three lowest bits of the key's first byte are clear, and of the last byte the highest is clear and
-- the one below it is set.
pub record IsClamped (key : Bytes) : Type 0 where
  first : get_or key 0 0 % 8 ≡ 0
  last_set : 64 ≤ get_or key 31 0
  last_clear : get_or key 31 0 < 128

low_clear : (a : ℕ) → bit_and a 248 % 8 ≡ 0
low_clear a =
    omega (arith, bit_and-halves a 248, bit_and-halves (a / 2) 124, bit_and-halves (a / 2 / 2) 62)

or_power : (k a : ℕ) → a < 2 ^ suc k → (2 ^ k ≤ bit_or a (2 ^ k)) × (bit_or a (2 ^ k) < 2 ^ suc k)
or_power zero zero h = (omega (arith, zero-bit_or 1), omega (arith, zero-bit_or 1))
or_power zero (suc zero) h = (omega arith, omega arith)
or_power zero (suc (suc a)) h = absurd (omega arith)
or_power (suc k) a h =
    let halves = bit_or-halves a (2 ^ suc k) in
    let half : 2 ^ suc k / 2 ≡ 2 ^ k = omega (arith, pow-suc 2 k) in
    let rest = or_power k (a / 2) (omega (arith, pow-suc 2 (suc k))) in
    let whole : bit_or a (2 ^ suc k) ≡ bit_or (a / 2) (2 ^ k) * 2 + max (a % 2) (2 ^ suc k % 2) =
      halves ∙ ap (λ (p : ℕ). bit_or (a / 2) p * 2 + max (a % 2) (2 ^ suc k % 2)) half in
    (
      omega (arith, whole, rest.0, rest.1, pow-suc 2 k, pow-suc 2 (suc k)),
      omega (arith, whole, rest.0, rest.1, pow-suc 2 k, pow-suc 2 (suc k)),
    )

get_or-set : (xs : Bytes) (i v : ℕ) → i < length xs → get_or (set xs i v) i 0 ≡ v
get_or-set [] i v h = absurd (omega arith)
get_or-set (x ∷ xs) zero v h = refl
get_or-set (x ∷ xs) (suc i) v h = get_or-set xs i v (omega arith)

clamp-IsClamped : (key : Bytes) → length key ≡ 32 → IsClamped (clamp key)
unfolding clamp
clamp-IsClamped [] size = absurd (omega arith)
clamp-IsClamped (x ∷ key) size =
    let low = bit_and (get_or (bit_and x 248 ∷ key) 31 0) 127 in
    let last = get_or-set (bit_and x 248 ∷ key) 31 (u8 (bit_or low 64)) (omega arith) in
    let masked = bit_and-low 7 (get_or (bit_and x 248 ∷ key) 31 0) in
    let seven = or_power 6 low (omega (arith, masked)) in
    record {
      first = low_clear x;
      last_set = omega (arith, last, seven.0, seven.1);
      last_clear = omega (arith, last, seven.0, seven.1);
    }

module _ {World : Type 0} (x : Disk World) where
  create_key-IsClamped :
      (w : World)
      → ((n : ℕ) (v : World) → length (x.random_number n v).1 ≡ n)
      → is_neg (create_key x w).0.0 ≡ false
      → IsClamped (create_key x w).0.1
  unfolding create_key
  create_key-IsClamped w sized h =
      let (random_result, random, w1) = x.random_number 32 w in
      let place = temporary (u64 (x.process_time w1)) in
      let (written, w2) = write_exact_file x place (clamp random) 0x180 w1 in
      let done = clamp-IsClamped random (sized 32 w) in
      elim (Bool-cases (is_neg random_result)) [
        | inl e ↦ absurd (ground (arith, e, h))
        | inr e ↦ elim (Bool-cases (is_neg written)) [
          | inl e' ↦ rw e (rw e' done)
          | inr e' ↦ elim (Bool-cases (is_neg (x.rename place private_key w2).0)) [
            | inl e'' ↦ rw e (rw e' (rw e'' done))
            | inr e'' ↦ rw e (rw e' (rw e'' done))
          ]
        ]
      ]

  -- A buffer of random bytes has the size that was asked for: a key that the probe creates is
  -- clamped as X25519 wants it.
  pub load_or_create_private_key-IsClamped :
      ((n : ℕ) (v : World) → length (x.random_number n v).1 ≡ n)
      → (w : World) → (load_or_create_private_key x w).0.2 ≡ true
      → IsClamped (load_or_create_private_key x w).0.1
  unfolding load_or_create_private_key
  load_or_create_private_key-IsClamped sized w h =
      let (file, w1) = x.open_read private_key w in
      let (found, w2) = x.stat private_key w1 in
      elim (Bool-cases (is_neg file)) [
        | inl e ↦ elim (Bool-cases (is_neg found)) [
          | inl e' ↦
              let made : not (is_neg (create_key x w2).0.0) ≡ true = sym (rw e (rw e' refl)) ∙ h in
              rw e (rw e' (create_key-IsClamped w2 sized (ground (arith, made))))
          | inr e' ↦ absurd (ground (arith, e, e', h))
        ]
        | inr e ↦ absurd (ground (arith, e, h))
      ]
