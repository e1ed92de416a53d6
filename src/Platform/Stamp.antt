-- ===== src/Platform/Stamp.antt =====
-- The time stamps of handshakes, which a peer compares byte by byte.
use moonlight_tailscale_vita.Common.{
  ℕ, suc, ◌+◌, ◌*◌, ◌/◌, ◌%◌, ◌^◌, ◌≤◌, ◌<◌, [], ◌∷◌, ◌++◌, Bytes, Bool, true, false, ltb, ◌==◌,
  ◌&&◌, ◌||◌, ◌≡◌, ◌↔◌, ◌⊎◌, inl, inr, refl, sym, ap, ◌∙◌, arith, u8, u32, u64,
}
use native.Mathlib.Nat.{mul-le-mul_right, suc-mul}
use moonlight_tailscale_vita.Platform.{Kernel, u32_to_8_big, wireguard_tai64n_now}

-- `memcmp(a, b, n) < 0` of two stamps of the same length.
abbrev pub comes_before : Bytes → Bytes → Bool
comes_before (a ∷ as') (b ∷ bs) = ltb a b || a == b && comes_before as' bs
comes_before _ _ = false

-- How a first digit decides, in front of `m` and `n` below `p`; `rest` decides between these.
Nat_cases : (a b : ℕ) → (suc a ≤ b) ⊎ ((a ≡ b) ⊎ (suc b ≤ a))
Nat_cases a b = ground arith

by_digit :
    (p a b m n : ℕ) (rest more : Bool)
    → m < p
    → n < p
    → ((rest ≡ true) ↔ ((m < n) ⊎ ((m ≡ n) × (more ≡ true))))
    → ((ltb a b || a == b && rest) ≡ true)
      ↔ ((a * p + m < b * p + n) ⊎ ((a * p + m ≡ b * p + n) × (more ≡ true)))
by_digit p a b m n rest more h k r = elim (Nat_cases a b) [
  | inl less ↦
      let far : suc a * p ≤ b * p = mul-le-mul_right p less in
      let near : suc a * p ≡ a * p + p = omega (arith, suc-mul a p) in
      let test : ltb a b ≡ true = ground arith in
      (λ e. inl (omega (arith, far, near)), λ e. rw test refl)
  | inr (inl same') ↦
      let tests : (ltb a b ≡ false) × ((a == b) ≡ true) = ground arith in
      let product : a * p ≡ b * p = ap (λ (q : ℕ). q * p) same' in
      rw tests.0 (
        rw tests.1 (
          (λ e. elim (r.0 e) [
            | inl l ↦ inl (omega (arith, product))
            | inr (q, u) ↦ inr (omega (arith, product), u)
          ]),
          (λ e. r.1 (elim e [
            | inl l ↦ inl (omega (arith, product))
            | inr (q, u) ↦ inr (omega (arith, product), u)
          ])),
        ))
  | inr (inr more') ↦
      let far : suc b * p ≤ a * p = mul-le-mul_right p more' in
      let near : suc b * p ≡ b * p + p = omega (arith, suc-mul b p) in
      let tests : (ltb a b ≡ false) × ((a == b) ≡ false) = ground arith in
      (
        (λ e. absurd (ground arith)),
        (λ e. elim e [
          | inl l ↦ absurd (omega (arith, far, near))
          | inr (q, u) ↦ absurd (omega (arith, far, near))
        ]),
      )
]

-- Two words of 32 bits, in front of `r` and `s`.
before_32 :
    (m n : ℕ) (r s : Bytes)
    → m < 2 ^ 32
    → n < 2 ^ 32
    → (comes_before (u32_to_8_big m ++ r) (u32_to_8_big n ++ s) ≡ true)
      ↔ ((m < n) ⊎ ((m ≡ n) × (comes_before r s ≡ true)))
before_32 m n r s h k =
    let t = comes_before r s in
    let m0 = u8 m * 1 + 0 in
    let n0 = u8 n * 1 + 0 in
    let m1 = u8 (m / 2 ^ 8) * 256 + m0 in
    let n1 = u8 (n / 2 ^ 8) * 256 + n0 in
    let m2 = u8 (m / 2 ^ 16) * 65536 + m1 in
    let n2 = u8 (n / 2 ^ 16) * 65536 + n1 in
    let l0 =
      by_digit 1 (u8 m) (u8 n) 0 0 t t (omega arith) (omega arith)
        (λ e. inr (refl, e), λ e. elim e [ inl z ↦ absurd (omega arith) | inr (z, u) ↦ u ]) in
    let l1 =
      by_digit 256 (u8 (m / 2 ^ 8)) (u8 (n / 2 ^ 8)) m0 n0 _ t (omega arith) (omega arith) l0 in
    let l2 =
      by_digit 65536 (u8 (m / 2 ^ 16)) (u8 (n / 2 ^ 16)) m1 n1 _ t (omega arith) (omega arith) l1 in
    let l3 =
      by_digit 16777216 (u8 (m / 2 ^ 24)) (u8 (n / 2 ^ 24)) m2 n2 _ t (omega arith) (omega arith)
        l2 in
    let em : u8 (m / 2 ^ 24) * 16777216 + m2 ≡ m = omega arith in
    let en : u8 (n / 2 ^ 24) * 16777216 + n2 ≡ n = omega arith in
    (
      (λ e. elim (l3.0 e) [
        | inl z ↦ inl (omega (arith, em, en))
        | inr (z, u) ↦ inr (sym em ∙ z ∙ en, u)
      ]),
      (λ e.
          l3.1 (elim e [
            | inl z ↦ inl (omega (arith, em, en))
            | inr (z, u) ↦ inr (em ∙ z ∙ sym en, u)
          ])),
    )

module _ {World : Type 0} (x : Kernel World) where
  -- For wall clocks below 2^62 seconds: a peer takes the stamp made in `w` for newer than the one made
  -- in `v` exactly if the wall clock shows a later second in `w`, or the same second and the process
  -- clock is further in a second of its own, which may begin at another moment.
  pub wireguard_tai64n_now_iff :
      (v w : World)
      → x.wall_time v < 2 ^ 62
      → x.wall_time w < 2 ^ 62
      → (comes_before (wireguard_tai64n_now x v) (wireguard_tai64n_now x w) ≡ true) ↔ (
          (x.wall_time v < x.wall_time w)
          ⊎ ((x.wall_time v ≡ x.wall_time w)
              × (u64 (x.process_time v) % 1000000 < u64 (x.process_time w) % 1000000)))
  unfolding wireguard_tai64n_now
  wireguard_tai64n_now_iff v w h k =
      let a = u64 (0x400000000000000a + u64 (x.wall_time v)) in
      let b = u64 (0x400000000000000a + u64 (x.wall_time w)) in
      let p = u64 (x.process_time v) % 1000000 in
      let q = u64 (x.process_time w) % 1000000 in
      let m = u32 (p * 1000) in
      let n = u32 (q * 1000) in
      let em : m ≡ p * 1000 = omega arith in
      let en : n ≡ q * 1000 = omega arith in
      let ea : a ≡ 0x400000000000000a + x.wall_time v = omega arith in
      let eb : b ≡ 0x400000000000000a + x.wall_time w = omega arith in
      let ra = u32_to_8_big m in
      let rb = u32_to_8_big n in
      let high =
        before_32 (a / 2 ^ 32) (b / 2 ^ 32) (u32_to_8_big (u32 a) ++ ra)
          (u32_to_8_big (u32 b) ++ rb) (omega arith) (omega arith) in
      let low = before_32 (u32 a) (u32 b) ra rb (omega arith) (omega arith) in
      let nanos = before_32 m n [] [] (omega arith) (omega arith) in
      (
        (λ e. elim (high.0 e) [
          | inl l ↦ inl (omega (arith, ea, eb))
          | inr (z, f) ↦ elim (low.0 f) [
            | inl l ↦ inl (omega (arith, ea, eb))
            | inr (y, g) ↦ elim (nanos.0 g) [
              | inl l ↦ inr (omega (arith, ea, eb), omega (arith, em, en))
              | inr (u, g') ↦ absurd (ground arith)
            ]
          ]
        ]),
        (λ e. high.1 (elim e [
          | inl l ↦ elim (Nat_cases (a / 2 ^ 32) (b / 2 ^ 32)) [
            | inl z ↦ inl z
            | inr (inl z) ↦ inr (z, low.1 (inl (omega (arith, ea, eb))))
            | inr (inr z) ↦ absurd (omega (arith, ea, eb))
          ]
          | inr (s, f) ↦ inr (
            omega (arith, ea, eb),
            low.1 (inr (omega (arith, ea, eb), nanos.1 (inl (omega (arith, em, en))))),
          )
        ])),
      )
