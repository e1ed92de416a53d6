-- ===== src/Controls/Edges.antt =====
-- When a button counts as pressed, and when the programs end.
use Prim.Native.Nat.{bit_and}
use native.Mathlib.Nat.{pow-suc, one-le-pow}
use moonlight_tailscale_vita.Common.{
  ℕ, zero, suc, ◌-◌, ◌*◌, ◌/◌, ◌%◌, ◌^◌, ◌≤◌, ◌<◌, min, Bool, true, false, not, Option, none, some,
  List, [], ◌∷◌, All, ◌==◌, ==_iff, ◌≢◌, ◌⊎◌, if◌then◌else◌, ◌≡◌, ◌↔◌, refl, ap, ◌∙◌, arith,
  bit_and-halves, bit_and-low, inl, inr,
}
use moonlight_tailscale_vita.Controls.{
  App, is_pressed, main_round, repeat_round, main_loop, repeat_loop,
}

-- The digit `k` of a number in base two.
abbrev pub bit : (k n : ℕ) → ℕ
bit zero n = n % 2
bit (suc k) n = bit k (n / 2)

-- The button goes down: it is up in the first reading and down in the second.
abbrev pub Rises : (button previous current : ℕ) → Type 0
Rises button previous current = (bit button previous ≡ 0) × (bit button current ≡ 1)

bit-binary : (k n : ℕ) → bit k n ≤ 1
bit-binary zero n = omega arith
bit-binary (suc k) n = bit-binary k (n / 2)

bit-bit_and : (k a b : ℕ) → bit k (bit_and a b) ≡ min (bit k a) (bit k b)
bit-bit_and zero a b = omega (arith, bit_and-halves a b)
bit-bit_and (suc k) a b =
    let half : bit_and a b / 2 ≡ bit_and (a / 2) (b / 2) = omega (arith, bit_and-halves a b) in
    ap (bit k) half ∙ bit-bit_and k (a / 2) (b / 2)

bit-complement : (k w n : ℕ) → k < w → n < 2 ^ w → bit k (2 ^ w - 1 - n) ≡ 1 - bit k n
bit-complement k zero n less small = absurd (omega arith)
bit-complement zero (suc w) n less small = omega (arith, pow-suc 2 w, one-le-pow w 2 (omega arith))
bit-complement (suc k) (suc w) n less small =
    let half : (2 ^ suc w - 1 - n) / 2 ≡ 2 ^ w - 1 - n / 2 = omega (arith, pow-suc 2 w) in
    ap (bit k) half ∙ bit-complement k w (n / 2) (omega arith) (omega (arith, pow-suc 2 w))

bit_and-power : (k a : ℕ) → bit_and a (2 ^ k) ≡ bit k a * 2 ^ k
bit_and-power zero a = omega (arith, bit_and-low 1 a)
bit_and-power (suc k) a =
    let half : 2 ^ suc k / 2 ≡ 2 ^ k = omega (arith, pow-suc 2 k) in
    let rest = ap (bit_and (a / 2)) half ∙ bit_and-power k (a / 2) in
    omega (
      arith,
      bit_and-halves a (2 ^ suc k),
      rest,
      pow-suc 2 k,
      ap (λ (p : ℕ). bit k (a / 2) * p) (pow-suc 2 k),
    )

Nat_cases : (n : ℕ) → n ≤ 1 → (n ≡ 0) ⊎ (n ≡ 1)
Nat_cases n h = ground arith

-- A button counts as pressed exactly if it goes down between the two readings.
is_pressed_iff :
    (k previous current : ℕ)
    → k < 32
    → previous < 2 ^ 32
    → (is_pressed (2 ^ k) previous current ≡ true) ↔ Rises k previous current
unfolding is_pressed
is_pressed_iff k previous current h small =
    let masked = bit_and current (2 ^ 32 - 1 - previous) in
    let b = bit-bit_and k current (2 ^ 32 - 1 - previous) in
    let c = bit-complement k 32 previous h small in
    let p = bit_and-power k masked in
    let up = bit-binary k current in
    let was = bit-binary k previous in
    let positive = one-le-pow k 2 (omega arith) in
    elim (Nat_cases (bit k masked) (omega (arith, b, up))) [
      | inl zero' ↦
          let none' : (bit_and masked (2 ^ k) == 0) ≡ true =
            (==_iff (bit_and masked (2 ^ k)) 0).1
              (omega (arith, p, ap (λ (v : ℕ). v * 2 ^ k) zero')) in
          (
            λ e. absurd (ground (arith, e, none')),
            λ (low, high). absurd (omega (arith, b, c, zero', low, high)),
          )
      | inr one' ↦
          let some' : bit_and masked (2 ^ k) ≢ 0 =
            λ q. omega (arith, q, p, ap (λ (v : ℕ). v * 2 ^ k) one', positive) in
          (
            λ _. (omega (arith, b, c, one', up, was), omega (arith, b, c, one', up, was)),
            λ _. ground (arith, some'),
          )
    ]

-- No reading up to the last has the button go down.
abbrev pub Waits : (button previous : ℕ) → List ℕ → Type 0
Waits button previous [] = Unit
Waits button previous (current ∷ readings) =
    ¬ Rises button previous current × Waits button current readings

-- A round that goes on unless the button goes down, in front of the others.
one_round :
    {State : Type 0} {Edge Later : Type 0} (pressed running : Bool) (rest : Option State)
    (last : State)
    → (pressed ≡ true) ↔ Edge
    → running ≡ not pressed
    → (rest ≡ none) ↔ Later
    → ((if running then rest else some last) ≡ none) ↔ (¬ Edge × Later)
one_round true running rest last edge e later =
    rw e (λ q. absurd (ground (arith, q)), λ (no_edge, _). absurd (no_edge (edge.0 refl)))
one_round false running rest last edge e later =
    rw e (λ q. (λ held. absurd (ground (arith, edge.1 held)), later.0 q), λ (_, l). later.1 l)

module _ {State : Type 0} (x : App State) where
  main_round-running :
      (previous current : ℕ) (s : State)
      → (main_round x previous current s).0 ≡ not (is_pressed (2 ^ x.start) previous current)
  unfolding main_round
  main_round-running previous current s = ground arith

  -- Both kinds of program still run exactly while START has not gone down; whatever the probe does.
  pub main_loop_iff :
      x.start < 32
      → (readings : List ℕ) (previous : ℕ) (s : State) → previous < 2 ^ 32
      → All (λ n. n < 2 ^ 32) readings
      → ((main_loop x previous readings s ≡ none) ↔ Waits x.start previous readings)
        × ((repeat_loop x previous readings s ≡ none) ↔ Waits x.start previous readings)
  unfolding main_loop repeat_loop main_round repeat_round
  main_loop_iff h [] previous s small fine = ((λ _. tt, λ _. refl), (λ _. tt, λ _. refl))
  main_loop_iff h (current ∷ readings) previous s small (fine, fines) =
      let edge = is_pressed_iff x.start previous current h small in
      let after = main_loop_iff h readings current in
      (
        one_round (is_pressed (2 ^ x.start) previous current) (main_round x previous current s).0 _
            _ edge (main_round-running previous current s)
            (after (main_round x previous current s).1 fine fines).0,
        one_round (is_pressed (2 ^ x.start) previous current) (repeat_round x previous current s).0
            _ _ edge refl (after (repeat_round x previous current s).1 fine fines).1,
      )
