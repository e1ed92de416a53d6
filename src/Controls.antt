-- ===== src/Controls.antt =====
-- The `main` functions of src/main.c, src/wg_crypto_probe.c and src/wg_handshake_probe.c: the display is
-- set up, the probe runs once, and again when CROSS is pressed, up to when START is. What
-- sceCtrlPeekBufferPositive reads, one number of 32 bits for each round, is a list; `none` says that
-- the program still runs at its end. `State` is everything that the probe and the display keep.
pub mod Edges
use Prim.Native.Nat.{bit_and}
use moonlight_tailscale_vita.Common.{
  ℕ, ◌-◌, ◌^◌, Bool, true, false, not, Option, none, some, List, [], ◌∷◌, ℤ, pos, neg, is_neg, ◌==◌,
  if◌then◌else◌,
}

-- SCE_CTRL_START and SCE_CTRL_CROSS of the console's SDK are the bits `start` and `cross`. `load_font`
-- is whether there is a font. `show` is `render` with the delay of a round, where it has one.
pub record App (State : Type 0) : Type 0 where
  pub start : ℕ
  pub cross : ℕ
  pub vita2d_init : State → ℤ × State
  pub vita2d_fini : State → State
  pub load_module : State → ℤ × State
  pub unload_module : State → State
  pub load_font : State → Bool × State
  pub free_font : State → State
  pub run_probe : State → State
  pub show : State → State
  pub close_log : State → State
  pub cleanup_network : State → State

-- `(current & ~previous & button) != 0`
unfoldable pub is_pressed : (button previous current : ℕ) → Bool
is_pressed button previous current =
    not (bit_and (bit_and current (2 ^ 32 - 1 - previous)) button == 0)

module _ {State : Type 0} (x : App State) where
  -- A round: whether the loop goes on. In src/main.c START comes first.
  unfoldable pub main_round : (previous current : ℕ) → State → Bool × State
  main_round previous current s =
      if is_pressed (2 ^ x.start) previous current
      then (false, x.show s)
      else (if is_pressed (2 ^ x.cross) previous current
          then (true, x.show (x.run_probe s))
          else (true, x.show s))

  -- In the other two CROSS comes first, and START is asked for in any case.
  unfoldable pub repeat_round : (previous current : ℕ) → State → Bool × State
  repeat_round previous current s =
      let ran = if is_pressed (2 ^ x.cross) previous current then x.run_probe s else s in
      (not (is_pressed (2 ^ x.start) previous current), x.show ran)

  unfoldable pub main_loop : (previous : ℕ) → List ℕ → State → Option State
  unfolding main_round
  main_loop previous [] s = none
  main_loop previous (current ∷ readings) s =
      let (running, s') = main_round previous current s in
      let rest = main_loop current readings s' in if running then rest else some s'

  unfoldable pub repeat_loop : (previous : ℕ) → List ℕ → State → Option State
  unfolding repeat_round
  repeat_loop previous [] s = none
  repeat_loop previous (current ∷ readings) s =
      let (running, s') = repeat_round previous current s in
      let rest = repeat_loop current readings s' in if running then rest else some s'

  -- Of src/main.c.
  unfoldable pub main : List ℕ → State → Option (ℤ × State)
  unfolding main_loop
  main readings s =
      let (result, s1) = x.vita2d_init s in
      if is_neg result
      then some (result, s1)
      else (let (loaded, s2) = x.load_module s1 in
          if is_neg loaded
          then some (loaded, x.vita2d_fini s2)
          else (let (has_font, s3) = x.load_font s2 in
              if has_font
              then elim (main_loop 0 readings (x.run_probe s3)) [
                | none ↦ none
                | some s4 ↦ some (
                  pos 0,
                  x.vita2d_fini
                      (x.unload_module (x.free_font (x.cleanup_network (x.close_log s4)))),
                )
              ]
              else some (neg 1, x.vita2d_fini (x.unload_module s3))))

  -- Of src/wg_handshake_probe.c, and of src/wg_crypto_probe.c, which has no network to clean up.
  unfoldable pub main_repeating : List ℕ → State → Option (ℤ × State)
  unfolding repeat_loop
  main_repeating readings s =
      let (result, s1) = x.vita2d_init s in
      if is_neg result
      then some (neg 1, s1)
      else (let (has_font, s2) = x.load_font s1 in
          if has_font
          then elim (repeat_loop 0 readings (x.run_probe s2)) [
            | none ↦ none
            | some s3 ↦
                some (pos 0, x.vita2d_fini (x.free_font (x.cleanup_network (x.close_log s3))))
          ]
          else some (neg 1, x.vita2d_fini s2))
