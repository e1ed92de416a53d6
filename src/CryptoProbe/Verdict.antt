-- ===== src/CryptoProbe/Verdict.antt =====
-- What the report says at the end of the diagnosis.
use moonlight_tailscale_vita.Common.{
  ℕ, ◌-◌, ◌/◌, Bool, true, ◌&&◌, List, [], ◌∷◌, ℤ, is_neg, int_is, ◌||◌, if◌then◌else◌, take,
}
use moonlight_tailscale_vita.CryptoProbe.{
  Device, ProbeLine, Saying, blake2s_vector, x25519_vector, aead_roundtrip, noise_initiation,
  kernel_random, memory, line_length,
}
use moonlight_tailscale_vita.CryptoProbe.Run.{Crypto, difference}

-- How the five tests ended: with the three times, and the code of the random numbers, as printed.
pub record Results : Type 0 where
  pub blake2s : Bool
  pub x25519 : Bool
  pub x25519_time : ℕ
  pub aead : Bool
  pub aead_time : ℕ
  pub noise : Bool
  pub noise_time : ℕ
  pub random_code : ℤ

abbrev pub all_passed : Results → Bool
all_passed t = t.blake2s && t.x25519 && t.aead && t.noise && int_is t.random_code 0

module _ {World : Type 0} (x : Device World) (c : Crypto World) where
  abbrev pub probe_line : Bool → Saying → ProbeLine
  probe_line ok saying = record { ok = ok; text = take (line_length - 1) (x.format saying) }

  abbrev pub test_lines : Results → List ProbeLine
  test_lines t =
      probe_line t.blake2s (blake2s_vector t.blake2s)
      ∷ probe_line t.x25519 (x25519_vector t.x25519 t.x25519_time)
      ∷ probe_line t.aead (aead_roundtrip t.aead t.aead_time)
      ∷ probe_line t.noise (noise_initiation t.noise t.noise_time)
      ∷ probe_line (int_is t.random_code 0) (kernel_random t.random_code)
      ∷ []

  -- The line on the memory, if the system gave it before and after.
  abbrev pub memory_lines : ℤ × ℕ → ℤ × ℕ → List ProbeLine
  memory_lines before after =
      if is_neg before.0 || is_neg after.0
      then []
      else probe_line true (
          memory (before.1 / 1024 / 1024) (after.1 / 1024 / 1024) (difference x c before.1 after.1))
        ∷ []
