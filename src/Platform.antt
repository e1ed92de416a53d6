-- ===== src/Platform.antt =====
-- src/wireguard_platform_vita.c: what the WireGuard library asks of the platform. `World` is the
-- state behind the kernel's calls. A clock in microseconds is read as 64 bits.
pub mod Stamp
pub mod Random
use moonlight_tailscale_vita.Common.{
  ℕ, ◌+◌, ◌*◌, ◌/◌, ◌%◌, ◌^◌, Bool, false, [], ◌∷◌, ◌++◌, Bytes, ℤ, is_neg, if◌then◌else◌,
  replicate, get_or, u8, u32, u64,
}

-- sceKernelGetRandomNumber (its result and the bytes that the buffer then holds, whatever it
-- returned), the process clock, and `time(NULL)`.
pub record Kernel (World : Type 0) : Type 0 where
  pub random_number : (size : ℕ) → World → ℤ × Bytes × World
  pub process_time : World → ℕ
  pub wall_time : World → ℕ

-- `g_random_error` and what the kernel keeps.
pub record Platform (World : Type 0) : Type 0 where
  pub random_error : ℤ
  pub world : World

-- `U64TO8_BIG` and `U32TO8_BIG`
abbrev pub u32_to_8_big : ℕ → Bytes
u32_to_8_big n = u8 (n / 2 ^ 24) ∷ u8 (n / 2 ^ 16) ∷ u8 (n / 2 ^ 8) ∷ u8 n ∷ []

abbrev pub u64_to_8_big : ℕ → Bytes
u64_to_8_big n = u32_to_8_big (n / 2 ^ 32) ++ u32_to_8_big (u32 n)

module _ {World : Type 0} (x : Kernel World) where
  abbrev pub tsvita_wireguard_random_error : Platform World → ℤ
  tsvita_wireguard_random_error p = p.random_error

  -- `wireguard_sys_now`, and `sys_now` where lwIP has none: milliseconds on 32 bits.
  unfoldable pub wireguard_sys_now : World → ℕ
  wireguard_sys_now w = u32 (u64 (x.process_time w) / 1000)

  -- The bytes that `bytes` holds afterwards.
  unfoldable pub wireguard_random_bytes : (size : ℕ) → Platform World → Bytes × Platform World
  wireguard_random_bytes size p =
      let (result, bytes, world') = x.random_number size p.world in
      if is_neg result
      then (replicate size 0, record { random_error = result; world = world' })
      else (bytes, record p { world = world' })

  -- `uint32_t` of the four bytes, the least significant first.
  unfoldable pub tsvita_lwip_rand : Platform World → ℕ × Platform World
  unfolding wireguard_random_bytes
  tsvita_lwip_rand p =
      let (b, p') = wireguard_random_bytes 4 p in
      (get_or b 0 0 + get_or b 1 0 * 2 ^ 8 + get_or b 2 0 * 2 ^ 16 + get_or b 3 0 * 2 ^ 24, p')

  unfoldable pub wireguard_tai64n_now : World → Bytes
  wireguard_tai64n_now w =
      let seconds = u64 (0x400000000000000a + u64 (x.wall_time w)) in
      let nanos = u32 (u64 (x.process_time w) % 1000000 * 1000) in
      u64_to_8_big seconds ++ u32_to_8_big nanos

unfoldable pub wireguard_is_under_load : Bool
wireguard_is_under_load = false
