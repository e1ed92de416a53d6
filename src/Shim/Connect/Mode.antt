-- ===== src/Shim/Connect/Mode.antt =====
-- The blocking mode of a descriptor across `__wrap_connect`.
use Prim.Native.Nat.{bit_and}
use moonlight_tailscale_vita.Common.{ℕ, [], ◌∷◌, ℤ, pos, negsuc, ◌≡◌, ◌≢◌, ◌⊎◌}
use moonlight_tailscale_vita.Shim.{connect, fcntl, PollFd, Os, Stacks, Shim, connect_wait_ms}

-- What is taken of lwIP: F_GETFL reads the descriptor's flags, F_SETFL sets them or fails and leaves
-- them, nothing else that the shim calls changes them, and only a nonblocking connect is ever in
-- progress.
pub record KeepsMode {World : Type 0} (x : Stacks World) (fd : ℤ) (mode : World → ℕ) : Type 0 where
  pub getfl :
      (os : Os World)
      → ((x.lwip (fcntl fd x.f_getfl 0) os).0 ≡ pos (mode os.world))
        × (mode (x.lwip (fcntl fd x.f_getfl 0) os).1.world ≡ mode os.world)
  pub setfl :
      (v : ℕ) (os : Os World)
      → (((x.lwip (fcntl fd x.f_setfl v) os).0 ≡ pos 0)
          × (mode (x.lwip (fcntl fd x.f_setfl v) os).1.world ≡ v))
        ⊎ (((x.lwip (fcntl fd x.f_setfl v) os).0 ≡ negsuc 0)
            × (mode (x.lwip (fcntl fd x.f_setfl v) os).1.world ≡ mode os.world)
            × ((x.lwip (fcntl fd x.f_setfl v) os).1.errno ≢ x.einprogress))
  pub connects :
      (a n : ℕ) (os : Os World) → mode (x.lwip (connect fd a n) os).1.world ≡ mode os.world
  pub in_progress :
      (a n : ℕ) (os : Os World)
      → bit_and (mode os.world) x.o_nonblock ≡ 0
      → (x.lwip (connect fd a n) os).1.errno ≢ x.einprogress
  pub polls :
      (d : PollFd) (os : Os World)
      → mode (x.lwip_poll (d ∷ []) (pos connect_wait_ms) os).2.world ≡ mode os.world
  pub asks_error : (os : Os World) → mode (x.lwip_so_error fd os).2.world ≡ mode os.world
  pub traces : (os : Os World) → mode (x.trace os).world ≡ mode os.world

module _ {World : Type 0} (x : Stacks World) (fd : ℤ) (mode : World → ℕ)
    (k : KeepsMode x fd mode) where
  abbrev mode_in : Shim World → ℕ
  mode_in s = mode s.os.world
