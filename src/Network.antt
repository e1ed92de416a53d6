-- ===== src/Network.antt =====
-- `initialize_network` and `cleanup_network` of src/main.c, which src/wg_handshake_probe.c repeats:
-- the network module, its memory, SceNet and SceNetCtl, with a flag for each.
pub mod Levels
use moonlight_tailscale_vita.Common.{Bool, true, false, not, ℤ, pos, negsuc, is_neg, if◌then◌else◌}
use moonlight_tailscale_vita.Common.State.{State, ◌>>=◌, ◌>>◌, pure, get, modify}

-- The system's calls; `malloc` has whether there is a block, and `free_block` is `free` of one that
-- there is.
pub record Calls (World : Type 0) : Type 0 where
  pub load_module : World → ℤ × World
  pub unload_module : World → World
  pub malloc : World → Bool × World
  pub free_block : World → World
  pub net_init : World → ℤ × World
  pub net_term : World → World
  pub netctl_init : World → ℤ × World
  pub netctl_term : World → World

-- `g_net_module_loaded`, `g_net_initialized`, `g_netctl_initialized`, and `g_net_memory != NULL`.
pub record Network (World : Type 0) : Type 0 where
  pub module_loaded : Bool
  pub net_initialized : Bool
  pub netctl_initialized : Bool
  pub has_memory : Bool
  pub world : World

module _ {World : Type 0} (x : Calls World) where
  abbrev call : {A : Type 0} → (World → A × World) → State (Network World) A
  call f s = let (a, world') = f s.world in (a, record s { world = world' })

  abbrev call_only : (World → World) → State (Network World) (Unit {0})
  call_only f s = (tt, record s { world = f s.world })

  -- `free(g_net_memory)`, which does nothing on NULL, and `g_net_memory = NULL`.
  unfoldable pub free_memory : State (Network World) (Unit {0})
  free_memory s =
      if s.has_memory
      then (tt, record s { has_memory = false; world = x.free_block s.world })
      else (tt, s)

  unfoldable pub load : State (Network World) ℤ
  load = do
    s ← get
    if s.module_loaded then pure (pos 0) else do
      result ← call x.load_module
      if is_neg result
          then pure result
          else do modify (λ t. record t { module_loaded = true }); pure (pos 0)

  unfoldable pub start_net : State (Network World) ℤ
  unfolding free_memory
  start_net = do
    s ← get
    if s.net_initialized then pure (pos 0) else do
      allocated ← call x.malloc
      modify (λ t. record t { has_memory = allocated })
      if not allocated then pure (negsuc 0) else do
        result ← call x.net_init
        if is_neg result
            then (do free_memory; pure result)
            else do modify (λ t. record t { net_initialized = true }); pure (pos 0)

  unfoldable pub start_netctl : State (Network World) ℤ
  start_netctl = do
    s ← get
    if s.netctl_initialized then pure (pos 0) else do
      result ← call x.netctl_init
      if is_neg result
          then pure result
          else do modify (λ t. record t { netctl_initialized = true }); pure (pos 0)

  -- The three tests in their order, each with its early return.
  unfoldable pub initialize_network : State (Network World) ℤ
  initialize_network = do
    loaded ← load
    if is_neg loaded
        then pure loaded
        else do started ← start_net; if is_neg started then pure started else start_netctl

  unfoldable pub stop_netctl : State (Network World) (Unit {0})
  stop_netctl s =
      if s.netctl_initialized
      then (tt, record s { netctl_initialized = false; world = x.netctl_term s.world })
      else (tt, s)

  unfoldable pub stop_net : State (Network World) (Unit {0})
  stop_net s =
      if s.net_initialized
      then (tt, record s { net_initialized = false; world = x.net_term s.world })
      else (tt, s)

  unfoldable pub unload : State (Network World) (Unit {0})
  unload s =
      if s.module_loaded
      then (tt, record s { module_loaded = false; world = x.unload_module s.world })
      else (tt, s)

  unfoldable pub cleanup_network : State (Network World) (Unit {0})
  cleanup_network = do stop_netctl; stop_net; free_memory; unload
