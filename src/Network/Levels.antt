-- ===== src/Network/Levels.antt =====
-- The network as a stack of four things that the system holds for the program.
use moonlight_tailscale_vita.Common.{
  ℕ, true, false, List, [], ◌∷◌, is_neg, if◌then◌else◌, ◌≡◌, inl, inr, refl, arith, Bool-cases,
}
use moonlight_tailscale_vita.Network.{
  Calls, Network, load, start_net, start_netctl, initialize_network, stop_netctl, stop_net,
  free_memory, unload, cleanup_network,
}

-- What is taken of the system: it holds 0 to 4 of the module, the memory, SceNet and SceNetCtl, in
-- this order. A call that is made where it belongs takes one step, or fails and takes none; nothing
-- is said of a call that is made anywhere else.
pub record KeepsLevels {World : Type 0} (x : Calls World) (level : World → ℕ) : Type 0 where
  pub loads :
      (w : World)
      → level w ≡ 0
      → level (x.load_module w).1 ≡ (if is_neg (x.load_module w).0 then 0 else 1)
  pub allocates :
      (w : World) → level w ≡ 1 → level (x.malloc w).1 ≡ (if (x.malloc w).0 then 2 else 1)
  pub starts :
      (w : World)
      → level w ≡ 2
      → level (x.net_init w).1 ≡ (if is_neg (x.net_init w).0 then 2 else 3)
  pub connects :
      (w : World)
      → level w ≡ 3
      → level (x.netctl_init w).1 ≡ (if is_neg (x.netctl_init w).0 then 3 else 4)
  pub disconnects : (w : World) → level w ≡ 4 → level (x.netctl_term w) ≡ 3
  pub stops : (w : World) → level w ≡ 3 → level (x.net_term w) ≡ 2
  pub frees : (w : World) → level w ≡ 2 → level (x.free_block w) ≡ 1
  pub unloads : (w : World) → level w ≡ 1 → level (x.unload_module w) ≡ 0

module _ {World : Type 0} (x : Calls World) (level : World → ℕ) (k : KeepsLevels x level) where
  -- The flags say what the system holds; between two calls the memory is never held alone.
  pub record Agrees (s : Network World) : Type 0 where
    pub held : level s.world ≡ (
        if s.netctl_initialized
        then 4
        else if s.net_initialized
        then 3
        else if s.module_loaded
        then 1
        else 0)
    pub memory : s.has_memory ≡ s.net_initialized
    pub net_needs : s.net_initialized ≡ true → s.module_loaded ≡ true
    pub netctl_needs : s.netctl_initialized ≡ true → s.net_initialized ≡ true

  load-Agrees :
      (s : Network World)
      → Agrees s
      → Agrees (load x s).1 × (is_neg (load x s).0 ≡ false → (load x s).1.module_loaded ≡ true)
  unfolding load
  load-Agrees s a = ground (arith, k.loads s.world)

  start_net-Agrees :
      (s : Network World)
      → Agrees s
      → s.module_loaded ≡ true
      → Agrees (start_net x s).1
        × (is_neg (start_net x s).0 ≡ false → (start_net x s).1.net_initialized ≡ true)
  unfolding start_net free_memory
  start_net-Agrees s a m =
      let got = x.malloc s.world in
      ground (arith, k.allocates s.world, k.starts got.1, k.frees (x.net_init got.1).1)

  start_netctl-Agrees :
      (s : Network World)
      → Agrees s
      → s.net_initialized ≡ true
      → Agrees (start_netctl x s).1
        × (is_neg (start_netctl x s).0 ≡ false → level (start_netctl x s).1.world ≡ 4)
  unfolding start_netctl
  start_netctl-Agrees s a m = ground (arith, k.connects s.world)

  initialize_network-Agrees :
      (s : Network World)
      → Agrees s
      → Agrees (initialize_network x s).1
        × (is_neg (initialize_network x s).0 ≡ false → level (initialize_network x s).1.world ≡ 4)
  unfolding initialize_network
  initialize_network-Agrees s a =
      let l = load-Agrees s a in
      elim (Bool-cases (is_neg (load x s).0)) [
        | inl failed ↦ rw failed (l.0, λ h. absurd (ground arith))
        | inr loaded ↦
            let t = (load x s).1 in
            let n = start_net-Agrees t l.0 (l.1 loaded) in
            elim (Bool-cases (is_neg (start_net x t).0)) [
              | inl failed ↦ rw loaded (rw failed (n.0, λ h. absurd (ground arith)))
              | inr started ↦
                  rw loaded (rw started (start_netctl-Agrees (start_net x t).1 n.0 (n.1 started)))
            ]
      ]

  cleanup_network-Agrees :
      (s : Network World)
      → Agrees s
      → Agrees (cleanup_network x s).1 × (level (cleanup_network x s).1.world ≡ 0)
  unfolding cleanup_network stop_netctl stop_net free_memory unload
  cleanup_network-Agrees s a =
      let w3 = x.netctl_term s.world in
      let w2 = x.net_term w3 in
      let w2' = x.net_term s.world in
      ground (
        arith,
        k.disconnects s.world,
        k.stops w3,
        k.frees w2,
        k.unloads (x.free_block w2),
        k.stops s.world,
        k.frees w2',
        k.unloads (x.free_block w2'),
        k.unloads s.world,
      )

-- The two functions, called in any order.
pub data Op : Type 0 where
  initialize : Op
  cleanup : Op

unfoldable pub run : {World : Type 0} → Calls World → Op → Network World → Network World
run x initialize s = (initialize_network x s).1
run x cleanup s = (cleanup_network x s).1

unfoldable pub run_all : {World : Type 0} → Calls World → List Op → Network World → Network World
run_all x [] s = s
run_all x (op ∷ ops) s = run_all x ops (run x op s)

-- Before the first call.
abbrev pub untouched : {World : Type 0} → World → Network World
untouched w = record {
  module_loaded = false;
  net_initialized = false;
  netctl_initialized = false;
  has_memory = false;
  world = w;
}

module _ {World : Type 0} (x : Calls World) (level : World → ℕ) (k : KeepsLevels x level) where
  run_all-Agrees :
      (ops : List Op) (s : Network World) → Agrees x level k s → Agrees x level k (run_all x ops s)
  unfolding run_all run
  run_all-Agrees [] s a = a
  run_all-Agrees (initialize ∷ ops) s a =
      run_all-Agrees ops (initialize_network x s).1 (initialize_network-Agrees x level k s a).0
  run_all-Agrees (cleanup ∷ ops) s a =
      run_all-Agrees ops (cleanup_network x s).1 (cleanup_network-Agrees x level k s a).0

  -- If the system answers calls that are made where they belong as KeepsLevels says, and holds nothing
  -- at the start, then whatever sequence of the two functions has run, and whichever of their calls
  -- failed, the flags say what the system holds; a further initialization that does not fail leaves
  -- all four held, each once, and a cleanup leaves nothing held.
  pub run_all_balance :
      (w : World) (ops : List Op)
      → level w ≡ 0
      → let s = run_all x ops (untouched w) in
        Agrees x level k s
        × (is_neg (initialize_network x s).0 ≡ false → level (initialize_network x s).1.world ≡ 4)
        × (level (cleanup_network x s).1.world ≡ 0)
  run_all_balance w ops none_held =
      let start : Agrees x level k (untouched w) = record {
        held = none_held;
        memory = refl;
        net_needs = λ h. h;
        netctl_needs = λ h. h;
      } in
      let a = run_all-Agrees ops (untouched w) start in
      (
        a,
        (initialize_network-Agrees x level k (run_all x ops (untouched w)) a).1,
        (cleanup_network-Agrees x level k (run_all x ops (untouched w)) a).1,
      )
