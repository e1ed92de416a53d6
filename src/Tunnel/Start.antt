-- ===== src/Tunnel/Start.antt =====
-- Bringing the tunnel up: `initialize_lwip`, `start_tunnel`, and the state that
-- `tsvita_tunnel_ensure_started` keeps. The wiping of local keys by `crypto_zero` is not modelled.
use moonlight_tailscale_vita.Common.{
  ℕ, Bool, true, false, not, ◌||◌, Option, none, some, [], Bytes, ℤ, pos, negsuc, neg, is_neg,
  int_is, if◌then◌else◌, replicate, get_or, ◌+◌, ◌*◌, ◌^◌,
}
use moonlight_tailscale_vita.Ipv4Literal.{parse_ipv4_literal}
use moonlight_tailscale_vita.Tunnel.{
  Env, Tunnel, M, ◌>>=◌, ◌>>◌, pure, outside, outside_only, modify,
}
use moonlight_tailscale_vita.Tunnel.Receive.{perform_initial_handshake}
use moonlight_tailscale_vita.Tunnel.Config.{
  Files, failed, loaded, PeerConfig, load_private_key, load_peer_config,
}

-- The calls that only the start makes. `prepare_logs` makes the directories and empties the logs;
-- `network_state` is sceNetCtlInetGetState and whether the state is SCE_NETCTL_STATE_CONNECTED;
-- `device_init` has the device's state if the key is accepted. `tcpip_init` comes back once its
-- callback has run. `netif_add` and the other three are lwIP's netifapi calls, `true` for ERR_OK.
pub record Boot (Peer World : Type 0) : Type 0 where
  pub prepare_logs : World → World
  pub network_state : World → (ℤ × Bool) × World
  pub device_init : Bytes → World → Option Peer × World
  pub peer_alloc : Peer → Bool × Peer
  pub peer_init : Bytes → Peer → Bool × Peer
  pub htons : ℕ → ℕ
  pub open_socket : World → ℤ × World
  pub set_socket_options : ℤ → World → World
  pub close_socket : ℤ → World → World
  pub tcpip_init : World → World
  pub netif_add : World → Bool × World
  pub netif_set_default : World → Bool × World
  pub netif_set_up : World → Bool × World
  pub netif_set_link_up : World → Bool × World
  pub create_thread : World → ℤ × World

-- `memcpy` of the octets into `s_addr`, least significant byte first.
abbrev pub address_of : Bytes → ℕ
address_of o = get_or o 0 0 + get_or o 1 0 * 2 ^ 8 + get_or o 2 0 * 2 ^ 16 + get_or o 3 0 * 2 ^ 24

module _ {Peer World : Type 0} (x : Env Peer World) (b : Boot Peer World)
    (files : Files World) where
  -- `memset(&g_tunnel, 0, …)` and `outer_socket = -1`; then the peer's state.
  abbrev pub fresh : Peer → World → Tunnel Peer World
  fresh peer world = record {
    outer_socket = negsuc 0;
    has_peer = false;
    peer = peer;
    endpoint = record { address = 0; port = 0 };
    receive_thread_started = false;
    running = false;
    pending_handshake_sender = 0;
    last_handshake_us = 0;
    last_transport_tx_us = 0;
    tx_packets = 0;
    rx_packets = 0;
    decrypt_rejects = 0;
    replay_rejects = 0;
    other_rejects = 0;
    world = world;
  }

  unfoldable pub set_error : ℤ → ℤ → M Peer World (Option ℤ)
  set_error logged result = do outside_only (x.log logged); pure (some result)

  -- The four calls, up to the first that fails.
  unfoldable pub initialize_lwip : M Peer World ℤ
  initialize_lwip = do
    outside_only b.tcpip_init
    added ← outside b.netif_add
    if not added then pure (neg 50) else do
      set_default ← outside b.netif_set_default
      if not set_default then pure (neg 50) else do
        up ← outside b.netif_set_up
        if not up
            then pure (neg 50)
            else do link_up ← outside b.netif_set_link_up; pure (if link_up then pos 0 else neg 50)

  unfoldable pub start_thread : M Peer World (Option ℤ)
  unfolding set_error
  start_thread = do
    modify (λ t. record t { running = true })
    result ← outside b.create_thread
    if not (int_is result 0)
        then (do modify (λ t. record t { running = false }); set_error result (neg 64))
        else do
          modify (λ t. record t { receive_thread_started = true })
          outside_only (x.log (pos 0))
          pure (some (pos 0))

  unfoldable pub close_and_fail : ℤ → M Peer World (Option ℤ)
  unfolding set_error
  close_and_fail result t =
      set_error result result
        (record t { outer_socket = negsuc 0; world = b.close_socket t.outer_socket t.world })

  unfoldable pub bring_up_lwip : M Peer World (Option ℤ)
  unfolding initialize_lwip close_and_fail start_thread
  bring_up_lwip = do
    result ← initialize_lwip
    if is_neg result then close_and_fail result else start_thread

  -- `none` when the fuel of the handshake's loop runs out.
  unfoldable pub start_socket : (fuel : ℕ) → M Peer World (Option ℤ)
  unfolding close_and_fail bring_up_lwip
  start_socket fuel = do
    socket ← outside b.open_socket
    modify (λ t. record t { outer_socket = socket })
    if is_neg socket then set_error socket socket else do
      outside_only (b.set_socket_options socket)
      result ← perform_initial_handshake x fuel
      elim result [
        | none ↦ pure none
        | some code ↦ if is_neg code then close_and_fail code else bring_up_lwip
      ]

  -- Run on the state that `fresh` has made.
  unfoldable pub start_peer : (fuel : ℕ) → PeerConfig → M Peer World (Option ℤ)
  unfolding start_socket
  start_peer fuel config t =
      let (allocated, device) = b.peer_alloc t.peer in
      if not allocated
      then set_error (neg 62) (neg 62) (record t { peer = device })
      else (let (accepted, peer) = b.peer_init config.public_key device in
          let t' = record t { peer = peer; has_peer = true } in
          if not accepted
          then set_error (neg 62) (neg 62) t'
          else (let parsed = parse_ipv4_literal (some config.endpoint_ip) (some (replicate 4 0)) in
              if not parsed.0
              then set_error (neg 63) (neg 63) t'
              else start_socket fuel (record t' {
                endpoint = record {
                  address = address_of (elim parsed.1 [ none ↦ [] | some o ↦ o ]);
                  port = b.htons config.endpoint_port;
                };
              })))

  unfoldable pub start_device : (fuel : ℕ) → Bytes → PeerConfig → M Peer World (Option ℤ)
  unfolding start_peer
  start_device fuel key config t =
      let (device, world') = b.device_init key t.world in
      elim device [
        | none ↦ set_error (neg 61) (neg 61) (fresh t.peer world')
        | some peer ↦ start_peer fuel config (fresh peer world')
      ]

  unfoldable pub start_config : (fuel : ℕ) → Bytes → M Peer World (Option ℤ)
  unfolding start_device
  start_config fuel key = do
    config ← outside (load_peer_config files)
    elim config [ failed e ↦ set_error e e | loaded c ↦ start_device fuel key c ]

  unfoldable pub start_tunnel : (fuel : ℕ) → M Peer World (Option ℤ)
  unfolding start_config
  start_tunnel fuel = do
    outside_only b.prepare_logs
    outside_only (x.log (pos 0))
    (result, connected) ← outside b.network_state
    if is_neg result || not connected then set_error result (neg 60) else do
      key ← outside (load_private_key files)
      elim key [ failed e ↦ set_error e e | loaded k ↦ start_config fuel k ]
