-- ===== src/Tunnel.antt =====
-- moonlight/tunnel.c: the WireGuard tunnel that lwIP's packets go through. This file has the
-- context `g_tunnel`, the calls that the tunnel makes of code outside the repository, and the state
-- monad that its functions are written in.
--
-- WireGuard's peer and device are one state `Peer`; the sockets, lwIP, the clock, the files and the
-- log are behind `World`. A keypair of the peer is known by a number. Where the source casts a
-- buffer to a message, `Env` has a function for each field that is read. The texts of the log are
-- not modelled: the state of the log is part of `World` and changes by `log`, which takes the
-- source's result code.
pub mod Transport
pub mod Receive
pub mod Text
pub mod Config
pub mod Start
pub mod Startup
use moonlight_tailscale_vita.Common.{ℕ, Bool, Option, ℤ, Bytes, u64}

abbrev pub inner_mtu : ℕ
inner_mtu = 1280

abbrev pub handshake_timeout_us : ℕ
handshake_timeout_us = 5000000

abbrev pub rekey_interval_us : ℕ
rekey_interval_us = 100000000

abbrev pub keepalive_interval_us : ℕ
keepalive_interval_us = 25000000

-- WIREGUARD_AUTHTAG_LEN and the other sizes of the WireGuard library, its message types, and the
-- calls of it. `decrypt` has the plaintext of a packet that authenticates, `check_replay` marks the
-- counter as seen. `keypair_for` is get_peer_keypair_for_idx, with NULL as `none`.
pub record WireGuard (Peer World : Type 0) : Type 0 where
  pub authtag_len : ℕ
  pub transport_header_size : ℕ
  pub initiation_size : ℕ
  pub response_size : ℕ
  pub cookie_len : ℕ
  pub message_handshake_response : ℕ
  pub message_transport_data : ℕ
  pub transport_header : (receiver counter : ℕ) → Bytes
  pub transport_receiver : Bytes → ℕ
  pub transport_counter : Bytes → ℕ
  pub response_receiver : Bytes → ℕ
  pub response_mac1 : Bytes → Bytes
  pub get_message_type : Bytes → ℕ
  pub sending_valid : Peer → Bool
  pub remote_index : Peer → ℕ
  pub sending_counter : Peer → ℕ
  pub encrypt_packet : Bytes → Peer → Bytes × Peer
  pub keypair_for : Peer → ℕ → Option ℕ
  pub receiving_valid : Peer → ℕ → Bool
  pub decrypt_packet : Bytes → (counter keypair : ℕ) → Peer → Option Bytes
  pub check_replay : (keypair counter : ℕ) → Peer → Bool × Peer
  pub create_initiation : Peer → World → Option (Bytes × ℕ) × Peer × World
  pub check_mac1 : Bytes → Bytes → Peer → Bool
  pub process_response : Bytes → Peer → Bool × Peer
  pub start_session : Peer → Peer

-- Where a datagram comes from: `sin_addr.s_addr` and `sin_port`.
pub record Source : Type 0 where
  pub address : ℕ
  pub port : ℕ

-- The system's calls. `recvfrom` has the result, the bytes and the source; `err_t` is `true` for
-- ERR_OK. `pbuf_take` and `tcpip_input` are given the bytes that the packet holds.
pub record Env (Peer World : Type 0) : Type 0 where
  pub wireguard : WireGuard Peer World
  pub open wireguard use *
  pub sendto : (socket : ℤ) → Bytes → World → ℤ × World
  pub recvfrom : (socket : ℤ) (size : ℕ) → World → ℤ × Bytes × Source × World
  pub process_time : World → ℕ
  pub pbuf_alloc : (size : ℕ) → World → Bool × World
  pub pbuf_take : Bytes → World → Bool × World
  pub pbuf_free : World → World
  pub tcpip_input : Bytes → World → Bool × World
  pub log : ℤ → World → World

-- `TunnelContext`. `has_peer` is `peer != NULL`.
pub record Tunnel (Peer World : Type 0) : Type 0 where
  pub outer_socket : ℤ
  pub has_peer : Bool
  pub peer : Peer
  pub endpoint : Source
  pub receive_thread_started : Bool
  pub running : Bool
  pub pending_handshake_sender : ℕ
  pub last_handshake_us : ℕ
  pub last_transport_tx_us : ℕ
  pub tx_packets : ℕ
  pub rx_packets : ℕ
  pub decrypt_rejects : ℕ
  pub replay_rejects : ℕ
  pub other_rejects : ℕ
  pub world : World

abbrev pub M : Type 0 → Type 0 → Type 0 → Type 0
M Peer World A = Tunnel Peer World → A × Tunnel Peer World

module _ {Peer World : Type 0} where
  infixl 5 ◌>>=◌ ◌>>◌
  abbrev pub pure : {A : Type 0} → A → M Peer World A
  pure a t = (a, t)

  abbrev pub ◌>>=◌ : {A B : Type 0} → M Peer World A → (A → M Peer World B) → M Peer World B
  ◌>>=◌ m f t = let (a, t') = m t in f a t'

  abbrev pub ◌>>◌ : {B : Type 0} → M Peer World (Unit {0}) → M Peer World B → M Peer World B
  m >> n = m >>= λ _. n

  -- A call of the system.
  abbrev pub outside : {A : Type 0} → (World → A × World) → M Peer World A
  outside f t = let (a, world') = f t.world in (a, record t { world = world' })

  abbrev pub outside_only : (World → World) → M Peer World (Unit {0})
  outside_only f t = (tt, record t { world = f t.world })

  abbrev pub get : M Peer World (Tunnel Peer World)
  get t = (t, t)

  abbrev pub modify : (Tunnel Peer World → Tunnel Peer World) → M Peer World (Unit {0})
  modify f t = (tt, f t)

  abbrev pub set_peer : Peer → M Peer World (Unit {0})
  set_peer p t = (tt, record t { peer = p })

  -- `sceKernelGetProcessTimeWide`
  abbrev pub get_time : (World → ℕ) → M Peer World ℕ
  get_time process_time t = (u64 (process_time t.world), t)
