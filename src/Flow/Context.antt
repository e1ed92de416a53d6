-- ===== src/Flow/Context.antt =====
-- `LwipTunnelContext` of src/wg_handshake_probe.c, the functions that lwIP calls back, and
-- `lwip_process_transport`, which gives lwIP a packet of the peer. An `err_t` is `true` for ERR_OK.
-- `netif->state`, the arguments of the callbacks and `context->peer` are never NULL, since
-- `send_lwip_echo` sets them all before it makes the interface known.
pub mod Marks
pub mod Inbound
use moonlight_tailscale_vita.Common.{
  ℕ, ◌+◌, ◌-◌, ◌*◌, ◌/◌, ◌^◌, Bool, true, false, not, ◌&&◌, ◌||◌, Option, none, some, List, [], ◌∷◌,
  ◌++◌, Bytes, ℤ, pos, neg, is_neg, int_is, ltb, ◌==◌, if◌then◌else◌, u32, length, take, drop,
  get_or, same,
}
use moonlight_tailscale_vita.Common.State.{State, ◌>>=◌, ◌>>◌, pure, get, modify}
use moonlight_tailscale_vita.Report.{Level}
use moonlight_tailscale_vita.Tunnel.{WireGuard, Source, inner_mtu}
use moonlight_tailscale_vita.Tunnel.Transport.{padded_size, padded, total_length}

-- `has_udp` and `has_tcp` say whether `udp` and `tcp` are not NULL.
pub record Context (Peer World : Type 0) : Type 0 where
  pub socket_id : ℤ
  pub destination : Source
  pub expected_outer_address : ℕ
  pub peer : Peer
  pub has_udp : Bool
  pub has_tcp : Bool
  pub echo_received : Bool
  pub tcp_connected : Bool
  pub tcp_received : Bool
  pub tcp_closed : Bool
  pub tcp_failed : Bool
  pub output_error : ℤ
  pub inner_tx_size : ℕ
  pub inner_rx_size : ℕ
  pub tx_packets : ℕ
  pub rx_packets : ℕ
  pub world : World

-- What a line of the report says.
pub data Saying : Type 0 where
  udp_generated : ℕ → Saying
  udp_echo : ℕ → Saying
  tcp_echo : Saying
  flows : ℕ → ℕ → Saying
  interface : Saying
  lwip_memory : ℕ → ℕ → ℤ → Saying
  wifi_down : ℤ → ℕ → Saying
  wifi_up : Bytes → ℕ → Saying
  initiation_failed : Saying
  send_failed : ℤ → Saying
  initiation_sent : ℤ → Saying
  no_response : ℤ → Saying
  wrong_endpoint : Saying
  cookie_wanted : Saying
  response_invalid : ℕ → ℤ → Saying
  wrong_receiver : Saying
  not_authentic : Saying
  authenticated : Saying
  complete : ℕ → Saying
  begins : Saying
  identity_failed : ℤ → Saying
  identity_ready : Bool → Saying
  device_failed : Saying
  export_failed : ℤ → Saying
  exported : Saying
  public_key_is : Bytes → Saying
  config_pending : Saying
  send_public_key : Saying
  pairing_ready : Saying
  config_invalid : ℤ → Saying
  config_loaded : Saying
  peer_refused : Saying
  network_failed : ℤ → Saying
  network_ready : Saying
  data_plane_failed : ℤ → Saying
  verdict : Bool → Saying

-- WireGuard, the socket, the clock, the report that `log_line` writes, and lwIP. A call of lwIP that may
-- call the program back takes the whole context, the others only the system's state. `free_memory`
-- has the result and `size_user`.
pub record Lwip (Peer World : Type 0) : Type 0 where
  pub wireguard : WireGuard Peer World
  pub open wireguard use *
  pub sendto : (socket : ℤ) → Bytes → Source → World → ℤ × World
  pub recvfrom : (socket : ℤ) (size : ℕ) → World → ℤ × Bytes × Source × World
  pub set_timeout : (socket : ℤ) → (microseconds : ℕ) → World → World
  pub process_time : World → ℕ × World
  pub free_memory : World → (ℤ × ℕ) × World
  pub log_line : Level → Saying → World → World
  pub init_once : World → World
  pub netif_add : World → Bool × World
  pub netif_up : World → World
  pub netif_remove : World → World
  pub pbuf_alloc : (size : ℕ) → World → Bool × World
  pub pbuf_take : Bytes → World → Bool × World
  pub pbuf_free : World → World
  pub udp_new : World → Bool × World
  pub udp_bind : World → Bool × World
  pub udp_connect : World → Bool × World
  pub udp_receive : World → World
  pub udp_send : Bytes → State (Context Peer World) Bool
  pub udp_remove : World → World
  pub tcp_new : World → Bool × World
  pub tcp_bind : World → Bool × World
  pub tcp_callbacks : World → World
  pub tcp_connect : State (Context Peer World) Bool
  pub tcp_write : Bytes → World → Bool × World
  pub tcp_output : State (Context Peer World) Bool
  pub tcp_recved : ℕ → State (Context Peer World) (Unit {0})
  pub tcp_close : State (Context Peer World) Bool
  pub tcp_abort : State (Context Peer World) (Unit {0})
  pub input : Bytes → State (Context Peer World) Bool
  pub check_timeouts : State (Context Peer World) (Unit {0})

-- "TSVITA-M2-ECHO" and "TSVITA-M2-TCP"
abbrev pub echo_payload : Bytes
echo_payload = 84 ∷ 83 ∷ 86 ∷ 73 ∷ 84 ∷ 65 ∷ 45 ∷ 77 ∷ 50 ∷ 45 ∷ 69 ∷ 67 ∷ 72 ∷ 79 ∷ []

abbrev pub tcp_payload : Bytes
tcp_payload = 84 ∷ 83 ∷ 86 ∷ 73 ∷ 84 ∷ 65 ∷ 45 ∷ 77 ∷ 50 ∷ 45 ∷ 84 ∷ 67 ∷ 80 ∷ []

-- 10.77.0.1 as `IP_ADDR4` makes it on this machine, and M2_DESTINATION_PORT.
abbrev pub peer_inner_address : ℕ
peer_inner_address = 10 + 77 * 2 ^ 8 + 2 ^ 24

abbrev pub m2_destination_port : ℕ
m2_destination_port = 7777

-- `memcmp` with the four bytes of an address at `at`.
abbrev pub address_is : (at : ℕ) → Bytes → Bytes → Bool
address_is at plaintext address = same (take 4 (drop at plaintext)) address

module _ {Peer World : Type 0} (x : Lwip Peer World) where
  abbrev pub outside : {A : Type 0} → (World → A × World) → State (Context Peer World) A
  outside f c = let (a, w) = f c.world in (a, record c { world = w })

  abbrev pub outside_only : (World → World) → State (Context Peer World) (Unit {0})
  outside_only f c = (tt, record c { world = f c.world })

  -- `packet` has `tot_len` bytes, and `pbuf_copy_partial` copies them all.
  unfoldable pub lwip_tunnel_output : Bytes → State (Context Peer World) Bool
  lwip_tunnel_output packet c =
      if not (x.sending_valid c.peer) || length packet == 0 || ltb inner_mtu (length packet)
      then (false, c)
      else (let header = x.transport_header (x.remote_index c.peer) (x.sending_counter c.peer) in
          let (encrypted, peer') = x.encrypt_packet (padded packet) c.peer in
          let outgoing_size =
            x.transport_header_size + padded_size (length packet) + x.authtag_len in
          let (sent, w) =
            x.sendto c.socket_id (take outgoing_size (header ++ encrypted)) c.destination c.world in
          let c' = record c { peer = peer'; world = w } in
          if int_is sent outgoing_size
          then (
            true,
            record c' { inner_tx_size = length packet; tx_packets = u32 (c.tx_packets + 1) },
          )
          else (false, record c' { output_error = if is_neg sent then sent else neg 30 }))

  -- Whether a datagram that lwIP received is the echo.
  unfoldable pub is_echo : Bytes → Source → Bool
  is_echo packet source =
      source.port == m2_destination_port
      && source.address == peer_inner_address
      && same packet echo_payload

  unfoldable pub lwip_echo_received : Option Bytes → Source → State (Context Peer World) (Unit {0})
  unfolding is_echo
  lwip_echo_received none source c = (tt, c)
  lwip_echo_received (some packet) source c =
      let c' =
        if is_echo packet source
        then record c { echo_received = true; inner_rx_size = length packet }
        else c in
      (tt, record c' { world = x.pbuf_free c'.world })

  abbrev fail_tcp : State (Context Peer World) Bool
  fail_tcp c = (false, record c { tcp_failed = true })

  -- `error` is `true` for ERR_OK; `&&` and `||` end where the result is known.
  unfoldable pub lwip_tcp_connected : (ok : Bool) → State (Context Peer World) Bool
  lwip_tcp_connected ok c =
      if ok
      then (let (wrote, w) = x.tcp_write tcp_payload c.world in
          let c1 = record c { world = w } in
          if wrote
          then (let (put, c2) = x.tcp_output c1 in
              if put then (true, record c2 { tcp_connected = true }) else fail_tcp c2)
          else fail_tcp c1)
      else fail_tcp c

  unfoldable pub lwip_tcp_received : Option Bytes → (ok : Bool) → State (Context Peer World) Bool
  lwip_tcp_received packet false c =
      (false, elim packet [ none ↦ c | some p ↦ record c { world = x.pbuf_free c.world } ])
  lwip_tcp_received none true c = x.tcp_close (record c { tcp_closed = true; has_tcp = false })
  lwip_tcp_received (some packet) true c =
      let c1 = (x.tcp_recved (length packet) c).1 in
      let c2 = record c1 { world = x.pbuf_free c1.world } in
      if same packet tcp_payload
      then (true, record c2 { tcp_received = true })
      else (false, record c2 { tcp_failed = true })

  unfoldable pub lwip_tcp_error : State (Context Peer World) (Unit {0})
  lwip_tcp_error c = (tt, record c { has_tcp = false; tcp_failed = true })

  -- An IPv4 packet from 10.77.0.1 to 10.77.0.2, of which the header is there.
  unfoldable pub is_from_peer : (size : ℕ) → Bytes → Bool
  is_from_peer size plaintext =
      not (ltb size 20)
      && get_or plaintext 0 0 / 2 ^ 4 == 4
      && address_is 12 plaintext (10 ∷ 77 ∷ 0 ∷ 1 ∷ [])
      && address_is 16 plaintext (10 ∷ 77 ∷ 0 ∷ 2 ∷ [])

  -- The packet's bytes go to lwIP in a pbuf.
  unfoldable pub deliver : Bytes → State (Context Peer World) ℤ
  deliver packet c =
      let (allocated, w1) = x.pbuf_alloc (length packet) c.world in
      if allocated
      then (let (taken, w2) = x.pbuf_take packet w1 in
          if taken
          then (let (accepted, c') = x.input packet (record c { world = w2 }) in
              if accepted
              then (pos 0, record c' { rx_packets = u32 (c'.rx_packets + 1) })
              else (neg 37, c'))
          else (neg 36, record c { world = x.pbuf_free w2 }))
      else (neg 36, record c { world = w1 })

  unfoldable pub process_plaintext : (size : ℕ) → Bytes → State (Context Peer World) ℤ
  unfolding is_from_peer deliver
  process_plaintext size plaintext c =
      if is_from_peer size plaintext
      then (if ltb (total_length plaintext) 20 || ltb size (total_length plaintext)
          then (neg 35, c)
          else deliver (take (total_length plaintext) plaintext) c)
      else (neg 34, c)

  unfoldable pub process_authenticated :
      (keypair counter size : ℕ) → Bytes → State (Context Peer World) ℤ
  unfolding process_plaintext
  process_authenticated keypair counter size plaintext c =
      let (fresh, peer') = x.check_replay keypair counter c.peer in
      let c' = record c { peer = peer' } in
      if fresh then process_plaintext size plaintext c' else (neg 33, c')

  -- From where the socket is connected to, and a transport packet.
  unfoldable pub is_expected : Bytes → Source → Context Peer World → Bool
  is_expected incoming source c =
      source.address == c.expected_outer_address
      && source.port == c.destination.port
      && x.get_message_type incoming == x.message_transport_data

  -- The difference of the sizes wraps around at 32 bits.
  unfoldable pub lwip_process_transport : Bytes → Source → State (Context Peer World) ℤ
  unfolding process_authenticated is_expected
  lwip_process_transport incoming source c =
      if is_expected incoming source c
      then elim (x.keypair_for c.peer (x.transport_receiver incoming)) [
        | none ↦ (neg 32, c)
        | some keypair ↦
            let encrypted_size = u32 (length incoming + (2 ^ 32 - x.transport_header_size)) in
            let counter = x.transport_counter incoming in
            if not (x.receiving_valid c.peer keypair)
              || ltb encrypted_size x.authtag_len
              || ltb (inner_mtu + 15 + x.authtag_len) encrypted_size
            then (neg 32, c)
            else elim (x.decrypt_packet (drop x.transport_header_size incoming) counter keypair
                c.peer) [
                  | none ↦ (neg 33, c)
                  | some plaintext ↦
                      process_authenticated keypair counter (encrypted_size - x.authtag_len)
                        plaintext c
                ]
      ]
      else (neg 31, c)
