-- ===== src/Flow/Session.antt =====
-- `send_handshake_and_ip_probe` of src/wg_handshake_probe.c: one handshake with the peer on a socket of
-- its own, and the echoes behind it. The errno that some lines of the report also print is not
-- modelled.
pub mod Authentic
use moonlight_tailscale_vita.Common.{
  ℕ, ◌+◌, ◌-◌, ◌*◌, ◌^◌, Bool, true, false, not, ◌&&◌, ◌||◌, Option, none, some, [], Bytes, ℤ, pos,
  neg, is_neg, int_is, to_nat, ◌==◌, if◌then◌else◌, u64, take, replicate,
}
use moonlight_tailscale_vita.Ipv4Literal.{parse_ipv4_literal}
use moonlight_tailscale_vita.Report.{Level, info, ok, warn, error}
use moonlight_tailscale_vita.Tunnel.{Source}
use moonlight_tailscale_vita.Tunnel.Config.{PeerConfig}
use moonlight_tailscale_vita.Tunnel.Start.{address_of}
use moonlight_tailscale_vita.Flow.Context.{
  Context, Lwip, Saying, wifi_down, wifi_up, initiation_failed, send_failed, initiation_sent,
  no_response, wrong_endpoint, cookie_wanted, response_invalid, wrong_receiver, not_authentic,
  authenticated, complete,
}
use moonlight_tailscale_vita.Flow.Echo.{send_lwip_echo}

-- The calls that only the handshake makes. `network_state` gives the result and the state, of which
-- `connected_state` is SCE_NETCTL_STATE_CONNECTED; `set_timeouts` sets both to five seconds.
pub record Outer (World : Type 0) : Type 0 where
  pub network_state : World → (ℤ × ℕ) × World
  pub connected_state : ℕ
  pub message_cookie_reply : ℕ
  pub htons : ℕ → ℕ
  pub udp_socket : World → ℤ × World
  pub set_timeouts : (socket : ℤ) → World → World
  pub close_socket : (socket : ℤ) → World → World

-- The device and the peer, and the system.
pub record Session (Peer World : Type 0) : Type 0 where
  pub peer : Peer
  pub world : World

-- How the handshake ends: with a code and the line that is logged, or authenticated.
pub data Outcome : Type 0 where
  refused : ℤ → Level → Saying → Outcome
  accepted : Outcome

module _ {Peer World : Type 0} (x : Lwip Peer World) (o : Outer World) where
  abbrev S : Type 0
  S = Session Peer World

  -- The checks of a datagram that arrived, in front of those of its authenticity.
  unfoldable pub check_response :
      (count : ℤ) → Bytes → (source destination : Source) → (sender : ℕ) → Outcome
  check_response count response source destination sender =
      if not (source.address == destination.address) || not (source.port == destination.port)
      then refused (neg 5) error wrong_endpoint
      else if x.get_message_type response == o.message_cookie_reply
      then refused (neg 6) warn cookie_wanted
      else if not (x.get_message_type response == x.message_handshake_response)
          || not (int_is count x.response_size)
      then refused (neg 7) error (response_invalid (x.get_message_type response) count)
      else if not (x.response_receiver response == sender)
      then refused (neg 8) error wrong_receiver
      else accepted

  -- The response is processed only if its first MAC is right.
  unfoldable pub authenticate : Bytes → Peer → Outcome × Peer
  authenticate response peer =
      if x.check_mac1 (take (x.response_size - 2 * x.cookie_len) response)
        (x.response_mac1 response) peer
      then (let (done, peer') = x.process_response response peer in
          if done
          then (accepted, x.start_session peer')
          else (refused (neg 9) error not_authentic, peer'))
      else (refused (neg 9) error not_authentic, peer)

  -- From the response's arrival on; `count` is not negative.
  unfoldable pub use_response :
      (count : ℤ) → Bytes → (source destination : Source) → (sender : ℕ) → S → Outcome × S
  unfolding check_response authenticate
  use_response count buffer source destination sender s =
      let response = take (to_nat count) buffer in
      elim (check_response count response source destination sender) [
        | refused code level saying ↦ (refused code level saying, s)
        | accepted ↦
            let (outcome, peer') = authenticate response s.peer in
            (outcome, record s { peer = peer' })
      ]

  unfoldable pub shake_hands : (socket : ℤ) (destination : Source) → S → Outcome × S
  unfolding use_response
  shake_hands socket destination s =
      let (created, peer', w1) = x.create_initiation s.peer s.world in
      elim created [
        | none ↦ (refused (neg 3) error initiation_failed, record { peer = peer'; world = w1 })
        | some (initiation, sender) ↦
            let (sent, w2) = x.sendto socket initiation destination w1 in
            if int_is sent x.initiation_size
            then (let w3 = x.log_line ok (initiation_sent sent) w2 in
                let (count, buffer, source, w4) = x.recvfrom socket 256 w3 in
                if is_neg count
                then (refused count error (no_response count), record { peer = peer'; world = w4 })
                else use_response count buffer source destination sender
                    (record { peer = peer'; world = w4 }))
            else (
              refused (if is_neg sent then sent else neg 4) error (send_failed sent),
              record { peer = peer'; world = w2 },
            )
      ]

  -- `memset(&context, 0, …)` and the fields that are set.
  abbrev pub first_context : (socket : ℤ) (destination : Source) → S → Context Peer World
  first_context socket destination s = record {
    socket_id = socket;
    destination = destination;
    expected_outer_address = destination.address;
    peer = s.peer;
    has_udp = false;
    has_tcp = false;
    echo_received = false;
    tcp_connected = false;
    tcp_received = false;
    tcp_closed = false;
    tcp_failed = false;
    output_error = pos 0;
    inner_tx_size = 0;
    inner_rx_size = 0;
    tx_packets = 0;
    rx_packets = 0;
    world = s.world;
  }

  -- The socket is closed in front of the line that says what went wrong.
  unfoldable pub run_session : (fuel : ℕ) (socket : ℤ) (destination : Source) → S → Option ℤ × S
  unfolding shake_hands
  run_session fuel socket destination s =
      let (started, w) = x.process_time s.world in
      let (outcome, s1) = shake_hands socket destination (record s { world = w }) in
      elim outcome [
        | refused code level saying ↦ (
          some code,
          record s1 { world = x.log_line level saying (o.close_socket socket s1.world) },
        )
        | accepted ↦
            let s2 : S = record s1 { world = x.log_line ok authenticated s1.world } in
            let (result, c) = send_lwip_echo x fuel (first_context socket destination s2) in
            let closed = o.close_socket socket c.world in
            elim result [
              | none ↦ (none, record { peer = c.peer; world = c.world })
              | some r ↦
                  if is_neg r
                  then (some r, record { peer = c.peer; world = closed })
                  else (let (ended, w') = x.process_time closed in
                      let elapsed = u64 (u64 ended + (2 ^ 64 - u64 started)) in
                      (
                        some (pos 0),
                        record { peer = c.peer; world = x.log_line ok (complete elapsed) w' },
                      ))
            ]
      ]

  unfoldable pub send_handshake_and_ip_probe : (fuel : ℕ) → PeerConfig → S → Option ℤ × S
  unfolding run_session
  send_handshake_and_ip_probe fuel config s =
      let ((state_result, state), w1) = o.network_state s.world in
      if is_neg state_result || not (state == o.connected_state)
      then (
        some (if is_neg state_result then state_result else neg 1),
        record s { world = x.log_line error (wifi_down state_result state) w1 },
      )
      else (let w2 = x.log_line ok (wifi_up config.endpoint_ip config.endpoint_port) w1 in
          let parsed = parse_ipv4_literal (some config.endpoint_ip) (some (replicate 4 0)) in
          if not parsed.0
          then (some (neg 2), record s { world = w2 })
          else (let destination : Source = record {
            address = address_of (elim parsed.1 [ none ↦ [] | some octets ↦ octets ]);
            port = o.htons config.endpoint_port;
          } in
              let (socket, w3) = o.udp_socket w2 in
              if is_neg socket
              then (some socket, record s { world = w3 })
              else run_session fuel socket destination
                  (record s { world = o.set_timeouts socket w3 })))
