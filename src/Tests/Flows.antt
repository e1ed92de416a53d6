-- ===== src/Tests/Flows.antt =====
-- The flow probe's handshake and echoes at concrete inputs.
use moonlight_tailscale_vita.Common.{
  to_nat, false, is_neg, ℕ, ◌+◌, ◌-◌, ◌^◌, min, true, some, [], ◌∷◌, ◌++◌, Bytes, ℤ, pos, int_is,
  length, take, replicate, same, ◌≡◌, ◌⊎◌, refl, arith,
}
use moonlight_tailscale_vita.Report.{ok}
use moonlight_tailscale_vita.Tunnel.{Source}
use moonlight_tailscale_vita.Tunnel.Transport.{total_length}
use moonlight_tailscale_vita.Tests.Tunnels.{toy_wireguard}
use moonlight_tailscale_vita.Flow.Context.{
  initiation_sent, Context, Lwip, echo_payload, peer_inner_address, lwip_process_transport,
  lwip_echo_received, deliver,
}
use moonlight_tailscale_vita.Flow.Context.Marks.{
  Callback, echo, IsEcho, Some, KeepsContext, sent_nothing, ended, calls, call_back,
  echo_received_only,
}
use moonlight_tailscale_vita.Flow.Context.Inbound.{
  IsAuthentic, IsInbound, lwip_process_transport_accepts,
}
use moonlight_tailscale_vita.Flow.Echo.{send_lwip_echo}
use moonlight_tailscale_vita.Flow.Echo.Enough.{Ticks}
use moonlight_tailscale_vita.Flow.Echo.Complete.{send_lwip_echo_lem}
use moonlight_tailscale_vita.Flow.Session.{Outer, Session, shake_hands, first_context}
use moonlight_tailscale_vita.Flow.Session.Authentic.{IsResponse, Completes, shake_hands_accepts}

abbrev gateway : Source
gateway = record { address = 7; port = 51820 }

-- The world is the clock; every receive brings `datagram`, and lwIP calls nothing back.
abbrev quiet : Bytes → Lwip ℕ ℕ
quiet datagram = record {
  wireguard = toy_wireguard;
  sendto = λ s d a w. (pos (length d), w);
  recvfrom = λ s n w. (pos (length datagram), datagram, gateway, w);
  set_timeout = λ s n w. w;
  process_time = λ w. (min w (2 ^ 64 - 1), w + 1);
  free_memory = λ w. ((pos 0, 4096), w);
  log_line = λ l s w. w;
  init_once = λ w. w;
  netif_add = λ w. (true, w);
  netif_up = λ w. w;
  netif_remove = λ w. w;
  pbuf_alloc = λ n w. (true, w);
  pbuf_take = λ b w. (true, w);
  pbuf_free = λ w. w;
  udp_new = λ w. (true, w);
  udp_bind = λ w. (true, w);
  udp_connect = λ w. (true, w);
  udp_receive = λ w. w;
  udp_send = λ b c. (true, c);
  udp_remove = λ w. w;
  tcp_new = λ w. (true, w);
  tcp_bind = λ w. (true, w);
  tcp_callbacks = λ w. w;
  tcp_connect = λ c. (true, c);
  tcp_write = λ b w. (true, w);
  tcp_output = λ c. (true, c);
  tcp_recved = λ n c. (tt, c);
  tcp_close = λ c. (true, c);
  tcp_abort = λ c. (tt, c);
  input = λ b c. (true, c);
  check_timeouts = λ c. (tt, c);
}

abbrev outer : Outer ℕ
outer = record {
  network_state = λ w. ((pos 0, 3), w);
  connected_state = 3;
  message_cookie_reply = 3;
  htons = λ p. p;
  udp_socket = λ w. (pos 4, w);
  set_timeouts = λ s w. w;
  close_socket = λ s w. w;
}

abbrev session : Session ℕ ℕ
session = record { peer = 0; world = 0 }

abbrev idle : Context ℕ ℕ
idle = first_context (quiet []) outer (pos 4) gateway session

quiet-KeepsContext : (datagram : Bytes) → KeepsContext (quiet datagram)
quiet-KeepsContext datagram = record {
  outputs = λ c. sent_nothing c;
  recveds = λ n c. sent_nothing c;
  closes = λ c. sent_nothing c;
  udp_sends = λ b c. ([], ended c);
  connects = λ c. ([], ended c);
  aborts = λ c. ([], ended c);
  inputs = λ b c. ([], ended c);
  timeouts = λ c. ([], ended c);
}

abbrev the_echo : Callback
the_echo = echo (some echo_payload) (record { address = peer_inner_address; port = 7777 })

abbrev after_echo : Context ℕ ℕ
after_echo = call_back (quiet []) the_echo idle

echo_received_only_example : (idle.echo_received ≡ true) ⊎ Some IsEcho (the_echo ∷ [])
unfolding call_back lwip_echo_received same
echo_received_only_example =
    echo_received_only (quiet []) (quiet-KeepsContext []) (the_echo ∷ []) idle after_echo
      (calls the_echo [] idle after_echo (ended after_echo)) refl

-- A transport packet with an IPv4 header of 20 bytes, padded to 32.
abbrev carried : Bytes
carried =
    69
    ∷ 0
    ∷ 0
    ∷ 20
    ∷ 0
    ∷ 0
    ∷ 0
    ∷ 0
    ∷ 64
    ∷ 17
    ∷ 0
    ∷ 0
    ∷ 10
    ∷ 77
    ∷ 0
    ∷ 1
    ∷ 10
    ∷ 77
    ∷ 0
    ∷ 2
    ∷ replicate 12 0

abbrev packet : Bytes
packet = (4 ∷ replicate 15 0) ++ carried ++ replicate 16 0

lwip_process_transport_accepts_example :
    (size keypair : ℕ) × (plaintext : Bytes) × let replay = (quiet []).check_replay keypair 0 0 in
      IsAuthentic (quiet []) packet gateway idle size keypair plaintext
      × (replay.0 ≡ true)
      × IsInbound (quiet []) size plaintext
      × (lwip_process_transport (quiet []) packet gateway idle
          ≡ deliver
              (quiet [])
              (take (total_length plaintext) plaintext)
              (record idle { peer = replay.1 }))
unfolding lwip_process_transport same
lwip_process_transport_accepts_example =
    lwip_process_transport_accepts (quiet []) packet gateway idle refl

quiet-Ticks : Ticks (quiet packet) (λ w. min w (2 ^ 64 - 1))
quiet-Ticks = record {
  reads = λ w. (refl, omega arith);
  goes_on = λ w h. omega (arith, h);
  not_back = λ w. omega arith;
  receives = λ s n w. omega arith;
  allocates = λ n w. omega arith;
  takes = λ b w. omega arith;
  frees = λ w. omega arith;
  inputs = λ b c. omega arith;
  timeouts = λ c. omega arith;
}

send_lwip_echo_lem_example :
    let out = send_lwip_echo (quiet packet) 5000001 idle in
    (r : ℤ) × (out.0 ≡ some r)
    × (r ≡ pos 0
        → (out.1.echo_received ≡ true) × (out.1.tcp_connected ≡ true) × (out.1.tcp_received ≡ true))
send_lwip_echo_lem_example =
    send_lwip_echo_lem (quiet packet) (λ w. min w (2 ^ 64 - 1)) quiet-Ticks
      (quiet-KeepsContext packet) 5000001 idle (omega arith)

-- A response for the sender 9.
abbrev response : Bytes
response = 2 ∷ replicate 7 0 ++ (9 ∷ replicate 83 0)

shake_hands_accepts_example :
    (initiation : Bytes) × (sender : ℕ) × let (created, peer', w1) =
        (quiet response).create_initiation 0 0 in
      let (sent, w2) = (quiet response).sendto (pos 4) initiation gateway w1 in
      let w3 = (quiet response).log_line ok (initiation_sent sent) w2 in
      let (count, buffer, source, w4) = (quiet response).recvfrom (pos 4) 256 w3 in
      (created ≡ some (initiation, sender))
      × (int_is sent 148 ≡ true)
      × (is_neg count ≡ false)
      × IsResponse (quiet response) outer count (take (to_nat count) buffer) source gateway sender
      × Completes
          (quiet response)
          outer
          (take (to_nat count) buffer)
          peer'
          (shake_hands (quiet response) outer (pos 4) gateway session).1.peer
unfolding shake_hands
shake_hands_accepts_example =
    shake_hands_accepts (quiet response) outer (pos 4) gateway session refl
