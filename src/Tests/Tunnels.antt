-- ===== src/Tests/Tunnels.antt =====
-- moonlight/tunnel.c at concrete inputs.
use moonlight_tailscale_vita.Common.{
  ℕ, ◌+◌, ◌-◌, ◌%◌, if◌then◌else◌, ◌==◌, ◌≤◌, ◌≡◌, ◌≢◌, ◌↔◌, ◌⊎◌, refl, true, none, some, List, [],
  ◌∷◌, ◌++◌, Bytes, ℤ, pos, negsuc, length, take, replicate, get_or, length-append, arith,
}
use moonlight_tailscale_vita.Tunnel.{Env, Tunnel, Source, WireGuard, inner_mtu}
use moonlight_tailscale_vita.Tunnel.Transport.{
  process_transport_locked, process_authenticated, process_plaintext, deliver, is_for_us,
  total_length, send_transport_locked, padded, outgoing_size,
}
use moonlight_tailscale_vita.Tunnel.Transport.Size.{send_transport_locked_size}
use moonlight_tailscale_vita.Tunnel.Transport.Inbound.{
  IsAuthentic, IsInbound, process_transport_locked_cases, process_transport_locked_accepts,
}
use moonlight_tailscale_vita.Tunnel.Receive.{
  should_log_rejection, receive_step, receive_rounds, source_is_peer,
}
use moonlight_tailscale_vita.Tunnel.Receive.Logged.{IsPower, should_log_rejection_iff}
use moonlight_tailscale_vita.Tunnel.Receive.Rekey.{quiet_rounds, receive_rounds-silent}
use moonlight_tailscale_vita.Tunnel.Receive.Forged.{
  receive_step_stranger, receive_step_forged, logged,
}
use moonlight_tailscale_vita.Tunnel.Startup.{
  System, Thread, system, Reach, starting, stopped, online, calling, launching, returned, initially,
  next, call, enters, finishes, Reach-once, enter, finish, launching_count, is_online,
}

-- A peer without cryptography: the tag is sixteen zeros, the plaintext follows the header, and a
-- packet whose plaintext would not begin with 69 does not authenticate.
abbrev pub toy_wireguard : WireGuard ℕ ℕ
toy_wireguard = record {
  authtag_len = 16;
  transport_header_size = 16;
  initiation_size = 148;
  response_size = 92;
  cookie_len = 16;
  message_handshake_response = 2;
  message_transport_data = 4;
  transport_header = λ r c. replicate 16 0;
  transport_receiver = λ p. get_or p 4 0;
  transport_counter = λ p. get_or p 8 0;
  response_receiver = λ p. get_or p 8 0;
  response_mac1 = λ p. [];
  get_message_type = λ p. get_or p 0 0;
  sending_valid = λ p. true;
  remote_index = λ p. 1;
  sending_counter = λ p. p;
  encrypt_packet = λ text p. (text ++ replicate 16 0, p + 1);
  keypair_for = λ p i. some i;
  receiving_valid = λ p k. true;
  decrypt_packet = λ c n k p. if get_or c 0 0 == 69 then some c else none;
  check_replay = λ k n p. (true, p);
  create_initiation = λ p w. (some (replicate 148 1, 9), p, w);
  check_mac1 = λ d m p. true;
  process_response = λ r p. (true, p);
  start_session = λ p. p;
}

abbrev home : Source
home = record { address = 7; port = 51820 }

-- The world is the clock; every receive takes a microsecond, and brings `datagram`.
abbrev toy : Bytes → ℤ → Env ℕ ℕ
toy datagram received = record {
  wireguard = toy_wireguard;
  sendto = λ socket d w. (pos (length d), w);
  recvfrom = λ socket size w. (received, datagram, home, w + 1);
  process_time = λ w. w;
  pbuf_alloc = λ n w. (true, w);
  pbuf_take = λ d w. (true, w);
  pbuf_free = λ w. w;
  tcpip_input = λ d w. (true, w);
  log = λ e w. w;
}

abbrev silence : Env ℕ ℕ
silence = toy [] (negsuc 0)

abbrev tunnel : Tunnel ℕ ℕ
tunnel = record {
  outer_socket = pos 3;
  has_peer = true;
  peer = 0;
  endpoint = home;
  receive_thread_started = true;
  running = true;
  pending_handshake_sender = 9;
  last_handshake_us = 0;
  last_transport_tx_us = 0;
  tx_packets = 0;
  rx_packets = 0;
  decrypt_rejects = 0;
  replay_rejects = 0;
  other_rejects = 0;
  world = 0;
}

-- A packet of the peer with the shortest IPv4 header for this end.
abbrev packet : Bytes
packet =
    replicate 16 4
    ++ (69 ∷ 0 ∷ 0 ∷ 20 ∷ replicate 12 0 ++ (10 ∷ 77 ∷ 0 ∷ 2 ∷ replicate 12 0))
    ++ replicate 16 0

abbrev forged : Bytes
forged = replicate 48 4

process_transport_locked_accepts_example :
    (keypair : ℕ) × (plaintext : Bytes) × (IsAuthentic silence packet tunnel keypair plaintext
      × ((silence.check_replay keypair (silence.transport_counter packet) tunnel.peer).0 ≡ true)
      × (((length packet - 16 - 16 ≡ 0)
            × (process_transport_locked silence packet tunnel ≡ (
              pos 0,
              record tunnel {
                peer =
                    (silence.check_replay keypair (silence.transport_counter packet) tunnel.peer).1;
              },
            )))
          ⊎ (IsInbound silence (length packet - 16 - 16) plaintext
              × (process_transport_locked silence packet tunnel
                  ≡ deliver silence (take (total_length plaintext) plaintext) (record tunnel {
                    peer =
                        (silence.check_replay keypair
                          (silence.transport_counter packet)
                          tunnel.peer).1;
                  })))))
unfolding process_transport_locked process_authenticated process_plaintext deliver is_for_us
process_transport_locked_accepts_example =
    process_transport_locked_accepts silence packet tunnel refl

process_transport_locked_cases_example :
    ((process_transport_locked silence packet tunnel).0 ≢ pos 0)
      × ((process_transport_locked silence packet tunnel).1 ≡ tunnel)
    ⊎ ((keypair : ℕ) × (plaintext : Bytes) × (IsAuthentic silence packet tunnel keypair plaintext
          × (process_transport_locked silence packet tunnel
              ≡ process_authenticated silence keypair 4
                  (length packet - 16 - 16)
                  plaintext
                  tunnel)))
process_transport_locked_cases_example = process_transport_locked_cases silence packet tunnel

receive_rounds-silent_example :
    ((receive_rounds silence 1000 tunnel).1 ≡ quiet_rounds silence 1000 tunnel)
    × ((receive_rounds silence 1000 tunnel).1.pending_handshake_sender ≡ 9)
    × ((receive_rounds silence 1000 tunnel).1.last_handshake_us ≡ 0)
receive_rounds-silent_example =
    receive_rounds-silent silence 1000 tunnel (λ socket world. refl) (ground arith)

receive_step_stranger_example :
    (receive_step silence (record tunnel { endpoint = record { address = 8; port = 1 } })).1
    ≡ record tunnel { endpoint = record { address = 8; port = 1 }; world = 1 }
unfolding source_is_peer
receive_step_stranger_example =
    receive_step_stranger silence (record tunnel { endpoint = record { address = 8; port = 1 } })
      refl

receive_step_forged_example :
    (receive_step (toy forged (pos 48)) tunnel).1
    ≡ record tunnel { decrypt_rejects = 1; world = logged (toy forged (pos 48)) 1 1 }
unfolding source_is_peer
receive_step_forged_example =
    receive_step_forged (toy forged (pos 48)) tunnel 4 refl refl refl (ground arith) (ground arith)
      (ground arith) refl refl refl

abbrev small_packet : Bytes
small_packet = 69 ∷ 0 ∷ 0 ∷ []

encrypts_toy : (text : Bytes) → length (text ++ replicate 16 0) ≡ length text + 16
encrypts_toy text = length-append text (replicate 16 0)

send_transport_locked_size_example :
    let datagram = replicate 16 0 ++ (padded small_packet ++ replicate 16 0) in
    (length (padded small_packet) % 16 ≡ 0)
    × (take 3 (padded small_packet) ≡ small_packet)
    × (length datagram ≡ outgoing_size silence 3)
    × (outgoing_size silence 3 ≤ 16 + inner_mtu + 15 + 16)
    × ((send_transport_locked silence small_packet tunnel).0 ≡ pos 0
        ↔ (silence.sendto (pos 3) datagram 0).0 ≡ pos (outgoing_size silence 3))
send_transport_locked_size_example =
    send_transport_locked_size silence small_packet tunnel (λ p text. encrypts_toy text)
      (λ r c. refl) refl refl (ground arith)

-- Two threads call, one starts the tunnel and is told that it is online.
abbrev two_calls : System
two_calls = system online (calling ∷ returned (pos 0) ∷ []) 1

two_calls-Reach : Reach two_calls
unfolding enter finish
two_calls-Reach =
    next _ _
      (next _ _
        (next _ _ (next _ _ initially (call stopped [] 0))
          (enters stopped starting launching [] [] 0 refl))
        (finishes starting (pos 0) [] [] 1))
      (call online (returned (pos 0) ∷ []) 1)

Reach-once_example :
    (two_calls.starts ≤ 1)
    × (two_calls.state ≡ starting → launching_count two_calls.threads ≡ 1)
    × (two_calls.state ≢ starting → launching_count two_calls.threads ≡ 0)
    × ((before after : List Thread) (result : ℤ)
        → two_calls.threads ≡ before ++ returned result ∷ after
        → (is_online two_calls.state ≡ true) ↔ (result ≡ pos 0))
Reach-once_example = Reach-once two_calls two_calls-Reach

should_log_rejection_iff_example : (should_log_rejection 64 ≡ true) ↔ ((64 ≤ 4) ⊎ IsPower 64)
should_log_rejection_iff_example = should_log_rejection_iff 64 (ground arith) (ground arith)
