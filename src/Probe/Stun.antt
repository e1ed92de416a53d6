-- ===== src/Probe/Stun.antt =====
-- `resolve_ipv4`, `test_stun` and `test_packet_capture`: one question to a STUN server, alone and
-- while packets are captured.
use moonlight_tailscale_vita.Common.{
  ℕ, ◌/◌, ◌^◌, Bool, ◌&&◌, [], ◌∷◌, Bytes, ℤ, pos, neg, is_neg, int_is, to_nat, leb, ◌==◌,
  if◌then◌else◌, take, drop, get_or, same, u8, u64,
}
use moonlight_tailscale_vita.Probe.{Net, Host, stun_host}

-- `uint64_t` in memory, the least significant byte first.
abbrev pub bytes_of : ℕ → Bytes
bytes_of n =
    u8 n
    ∷ u8 (n / 2 ^ 8)
    ∷ u8 (n / 2 ^ 16)
    ∷ u8 (n / 2 ^ 24)
    ∷ u8 (n / 2 ^ 32)
    ∷ u8 (n / 2 ^ 40)
    ∷ u8 (n / 2 ^ 48)
    ∷ u8 (n / 2 ^ 56)
    ∷ []

-- The request: a binding request without attributes, the magic cookie, "TSVI" and the time.
abbrev pub stun_request : ℕ → Bytes
stun_request stamp =
    0x00
    ∷ 0x01
    ∷ 0x00
    ∷ 0x00
    ∷ 0x21
    ∷ 0x12
    ∷ 0xa4
    ∷ 0x42
    ∷ 0x54
    ∷ 0x53
    ∷ 0x56
    ∷ 0x49
    ∷ bytes_of stamp

-- A binding success for the twelve bytes of the request behind its cookie.
unfoldable pub is_answer : Bytes → Bytes → Bool
is_answer request response =
    get_or response 0 0 == 1
    && get_or response 1 0 == 1
    && same (take 12 (drop 8 response)) (take 12 (drop 8 request))

module _ {World : Type 0} (x : Net World) where
  -- The address is 0 where the resolver was not asked.
  unfoldable pub resolve_ipv4 : Host → World → (ℤ × ℕ) × World
  resolve_ipv4 host w =
      let (resolver, w1) = x.resolver_create w in
      if is_neg resolver
      then ((resolver, 0), w1)
      else (let (result, address, w2) = x.resolver_start resolver host w1 in
          ((result, address), x.resolver_destroy resolver w2))

  -- The result of the exchange on an open socket.
  unfoldable pub exchange : ℤ → ℕ → World → ℤ × World
  exchange socket address w =
      let request = stun_request (u64 (x.process_time w)) in
      let (sent, w1) = x.sendto socket request address 19302 w in
      if int_is sent 20
      then (let (received, buffer, w2) = x.recvfrom socket 512 w1 in
          if is_neg received
          then (received, w2)
          else if leb 20 (to_nat received) && is_answer request (take (to_nat received) buffer)
          then (pos 0, w2)
          else (neg 2, w2))
      else (if is_neg sent then sent else neg 3, w1)

  unfoldable pub test_stun : World → ℤ × World
  unfolding resolve_ipv4 exchange
  test_stun w =
      let ((resolved, address), w1) = resolve_ipv4 stun_host w in
      if is_neg resolved
      then (resolved, w1)
      else (let (socket, w2) = x.udp_socket w1 in
          if is_neg socket
          then (socket, w2)
          else (let (result, w3) = exchange socket address (x.set_timeouts socket w2) in
              (result, x.close socket w3)))

  -- `CaptureProbeDetail`, without the flags and the errno that are only printed.
  pub record Capture : Type 0 where
    pub create_result : ℤ
    pub traffic_result : ℤ
    pub read_result : ℤ

  unfoldable pub test_packet_capture : World → Capture × World
  unfolding test_stun
  test_packet_capture w =
      let (dump, w1) = x.dump_create w in
      let (traffic, w2) = test_stun w1 in
      if is_neg dump
      then (record { create_result = dump; traffic_result = traffic; read_result = dump }, w2)
      else (let (count, w3) = x.dump_read dump (x.delay 100000 w2) in
          (
            record { create_result = dump; traffic_result = traffic; read_result = count },
            x.dump_destroy dump w3,
          ))
