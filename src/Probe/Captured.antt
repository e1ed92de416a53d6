-- ===== src/Probe/Captured.antt =====
-- What the STUN test and the capture leave behind, and when the test succeeds.
use moonlight_tailscale_vita.Common.{
  ℕ, ◌≤◌, true, false, List, ℤ, pos, is_neg, to_nat, take, u64, ◌≡◌, ◌↔◌, refl, sym, ◌∙◌, arith,
  Bool-cases, inl, inr,
}
use moonlight_tailscale_vita.Probe.{Net, Host, stun_host}
use moonlight_tailscale_vita.Probe.Stun.{
  stun_request, is_answer, resolve_ipv4, exchange, test_stun, test_packet_capture,
}
use moonlight_tailscale_vita.Probe.Handles.{Handle, KeepsHandles}

module _ {World : Type 0} (x : Net World) (handles : World → List Handle)
    (k : KeepsHandles x handles) where
  resolve_ipv4-handles : (host : Host) (w : World) → handles (resolve_ipv4 x host w).1 ≡ handles w
  unfolding resolve_ipv4
  resolve_ipv4-handles host w =
      let made = x.resolver_create w in
      let asked = x.resolver_start made.0 host made.1 in
      ground (
        arith,
        k.resolvers w,
        k.resolves made.0 host made.1,
        k.resolver_ends made.0 (handles w) asked.2,
      )

  exchange-handles : (h : ℤ) (a : ℕ) (w : World) → handles (exchange x h a w).1 ≡ handles w
  unfolding exchange
  exchange-handles h a w =
      let request = stun_request (u64 (x.process_time w)) in
      let sent = x.sendto h request a 19302 w in
      ground (arith, k.sends h request a 19302 w, k.receives h 512 sent.1)

  test_stun-handles : (w : World) → handles (test_stun x w).1 ≡ handles w
  unfolding test_stun
  test_stun-handles w =
      let found = resolve_ipv4 x stun_host w in
      let made = x.udp_socket found.1 in
      let set = x.set_timeouts made.0 made.1 in
      let done = exchange x made.0 found.0.1 set in
      ground (
        arith,
        resolve_ipv4-handles stun_host w,
        k.udp_sockets found.1,
        k.timeouts made.0 made.1,
        exchange-handles made.0 found.0.1 set,
        k.closes made.0 (handles w) done.1,
      )

  -- The exchange is a success exactly if all of the request went out and what came back answers it.
  pub record IsAnswered (h : ℤ) (a : ℕ) (w : World) : Type 0 where
    pub all_sent : (x.sendto h (stun_request (u64 (x.process_time w))) a 19302 w).0 ≡ pos 20
    pub came_back :
        let reply =
          x.recvfrom h 512 (x.sendto h (stun_request (u64 (x.process_time w))) a 19302 w).1 in
        (is_neg reply.0 ≡ false)
        × (20 ≤ to_nat reply.0)
        × (is_answer (stun_request (u64 (x.process_time w))) (take (to_nat reply.0) reply.1) ≡ true)

  exchange_iff : (h : ℤ) (a : ℕ) (w : World) → ((exchange x h a w).0 ≡ pos 0) ↔ IsAnswered h a w
  unfolding exchange
  exchange_iff h a w = (λ e. ground arith, λ e. ground arith)

  test_stun_iff :
      (w : World)
      → let found = resolve_ipv4 x stun_host w in
        let made = x.udp_socket found.1 in
        ((test_stun x w).0 ≡ pos 0) ↔ (
          (is_neg found.0.0 ≡ false)
          × (is_neg made.0 ≡ false)
          × IsAnswered made.0 found.0.1 (x.set_timeouts made.0 made.1))
  unfolding test_stun
  test_stun_iff w =
      let found = resolve_ipv4 x stun_host w in
      let made = x.udp_socket found.1 in
      let done = exchange_iff made.0 found.0.1 (x.set_timeouts made.0 made.1) in
      elim (Bool-cases (is_neg found.0.0)) [
        | inl lost ↦ (λ e. absurd (ground arith), λ e. absurd (ground arith))
        | inr there ↦ elim (Bool-cases (is_neg made.0)) [
          | inl failed ↦ (λ e. absurd (ground arith), λ e. absurd (ground arith))
          | inr fine ↦ rw there (rw fine (λ e. (refl, refl, done.0 e), λ e. done.1 e.2))
        ]
      ]

  -- If the system's handles behave as KeepsHandles says, a capture leaves the handles open that were
  -- open before it, whatever fails in it. Its traffic is a success exactly if the server's name was
  -- resolved, a socket was there, all 20 bytes of the request went out to the address found, and the
  -- datagram that came back is a binding success for that request.
  pub test_packet_capture_lem :
      (w : World)
      → let out = test_packet_capture x w in
        let found = resolve_ipv4 x stun_host (x.dump_create w).1 in
        let made = x.udp_socket found.1 in
        (handles out.1 ≡ handles w)
        × ((out.0.traffic_result ≡ pos 0) ↔ (
            (is_neg found.0.0 ≡ false)
            × (is_neg made.0 ≡ false)
            × IsAnswered made.0 found.0.1 (x.set_timeouts made.0 made.1)))
  unfolding test_packet_capture
  test_packet_capture_lem w =
      let made = x.dump_create w in
      let tested = test_stun x made.1 in
      let delayed = x.delay 100000 tested.1 in
      let got = x.dump_read made.0 delayed in
      let traffic : (test_packet_capture x w).0.traffic_result ≡ tested.0 = ground arith in
      (
        ground (
          arith,
          k.dumps w,
          test_stun-handles made.1,
          k.delays 100000 tested.1,
          k.reads made.0 delayed,
          k.dump_ends made.0 (handles w) got.1,
        ),
        (
          (λ e. (test_stun_iff made.1).0 (sym traffic ∙ e)),
          (λ e. traffic ∙ (test_stun_iff made.1).1 e),
        ),
      )
