-- ===== src/Flow/Echo.antt =====
-- `send_lwip_echo` of src/wg_handshake_probe.c: an echo over UDP, then one over TCP, through an interface
-- of lwIP that is taken down again. A part of it gives a negative result where the source jumps to
-- `cleanup`. The loops end by the clock; `fuel` bounds their rounds, and `none` says that it ran out.
pub mod Enough
pub mod Grows
pub mod Complete
use moonlight_tailscale_vita.Common.{
  ℕ, zero, suc, ◌+◌, ◌-◌, ◌*◌, ◌/◌, Bool, true, false, not, ◌&&◌, ◌||◌, Option, none, some, Bytes,
  ℤ, pos, neg, is_neg, is_pos, to_nat, ltb, leb, if◌then◌else◌, u64, length, take,
}
use moonlight_tailscale_vita.Common.State.{State, ◌>>=◌, ◌>>◌, pure, get, modify}
use moonlight_tailscale_vita.Report.{Level, info, ok}
use moonlight_tailscale_vita.Flow.Context.{
  Context, Lwip, Saying, udp_generated, udp_echo, tcp_echo, flows, interface, lwip_memory,
  echo_payload, outside, outside_only, lwip_process_transport,
}

abbrev pub udp_timeout_us : ℕ
udp_timeout_us = 5000000

abbrev pub lwip_poll_timeout_us : ℕ
lwip_poll_timeout_us = 100000

module _ {Peer World : Type 0} (x : Lwip Peer World) where
  -- The pbuf of the request; one that could not be filled is freed.
  unfoldable pub make_request : World → Bool × World
  make_request w =
      let (allocated, w1) = x.pbuf_alloc (length echo_payload) w in
      if allocated
      then (let (taken, w2) = x.pbuf_take echo_payload w1 in
          (taken, if taken then w2 else x.pbuf_free w2))
      else (false, w1)

  unfoldable pub send_request : State (Context Peer World) ℤ
  send_request = do
    sent ← x.udp_send echo_payload
    outside_only x x.pbuf_free
    c ← get
    if is_neg c.output_error
        then pure c.output_error
        else if sent
        then pure (pos 0)
        else pure (neg 45)

  unfoldable pub start_udp : State (Context Peer World) ℤ
  unfolding make_request send_request
  start_udp = do
    has_udp ← outside x x.udp_new
    modify (λ c. record c { has_udp = has_udp })
    if not has_udp then pure (neg 41) else do
      bound ← outside x x.udp_bind
      if not bound then pure (neg 42) else do
        connected ← outside x x.udp_connect
        if not connected then pure (neg 43) else do
          outside_only x x.udp_receive
          made ← outside x make_request
          if made then send_request else pure (neg 44)

  unfoldable pub start_tcp : State (Context Peer World) ℤ
  start_tcp = do
    has_tcp ← outside x x.tcp_new
    modify (λ c. record c { has_tcp = has_tcp })
    if not has_tcp then pure (neg 47) else do
      bound ← outside x x.tcp_bind
      if not bound then pure (neg 47) else do
        outside_only x x.tcp_callbacks
        connecting ← x.tcp_connect
        if connecting then pure (pos 0) else pure (neg 48)

  -- One pass of a loop.
  unfoldable pub poll : State (Context Peer World) ℤ
  poll c =
      let (received, buffer, source, w) = x.recvfrom c.socket_id 1600 c.world in
      let c1 = record c { world = w } in
      if is_pos received
      then (let (result, c2) = lwip_process_transport x (take (to_nat received) buffer) source c1 in
          if is_neg result then (result, c2) else (pos 0, (x.check_timeouts c2).1))
      else (pos 0, (x.check_timeouts c1).1)

  -- While `waits` holds and the deadline has not come.
  unfoldable pub await :
      (waits : Context Peer World → Bool)
      → (fuel deadline : ℕ) → State (Context Peer World) (Option ℤ)
  unfolding poll
  await waits zero deadline c = (none, c)
  await waits (suc fuel) deadline c =
      if waits c
      then (let (now, w) = x.process_time c.world in
          let (result, c') = poll (record c { world = w }) in
          let rest = await waits fuel deadline c' in
          if ltb (u64 now) deadline
          then (if is_neg result then (some result, c') else rest)
          else (some (pos 0), record c { world = w }))
      else (some (pos 0), c)

  -- A loop with the deadline that starts with it.
  unfoldable pub await_for :
      (waits : Context Peer World → Bool) → (fuel : ℕ) → State (Context Peer World) (Option ℤ)
  unfolding await
  await_for waits fuel = do
    now ← outside x x.process_time
    await waits fuel (u64 (u64 now + udp_timeout_us))

  unfoldable pub await_echo : (fuel : ℕ) → State (Context Peer World) (Option ℤ)
  unfolding await_for
  await_echo fuel = do
    waited ← await_for (λ c. not c.echo_received) fuel
    c ← get
    elim waited [
      | none ↦ pure none
      | some result ↦
          if is_neg result
          then pure (some result)
          else if c.echo_received
          then pure (some (pos 0))
          else pure (some (neg 46))
    ]

  unfoldable pub await_tcp : (fuel : ℕ) → State (Context Peer World) (Option ℤ)
  unfolding await_for
  await_tcp fuel = do
    waited ← await_for (λ c. (not c.tcp_received || not c.tcp_closed) && not c.tcp_failed) fuel
    c ← get
    elim waited [
      | none ↦ pure none
      | some result ↦
          if is_neg result
          then pure (some result)
          else if not c.tcp_connected || not c.tcp_received || c.tcp_failed
          then pure (some (neg 49))
          else pure (some (pos 0))
    ]

  -- One part behind another: a result that is negative ends them.
  unfoldable pub then_part :
      State (Context Peer World) (Option ℤ)
      → State (Context Peer World) (Option ℤ)
      → State (Context Peer World) (Option ℤ)
  then_part first second c =
      let (result, c') = first c in
      let rest = second c' in
      elim result [ none ↦ (none, c') | some r ↦ if is_neg r then (some r, c') else rest ]

  -- A line of the report, which may say what the context holds.
  unfoldable pub say : (Context Peer World → Saying) → State (Context Peer World) (Option ℤ)
  say saying c = (some (pos 0), record c { world = x.log_line ok (saying c) c.world })

  unfoldable pub always : State (Context Peer World) ℤ → State (Context Peer World) (Option ℤ)
  always m c = let (r, c') = m c in (some r, c')

  unfoldable pub set_poll_timeout : State (Context Peer World) (Option ℤ)
  set_poll_timeout c =
      (some (pos 0), record c { world = x.set_timeout c.socket_id lwip_poll_timeout_us c.world })

  unfoldable pub run_udp : (fuel : ℕ) → State (Context Peer World) (Option ℤ)
  run_udp fuel = then_part (always start_udp) (
      then_part (say (λ c. udp_generated c.inner_tx_size)) (
        then_part set_poll_timeout
          (then_part (await_echo fuel) (say (λ c. udp_echo c.inner_rx_size)))))

  unfoldable pub run_tcp : (fuel : ℕ) → State (Context Peer World) (Option ℤ)
  run_tcp fuel = then_part (always start_tcp) (
      then_part (await_tcp fuel) (
        then_part (say (λ _. tcp_echo))
          (then_part (say (λ c. flows c.tx_packets c.rx_packets)) (say (λ _. interface)))))

  unfoldable pub abort_tcp : State (Context Peer World) (Unit {0})
  abort_tcp c = if c.has_tcp then x.tcp_abort c else (tt, c)

  unfoldable pub remove_udp : State (Context Peer World) (Unit {0})
  remove_udp c = if c.has_udp then (tt, record c { world = x.udp_remove c.world }) else (tt, c)

  -- What follows the label `cleanup`, up to the memory.
  unfoldable pub cleanup : State (Context Peer World) (Unit {0})
  unfolding abort_tcp remove_udp
  cleanup = do
    abort_tcp
    modify (λ c. record c { has_tcp = false })
    remove_udp
    outside_only x x.netif_remove

  abbrev pub difference : ℕ → ℕ → ℤ
  difference before after =
      if leb after before then pos ((before - after) / 1024) else neg ((after - before) / 1024)

  unfoldable pub memory_line : (before : ℤ × ℕ) → State (Context Peer World) (Unit {0})
  memory_line before = if is_neg before.0 then pure tt else do
    after ← outside x x.free_memory
    if is_neg after.0
        then pure tt
        else outside_only x (
            x.log_line info (
              lwip_memory (before.1 / 1024 / 1024) (after.1 / 1024 / 1024)
                (difference before.1 after.1)))

  -- The context is the one that the source fills in first.
  unfoldable pub send_lwip_echo : (fuel : ℕ) → State (Context Peer World) (Option ℤ)
  unfolding cleanup memory_line
  send_lwip_echo fuel = do
    before ← outside x x.free_memory
    outside_only x x.init_once
    added ← outside x x.netif_add
    if not added then pure (some (neg 40)) else do
      outside_only x x.netif_up
      result ← then_part (run_udp fuel) (run_tcp fuel)
      cleanup
      memory_line before
      pure result
