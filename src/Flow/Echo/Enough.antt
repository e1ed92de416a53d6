-- ===== src/Flow/Echo/Enough.antt =====
-- The loops of `send_lwip_echo` and the clock.
use moonlight_tailscale_vita.Common.{
  ℕ, zero, suc, ◌+◌, ◌-◌, ◌^◌, ◌≤◌, ◌<◌, Bool, not, ◌&&◌, ◌||◌, Option, some, Bytes, ℤ, pos, neg,
  is_neg, is_pos, to_nat, ltb, u64, take, length, ◌≡◌, refl, ap, arith, Bool-cases, inl, inr,
}
use native.Mathlib.Nat.{le_refl}
use moonlight_tailscale_vita.Common.State.{State}
use moonlight_tailscale_vita.Tunnel.{Source}
use moonlight_tailscale_vita.Tunnel.Transport.{total_length}
use moonlight_tailscale_vita.Flow.Context.{
  Context, Lwip, Saying, deliver, is_from_peer, process_plaintext, process_authenticated,
  lwip_process_transport,
}
use moonlight_tailscale_vita.Flow.Context.Inbound.{lwip_process_transport_cases}
use moonlight_tailscale_vita.Flow.Echo.{
  udp_timeout_us, poll, await, await_for, await_echo, await_tcp, then_part, say, always,
  set_poll_timeout, run_udp, run_tcp, send_lwip_echo,
}

-- What is taken of the clock: it gives 64 bits, it goes on with every time it is read, up to the end of
-- its range, and no other call that a loop makes turns it back.
pub record Ticks {Peer World : Type 0} (x : Lwip Peer World) (clock : World → ℕ) : Type 0 where
  pub reads : (w : World) → ((x.process_time w).0 ≡ clock w) × (clock w < 2 ^ 64)
  pub goes_on : (w : World) → clock w < 2 ^ 64 - 1 → clock w < clock (x.process_time w).1
  pub not_back : (w : World) → clock w ≤ clock (x.process_time w).1
  pub receives : (s : ℤ) (n : ℕ) (w : World) → clock w ≤ clock (x.recvfrom s n w).3
  pub allocates : (n : ℕ) (w : World) → clock w ≤ clock (x.pbuf_alloc n w).1
  pub takes : (b : Bytes) (w : World) → clock w ≤ clock (x.pbuf_take b w).1
  pub frees : (w : World) → clock w ≤ clock (x.pbuf_free w)
  pub inputs : (b : Bytes) (c : Context Peer World) → clock c.world ≤ clock (x.input b c).1.world
  pub timeouts : (c : Context Peer World) → clock c.world ≤ clock (x.check_timeouts c).1.world

module _ {Peer World : Type 0} (x : Lwip Peer World) (clock : World → ℕ) (k : Ticks x clock) where
  deliver-clock :
      (packet : Bytes) (c : Context Peer World) → clock c.world ≤ clock (deliver x packet c).1.world
  unfolding deliver
  deliver-clock packet c =
      let (allocated, w1) = x.pbuf_alloc (length packet) c.world in
      let a = k.allocates (length packet) c.world in
      let (taken, w2) = x.pbuf_take packet w1 in
      let t = k.takes packet w1 in
      elim (Bool-cases allocated) [
        | inr e ↦ rw e a
        | inl e ↦ elim (Bool-cases taken) [
          | inr e' ↦ rw e (rw e' (omega (arith, a, t, k.frees w2)))
          | inl e' ↦
              let c2 = record c { world = w2 } in
              let i = k.inputs packet c2 in
              elim (Bool-cases (x.input packet c2).0) [
                | inl e'' ↦ rw e (rw e' (rw e'' (omega (arith, a, t, i))))
                | inr e'' ↦ rw e (rw e' (rw e'' (omega (arith, a, t, i))))
              ]
        ]
      ]

  process_plaintext-clock :
      (size : ℕ) (plaintext : Bytes) (c : Context Peer World)
      → clock c.world ≤ clock (process_plaintext x size plaintext c).1.world
  unfolding process_plaintext
  process_plaintext-clock size plaintext c =
      let total = total_length plaintext in
      elim (Bool-cases (is_from_peer x size plaintext)) [
        | inr e ↦ rw e (le_refl (clock c.world))
        | inl e ↦ elim (Bool-cases (ltb total 20 || ltb size total)) [
          | inl l ↦ rw e (rw l (le_refl (clock c.world)))
          | inr l ↦ rw e (rw l (deliver-clock (take total plaintext) c))
        ]
      ]

  lwip_process_transport-clock :
      (incoming : Bytes) (source : Source) (c : Context Peer World)
      → clock c.world ≤ clock (lwip_process_transport x incoming source c).1.world
  unfolding process_authenticated
  lwip_process_transport-clock incoming source c =
      elim (lwip_process_transport_cases x incoming source c) [
        | inl (_, same') ↦ omega (arith, ap (λ (d : Context Peer World). clock d.world) same')
        | inr (size, keypair, plaintext, (_, e)) ↦
            let replay = x.check_replay keypair (x.transport_counter incoming) c.peer in
            let checked = record c { peer = replay.1 } in
            elim (Bool-cases replay.0) [
              | inl fresh ↦ rw e (rw fresh (process_plaintext-clock size plaintext checked))
              | inr stale ↦ rw e (rw stale (le_refl (clock c.world)))
            ]
      ]

  poll-clock : (c : Context Peer World) → clock c.world ≤ clock (poll x c).1.world
  unfolding poll
  poll-clock c =
      let (received, buffer, source, w) = x.recvfrom c.socket_id 1600 c.world in
      let r = k.receives c.socket_id 1600 c.world in
      let c1 = record c { world = w } in
      let incoming = take (to_nat received) buffer in
      let p = lwip_process_transport-clock incoming source c1 in
      let (result, c2) = lwip_process_transport x incoming source c1 in
      elim (Bool-cases (is_pos received)) [
        | inr e ↦ rw e (omega (arith, r, k.timeouts c1))
        | inl e ↦ elim (Bool-cases (is_neg result)) [
          | inl e' ↦ rw e (rw e' (omega (arith, r, p)))
          | inr e' ↦ rw e (rw e' (omega (arith, r, p, k.timeouts c2)))
        ]
      ]

  await-some :
      (waits : Context Peer World → Bool) (fuel deadline : ℕ) (c : Context Peer World)
      → deadline < 2 ^ 64
      → deadline - clock c.world < fuel
      → (r : ℤ) × ((await x waits fuel deadline c).0 ≡ some r)
  unfolding await
  await-some waits zero deadline c h enough = absurd (omega (arith, enough))
  await-some waits (suc fuel) deadline c h enough =
      let (now, w) = x.process_time c.world in
      let c1 = record c { world = w } in
      let (result, c') = poll x c1 in
      let p = poll-clock c1 in
      let reading = k.reads c.world in
      elim (Bool-cases (waits c)) [
        | inr e ↦ rw e (pos 0, refl)
        | inl e ↦ elim (Bool-cases (ltb (u64 now) deadline)) [
          | inr l ↦ rw e (rw l (pos 0, refl))
          | inl l ↦ elim (Bool-cases (is_neg result)) [
            | inl n ↦ rw e (rw l (rw n (result, refl)))
            | inr n ↦
                let early : clock c.world < deadline = ground (arith, l, reading) in
                let on = k.goes_on c.world (omega (arith, early)) in
                rw e (
                  rw l (
                    rw n
                      (await-some waits fuel deadline c' h (omega (arith, enough, early, on, p)))))
          ]
        ]
      ]

  -- A part that comes back with a result.
  Returns : State (Context Peer World) (Option ℤ) → Type 0
  Returns m = (c : Context Peer World) → (r : ℤ) × ((m c).0 ≡ some r)

  await_for-Returns :
      (waits : Context Peer World → Bool) (fuel : ℕ)
      → udp_timeout_us < fuel
      → Returns (await_for x waits fuel)
  unfolding Returns await_for
  await_for-Returns waits fuel h c =
      let (now, w) = x.process_time c.world in
      await-some waits fuel (u64 (u64 now + udp_timeout_us)) (record c { world = w }) (omega arith)
        (omega (arith, k.reads c.world, k.not_back c.world, h))

  await_echo-Returns : (fuel : ℕ) → udp_timeout_us < fuel → Returns (await_echo x fuel)
  unfolding Returns await_echo
  await_echo-Returns fuel h c =
      let waits = λ (d : Context Peer World). not d.echo_received in
      let (r, e) = await_for-Returns waits fuel h c in
      let c' = (await_for x waits fuel c).1 in
      elim (Bool-cases (is_neg r)) [
        | inl n ↦ rw e (rw n (r, refl))
        | inr n ↦ elim (Bool-cases c'.echo_received) [
          | inl f ↦ rw e (rw n (rw f (pos 0, refl)))
          | inr f ↦ rw e (rw n (rw f (neg 46, refl)))
        ]
      ]

  await_tcp-Returns : (fuel : ℕ) → udp_timeout_us < fuel → Returns (await_tcp x fuel)
  unfolding Returns await_tcp
  await_tcp-Returns fuel h c =
      let waits =
        λ (d : Context Peer World). (not d.tcp_received || not d.tcp_closed) && not d.tcp_failed in
      let (r, e) = await_for-Returns waits fuel h c in
      let c' = (await_for x waits fuel c).1 in
      elim (Bool-cases (is_neg r)) [
        | inl n ↦ rw e (rw n (r, refl))
        | inr n ↦ elim (Bool-cases (not c'.tcp_connected || not c'.tcp_received || c'.tcp_failed)) [
          | inl f ↦ rw e (rw n (rw f (neg 49, refl)))
          | inr f ↦ rw e (rw n (rw f (pos 0, refl)))
        ]
      ]

  then_part-Returns :
      (first second : State (Context Peer World) (Option ℤ))
      → Returns first
      → Returns second
      → Returns (then_part x first second)
  unfolding Returns then_part
  then_part-Returns first second h k' c =
      let (r, e) = h c in
      elim (Bool-cases (is_neg r)) [
        | inl n ↦ rw (e, then_part) (rw n (r, refl))
        | inr n ↦ rw (e, then_part) (rw n (k' (first c).1))
      ]

  always-Returns : (m : State (Context Peer World) ℤ) → Returns (always x m)
  unfolding Returns always
  always-Returns m c = ((m c).0, refl)

  say-Returns : (saying : Context Peer World → Saying) → Returns (say x saying)
  unfolding Returns say
  say-Returns saying c = (pos 0, refl)

  set_poll_timeout-Returns : Returns (set_poll_timeout x)
  unfolding Returns set_poll_timeout
  set_poll_timeout-Returns c = (pos 0, refl)

  run_udp-Returns : (fuel : ℕ) → udp_timeout_us < fuel → Returns (run_udp x fuel)
  unfolding run_udp
  run_udp-Returns fuel h = then_part-Returns _ _ (always-Returns _) (
      then_part-Returns _ _ (say-Returns _) (
        then_part-Returns _ _ set_poll_timeout-Returns
          (then_part-Returns _ _ (await_echo-Returns fuel h) (say-Returns _))))

  run_tcp-Returns : (fuel : ℕ) → udp_timeout_us < fuel → Returns (run_tcp x fuel)
  unfolding run_tcp
  run_tcp-Returns fuel h = then_part-Returns _ _ (always-Returns _) (
      then_part-Returns _ _ (await_tcp-Returns fuel h) (
        then_part-Returns _ _ (say-Returns _)
          (then_part-Returns _ _ (say-Returns _) (say-Returns _))))

  -- The echoes come to a result, whatever arrives and even if nothing does: each loop runs at most once
  -- for each microsecond of its five seconds.
  pub send_lwip_echo_returns :
      (fuel : ℕ) (c : Context Peer World)
      → udp_timeout_us < fuel
      → (r : ℤ) × ((send_lwip_echo x fuel c).0 ≡ some r)
  unfolding send_lwip_echo Returns
  send_lwip_echo_returns fuel c h =
      let c1 = record c { world = x.init_once (x.free_memory c.world).1 } in
      let (added, w) = x.netif_add c1.world in
      let flows =
        then_part-Returns (run_udp x fuel) (run_tcp x fuel) (run_udp-Returns fuel h)
          (run_tcp-Returns fuel h) in
      elim (Bool-cases added) [
        | inr e ↦ rw e (neg 40, refl)
        | inl e ↦ rw e (flows (record c { world = x.netif_up w }))
      ]
