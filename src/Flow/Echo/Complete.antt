-- ===== src/Flow/Echo/Complete.antt =====
-- The flags of the context behind the parts of `send_lwip_echo`.
use moonlight_tailscale_vita.Common.{
  ℕ, ◌<◌, Bool, true, false, not, ◌&&◌, ◌||◌, Option, some, ℤ, pos, neg, is_neg, if◌then◌else◌, ◌≡◌,
  refl, sym, ap, subst, ◌∙◌, arith, Bool-cases, Option-cases, inl, inr,
}
use moonlight_tailscale_vita.Common.State.{State}
use moonlight_tailscale_vita.Flow.Context.{
  Context, Lwip, Saying, tcp_echo, udp_echo, flows, interface,
}
use moonlight_tailscale_vita.Flow.Context.Marks.{KeepsContext}
use moonlight_tailscale_vita.Flow.Echo.{
  udp_timeout_us, start_tcp, await_for, await_echo, await_tcp, then_part, say, always, run_udp,
  run_tcp, abort_tcp, remove_udp, cleanup, memory_line, send_lwip_echo,
}
use moonlight_tailscale_vita.Flow.Echo.Enough.{Ticks, send_lwip_echo_returns}
use moonlight_tailscale_vita.Flow.Echo.Grows.{
  Grows, Grows-refl, Grows-trans, Through-Grows, await_for-Grows, start_tcp-Grows, then_part-Grows,
}

rejected : (v r : ℤ) → is_neg v ≡ true → is_neg r ≡ false → some v ≡ some r → false ≡ true
rejected v r n fine e = ground (arith, n, fine, e)

module _ {Peer World : Type 0} (x : Lwip Peer World) where
  -- If a part behind another succeeds, both have run.
  then_part-both :
      (f g : State (Context Peer World) (Option ℤ)) (c : Context Peer World) (s : ℤ)
      → is_neg s ≡ false
      → (then_part x f g c).0 ≡ some s
      → (r : ℤ) × ((f c).0 ≡ some r) × (is_neg r ≡ false) × (then_part x f g c ≡ g (f c).1)
  unfolding then_part
  then_part-both f g c s fine h = elim (Option-cases (f c).0) [
    | inl e ↦ absurd (ground (arith, e, h))
    | inr (r, e) ↦ elim (Bool-cases (is_neg r)) [
      | inl n ↦ absurd (ground (arith, e, n, h, fine))
      | inr n ↦ (r, e, n, rw (e, then_part) (rw n refl))
    ]
  ]

  say-Grows :
      (saying : Context Peer World → Saying) (c : Context Peer World) → Grows x c (say x saying c).1
  unfolding say
  say-Grows saying c = (λ q. q, λ q. q, λ q. q)

  await_echo-set :
      (fuel : ℕ) (c : Context Peer World) (r : ℤ)
      → is_neg r ≡ false
      → (await_echo x fuel c).0 ≡ some r
      → (await_echo x fuel c).1.echo_received ≡ true
  unfolding await_echo
  await_echo-set fuel c r fine h =
      let out = await_for x (λ d. not d.echo_received) fuel c in
      elim (Option-cases out.0) [
        | inl e ↦ absurd (ground (arith, e, h))
        | inr (v, e) ↦ elim (Bool-cases (is_neg v)) [
          | inl n ↦
              absurd
                (ground (arith, rejected v r n fine (sym (rw (e, await_echo) (rw n refl)) ∙ h)))
          | inr n ↦ elim (Bool-cases out.1.echo_received) [
            | inl f ↦ rw (e, await_echo) (rw n (rw f f))
            | inr f ↦ absurd (
                ground (
                  arith,
                  rejected (neg 46) r refl fine (sym (rw (e, await_echo) (rw n (rw f refl))) ∙ h),
                ))
          ]
        ]
      ]

  await_tcp-set :
      (fuel : ℕ) (c : Context Peer World) (r : ℤ)
      → is_neg r ≡ false
      → (await_tcp x fuel c).0 ≡ some r
      → ((await_tcp x fuel c).1.tcp_connected ≡ true) × ((await_tcp x fuel c).1.tcp_received ≡ true)
  unfolding await_tcp
  await_tcp-set fuel c r fine h =
      let out =
        await_for x (λ d. (not d.tcp_received || not d.tcp_closed) && not d.tcp_failed) fuel c in
      let missing = not out.1.tcp_connected || not out.1.tcp_received || out.1.tcp_failed in
      elim (Option-cases out.0) [
        | inl e ↦ absurd (ground (arith, e, h))
        | inr (v, e) ↦ elim (Bool-cases (is_neg v)) [
          | inl n ↦
              absurd (ground (arith, rejected v r n fine (sym (rw (e, await_tcp) (rw n refl)) ∙ h)))
          | inr n ↦ elim (Bool-cases missing) [
            | inl f ↦ absurd (
                ground (
                  arith,
                  rejected (neg 49) r refl fine (sym (rw (e, await_tcp) (rw n (rw f refl))) ∙ h),
                ))
            | inr f ↦ rw (e, await_tcp) (rw n (rw f (ground (arith, f), ground (arith, f))))
          ]
        ]
      ]

  -- A part after which `Q` holds if it succeeds.
  Sets : (Context Peer World → Type 0) → State (Context Peer World) (Option ℤ) → Type 0
  Sets Q f = (c : Context Peer World) (r : ℤ) → is_neg r ≡ false → (f c).0 ≡ some r → Q (f c).1

  then_part-second :
      (Q : Context Peer World → Type 0) (f g : State (Context Peer World) (Option ℤ))
      → Sets Q g
      → Sets Q (then_part x f g)
  unfolding Sets
  then_part-second Q f g h c r fine e =
      let (_, _, _, same') = then_part-both f g c r fine e in
      subst (λ (out : Option ℤ × Context Peer World). Q out.1) (sym same')
        (h (f c).1 r fine (sym (ap (λ (out : Option ℤ × Context Peer World). out.0) same') ∙ e))

  then_part-first :
      (Q : Context Peer World → Type 0) (f g : State (Context Peer World) (Option ℤ))
      → Sets Q f
      → ((c : Context Peer World) → Q c → Q (g c).1)
      → Sets Q (then_part x f g)
  unfolding Sets
  then_part-first Q f g h kept c r fine e =
      let (v, ran, ok', same') = then_part-both f g c r fine e in
      subst (λ (out : Option ℤ × Context Peer World). Q out.1) (sym same')
        (kept (f c).1 (h c v ok' ran))

  abbrev EchoSet : Context Peer World → Type 0
  EchoSet c = c.echo_received ≡ true

  abbrev TcpSet : Context Peer World → Type 0
  TcpSet c = (c.tcp_connected ≡ true) × (c.tcp_received ≡ true)

  run_udp-Sets : (fuel : ℕ) → Sets EchoSet (run_udp x fuel)
  unfolding run_udp Sets
  run_udp-Sets fuel = then_part-second EchoSet _ _ (
      then_part-second EchoSet _ _ (
        then_part-second EchoSet _ _ (
          then_part-first EchoSet (await_echo x fuel) (say x (λ c. udp_echo c.inner_rx_size))
            (await_echo-set fuel) (λ c. (say-Grows (λ d. udp_echo d.inner_rx_size) c).0))))

  await_tcp-state :
      (fuel : ℕ) (c : Context Peer World)
      → (await_tcp x fuel c).1
        ≡ (await_for x (λ d. (not d.tcp_received || not d.tcp_closed) && not d.tcp_failed) fuel c).1
  unfolding await_tcp
  await_tcp-state fuel c =
      let out =
        await_for x (λ d. (not d.tcp_received || not d.tcp_closed) && not d.tcp_failed) fuel c in
      let missing = not out.1.tcp_connected || not out.1.tcp_received || out.1.tcp_failed in
      elim (Option-cases out.0) [
        | inl e ↦ rw (e, await_tcp) refl
        | inr (v, e) ↦ elim (Bool-cases (is_neg v)) [
          | inl n ↦ rw (e, await_tcp) (rw n refl)
          | inr n ↦ elim (Bool-cases missing) [
            | inl f ↦ rw (e, await_tcp) (rw n (rw f refl))
            | inr f ↦ rw (e, await_tcp) (rw n (rw f refl))
          ]
        ]
      ]

  await_tcp-Grows :
      KeepsContext x → (fuel : ℕ) (c : Context Peer World) → Grows x c (await_tcp x fuel c).1
  await_tcp-Grows k fuel c =
      subst (λ (d : Context Peer World). Grows x c d) (sym (await_tcp-state fuel c))
        (await_for-Grows x k _ fuel c)

  always-Grows :
      (m : State (Context Peer World) ℤ)
      → ((c : Context Peer World) → Grows x c (m c).1)
      → (c : Context Peer World) → Grows x c (always x m c).1
  unfolding always
  always-Grows m g c = g c

  -- What stands behind the wait for the echo over TCP.
  abbrev tcp_lines : State (Context Peer World) (Option ℤ)
  tcp_lines =
      then_part x (say x (λ _. tcp_echo))
        (then_part x (say x (λ d. flows d.tx_packets d.rx_packets)) (say x (λ _. interface)))

  tcp_lines-Grows : (c : Context Peer World) → Grows x c (tcp_lines c).1
  tcp_lines-Grows =
      then_part-Grows x (say x (λ _. tcp_echo))
        (then_part x (say x (λ d. flows d.tx_packets d.rx_packets)) (say x (λ _. interface)))
        (say-Grows (λ _. tcp_echo))
        (then_part-Grows x (say x (λ d. flows d.tx_packets d.rx_packets)) (say x (λ _. interface))
          (say-Grows (λ d. flows d.tx_packets d.rx_packets)) (say-Grows (λ _. interface)))

  run_tcp-Grows :
      KeepsContext x → (fuel : ℕ) (c : Context Peer World) → Grows x c (run_tcp x fuel c).1
  unfolding run_tcp
  run_tcp-Grows k fuel =
      then_part-Grows x (always x (start_tcp x)) (then_part x (await_tcp x fuel) tcp_lines)
        (always-Grows (start_tcp x) (start_tcp-Grows x k))
        (then_part-Grows x (await_tcp x fuel) tcp_lines (await_tcp-Grows k fuel) tcp_lines-Grows)

  run_tcp-Sets : (fuel : ℕ) → Sets TcpSet (run_tcp x fuel)
  unfolding run_tcp Sets
  run_tcp-Sets fuel =
      then_part-second TcpSet (always x (start_tcp x)) (then_part x (await_tcp x fuel) tcp_lines) (
        then_part-first TcpSet (await_tcp x fuel) tcp_lines (await_tcp-set fuel)
          (λ c (a, b). ((tcp_lines-Grows c).1 a, (tcp_lines-Grows c).2 b)))

  either-Grows :
      (b : Bool) (c : Context Peer World) (u v : (Unit {0}) × Context Peer World)
      → Grows x c u.1
      → Grows x c v.1
      → Grows x c (if b then u else v).1
  either-Grows true c u v g h = g
  either-Grows false c u v g h = h

  abort_tcp-Grows : KeepsContext x → (c : Context Peer World) → Grows x c (abort_tcp x c).1
  unfolding abort_tcp
  abort_tcp-Grows k c =
      let (cs, t) = k.aborts c in
      either-Grows c.has_tcp c (x.tcp_abort c) (tt, c) (Through-Grows x k cs c (x.tcp_abort c).1 t)
        (Grows-refl x c)

  remove_udp-Grows : (c : Context Peer World) → Grows x c (remove_udp x c).1
  unfolding remove_udp
  remove_udp-Grows c =
      let removed = record c { world = x.udp_remove c.world } in
      either-Grows c.has_udp c (tt, removed) (tt, c) (λ q. q, λ q. q, λ q. q) (Grows-refl x c)

  cleanup-Grows : KeepsContext x → (c : Context Peer World) → Grows x c (cleanup x c).1
  unfolding cleanup
  cleanup-Grows k c =
      let g = abort_tcp-Grows k c in
      let d = record (abort_tcp x c).1 { has_tcp = false } in
      let r = remove_udp-Grows d in (λ q. r.0 (g.0 q), λ q. r.1 (g.1 q), λ q. r.2 (g.2 q))

  memory_line-Grows :
      (before : ℤ × ℕ) (c : Context Peer World) → Grows x c (memory_line x before c).1
  unfolding memory_line
  memory_line-Grows before c = elim (Bool-cases (is_neg before.0)) [
    | inl e ↦ rw e (λ q. q, λ q. q, λ q. q)
    | inr e ↦ elim (Bool-cases (is_neg (x.free_memory c.world).0.0)) [
      | inl e' ↦ rw e (rw e' (λ q. q, λ q. q, λ q. q))
      | inr e' ↦ rw e (rw e' (λ q. q, λ q. q, λ q. q))
    ]
  ]

  send_lwip_echo_complete :
      KeepsContext x
      → (fuel : ℕ) (c : Context Peer World) → (send_lwip_echo x fuel c).0 ≡ some (pos 0)
      → let d = (send_lwip_echo x fuel c).1 in
        (d.echo_received ≡ true) × (d.tcp_connected ≡ true) × (d.tcp_received ≡ true)
  unfolding send_lwip_echo Sets
  send_lwip_echo_complete k fuel c h =
      let before = (x.free_memory c.world).0 in
      let (added, w) = x.netif_add (x.init_once (x.free_memory c.world).1) in
      let up = record c { world = x.netif_up w } in
      let run = then_part x (run_udp x fuel) (run_tcp x fuel) up in
      elim (Bool-cases added) [
        | inr e ↦ absurd (ground (arith, rejected (neg 40) (pos 0) refl refl (sym (rw e refl) ∙ h)))
        | inl e ↦
            let ran : run.0 ≡ some (pos 0) = sym (rw e refl) ∙ h in
            let u =
              then_part-first EchoSet (run_udp x fuel) (run_tcp x fuel) (run_udp-Sets fuel)
                (λ d. (run_tcp-Grows k fuel d).0) up (pos 0) refl ran in
            let t =
              then_part-second TcpSet (run_udp x fuel) (run_tcp x fuel) (run_tcp-Sets fuel) up
                (pos 0) refl ran in
            let g =
              Grows-trans x run.1 (cleanup x run.1).1 (memory_line x before (cleanup x run.1).1).1
                (cleanup-Grows k run.1) (memory_line-Grows before (cleanup x run.1).1) in
            rw e (g.0 u, g.1 t.0, g.2 t.1)
      ]

  -- With a clock as Ticks says and lwIP as KeepsContext says: the echoes come to a result, whatever
  -- arrives and even if nothing does, since each loop runs at most once for each microsecond of its
  -- five seconds; and if the result is 0, all three flags are set: the echo over UDP has arrived, the
  -- connection has been made, and the echo over TCP has arrived.
  pub send_lwip_echo_lem :
      (clock : World → ℕ)
      → Ticks x clock
      → KeepsContext x
      → (fuel : ℕ) (c : Context Peer World) → udp_timeout_us < fuel
      → let out = send_lwip_echo x fuel c in
        (r : ℤ) × (out.0 ≡ some r)
        × (r ≡ pos 0
            → (out.1.echo_received ≡ true)
              × (out.1.tcp_connected ≡ true)
              × (out.1.tcp_received ≡ true))
  send_lwip_echo_lem clock ticks k fuel c enough =
      let (r, e) = send_lwip_echo_returns x clock ticks fuel c enough in
      (r, e, λ q. send_lwip_echo_complete k fuel c (e ∙ ap some q))
