-- ===== src/Flow/Echo/Grows.antt =====
-- The flags of the context in the callbacks and the loops of `send_lwip_echo`.
use moonlight_tailscale_vita.Common.{
  ℕ, zero, suc, Bool, true, false, ◌||◌, Option, none, some, List, [], ◌∷◌, Bytes, ℤ, is_neg,
  is_pos, to_nat, ltb, u64, take, length, ◌≡◌, refl, ◌∙◌, same, Bool-cases, Option-cases, inl, inr,
}
use moonlight_tailscale_vita.Common.State.{State}
use moonlight_tailscale_vita.Tunnel.{Source}
use moonlight_tailscale_vita.Tunnel.Transport.{total_length}
use moonlight_tailscale_vita.Flow.Context.{
  Context, Lwip, tcp_payload, is_echo, lwip_echo_received, lwip_tcp_connected, lwip_tcp_received,
  lwip_tcp_error, deliver, is_from_peer, process_plaintext, process_authenticated,
  lwip_process_transport,
}
use moonlight_tailscale_vita.Flow.Context.Marks.{
  Callback, output, echo, connected, received, errored, call_back, KeepsContext, Through, ended,
  works, calls, SameFlags, Sent-SameFlags, output-SameFlags,
}
use moonlight_tailscale_vita.Flow.Context.Inbound.{lwip_process_transport_cases}
use moonlight_tailscale_vita.Flow.Echo.{start_tcp, poll, await, await_for, then_part}

module _ {Peer World : Type 0} (x : Lwip Peer World) where
  -- A flag that is set stays set.
  abbrev pub Grows : Context Peer World → Context Peer World → Type 0
  Grows c d =
      (c.echo_received ≡ true → d.echo_received ≡ true)
      × (c.tcp_connected ≡ true → d.tcp_connected ≡ true)
      × (c.tcp_received ≡ true → d.tcp_received ≡ true)

  pub Grows-refl : (c : Context Peer World) → Grows c c
  Grows-refl c = (λ h. h, λ h. h, λ h. h)

  pub Grows-trans : (c d e : Context Peer World) → Grows c d → Grows d e → Grows c e
  Grows-trans c d e g h = (λ q. h.0 (g.0 q), λ q. h.1 (g.1 q), λ q. h.2 (g.2 q))

  SameFlags-Grows : (c d : Context Peer World) → SameFlags x c d → Grows c d
  SameFlags-Grows c d s = (λ q. s.0 ∙ q, λ q. s.1 ∙ q, λ q. s.2 ∙ q)

  connected-Grows :
      KeepsContext x → (ok : Bool) (c : Context Peer World) → Grows c (lwip_tcp_connected x ok c).1
  unfolding lwip_tcp_connected
  connected-Grows k false c = Grows-refl c
  connected-Grows k true c =
      let (wrote, w) = x.tcp_write tcp_payload c.world in
      let c1 = record c { world = w } in
      let s = Sent-SameFlags x (k.outputs c1) in
      elim (Bool-cases wrote) [
        | inr e ↦ rw e (λ h. h, λ h. h, λ h. h)
        | inl e ↦ elim (Bool-cases (x.tcp_output c1).0) [
          | inl e' ↦ rw e (rw e' (λ q. s.0 ∙ q, λ q. refl, λ q. s.2 ∙ q))
          | inr e' ↦ rw e (rw e' (λ q. s.0 ∙ q, λ q. s.1 ∙ q, λ q. s.2 ∙ q))
        ]
      ]

  received-Grows :
      KeepsContext x
      → (packet : Option Bytes) (ok : Bool) (c : Context Peer World)
      → Grows c (lwip_tcp_received x packet ok c).1
  unfolding lwip_tcp_received
  received-Grows k none false c = Grows-refl c
  received-Grows k (some packet) false c = (λ h. h, λ h. h, λ h. h)
  received-Grows k none true c =
      let s = Sent-SameFlags x (k.closes (record c { tcp_closed = true; has_tcp = false })) in
      (λ q. s.0 ∙ q, λ q. s.1 ∙ q, λ q. s.2 ∙ q)
  received-Grows k (some packet) true c =
      let s = Sent-SameFlags x (k.recveds (length packet) c) in
      elim (Bool-cases (same packet tcp_payload)) [
        | inl e ↦ rw e (λ q. s.0 ∙ q, λ q. s.1 ∙ q, λ q. refl)
        | inr e ↦ rw e (λ q. s.0 ∙ q, λ q. s.1 ∙ q, λ q. s.2 ∙ q)
      ]

  call_back-Grows :
      KeepsContext x → (b : Callback) (c : Context Peer World) → Grows c (call_back x b c)
  unfolding call_back lwip_echo_received lwip_tcp_error
  call_back-Grows k (output packet) c =
      let s = output-SameFlags x packet c in (λ q. s.0 ∙ q, λ q. s.1 ∙ q, λ q. s.2 ∙ q)
  call_back-Grows k (echo none source) c = Grows-refl c
  call_back-Grows k (echo (some packet) source) c = elim (Bool-cases (is_echo x packet source)) [
    | inl e ↦ rw e (λ q. refl, λ q. q, λ q. q)
    | inr e ↦ rw e (λ q. q, λ q. q, λ q. q)
  ]
  call_back-Grows k (connected ok) c = connected-Grows k ok c
  call_back-Grows k (received packet ok) c = received-Grows k packet ok c
  call_back-Grows k errored c = (λ q. q, λ q. q, λ q. q)

  pub Through-Grows :
      KeepsContext x
      → (cs : List Callback) (c d : Context Peer World) → Through x cs c d
      → Grows c d
  Through-Grows k [] c d (ended _) = Grows-refl c
  Through-Grows k cs c d (works w _ _ _ t) =
      Grows-trans c (record c { world = w }) d (λ q. q, λ q. q, λ q. q) (Through-Grows k cs _ d t)
  Through-Grows k (b ∷ cs) c d (calls _ _ _ _ t) =
      Grows-trans c (call_back x b c) d (call_back-Grows k b c) (Through-Grows k cs _ d t)

  deliver-Grows :
      KeepsContext x → (packet : Bytes) (c : Context Peer World) → Grows c (deliver x packet c).1
  unfolding deliver
  deliver-Grows k packet c =
      let (allocated, w1) = x.pbuf_alloc (length packet) c.world in
      let (taken, w2) = x.pbuf_take packet w1 in
      let c2 = record c { world = w2 } in
      let (cs, t) = k.inputs packet c2 in
      let g = Through-Grows k cs c2 (x.input packet c2).1 t in
      elim (Bool-cases allocated) [
        | inr e ↦ rw e (λ q. q, λ q. q, λ q. q)
        | inl e ↦ elim (Bool-cases taken) [
          | inr e' ↦ rw e (rw e' (λ q. q, λ q. q, λ q. q))
          | inl e' ↦ elim (Bool-cases (x.input packet c2).0) [
            | inl e'' ↦ rw e (rw e' (rw e'' (λ q. g.0 q, λ q. g.1 q, λ q. g.2 q)))
            | inr e'' ↦ rw e (rw e' (rw e'' (λ q. g.0 q, λ q. g.1 q, λ q. g.2 q)))
          ]
        ]
      ]

  process_plaintext-Grows :
      KeepsContext x
      → (size : ℕ) (plaintext : Bytes) (c : Context Peer World)
      → Grows c (process_plaintext x size plaintext c).1
  unfolding process_plaintext
  process_plaintext-Grows k size plaintext c =
      let total = total_length plaintext in
      elim (Bool-cases (is_from_peer x size plaintext)) [
        | inr e ↦ rw e (Grows-refl c)
        | inl e ↦ elim (Bool-cases (ltb total 20 || ltb size total)) [
          | inl l ↦ rw e (rw l (Grows-refl c))
          | inr l ↦ rw e (rw l (deliver-Grows k (take total plaintext) c))
        ]
      ]

  lwip_process_transport-Grows :
      KeepsContext x
      → (incoming : Bytes) (source : Source) (c : Context Peer World)
      → Grows c (lwip_process_transport x incoming source c).1
  unfolding process_authenticated
  lwip_process_transport-Grows k incoming source c =
      elim (lwip_process_transport_cases x incoming source c) [
        | inl (_, same') ↦ rw same' (Grows-refl c)
        | inr (size, keypair, plaintext, (_, e)) ↦
            let replay = x.check_replay keypair (x.transport_counter incoming) c.peer in
            let checked = record c { peer = replay.1 } in
            let g = process_plaintext-Grows k size plaintext checked in
            elim (Bool-cases replay.0) [
              | inl fresh ↦ rw e (rw fresh (λ q. g.0 q, λ q. g.1 q, λ q. g.2 q))
              | inr stale ↦ rw e (rw stale (λ q. q, λ q. q, λ q. q))
            ]
      ]

  poll-Grows : KeepsContext x → (c : Context Peer World) → Grows c (poll x c).1
  unfolding poll
  poll-Grows k c =
      let (count, buffer, source, w) = x.recvfrom c.socket_id 1600 c.world in
      let c1 = record c { world = w } in
      let incoming = take (to_nat count) buffer in
      let (result, c2) = lwip_process_transport x incoming source c1 in
      let p = lwip_process_transport-Grows k incoming source c1 in
      let later = λ (d : Context Peer World).
        let (cs, t) = k.timeouts d in Through-Grows k cs d (x.check_timeouts d).1 t in
      elim (Bool-cases (is_pos count)) [
        | inr e ↦ rw e (later c1)
        | inl e ↦ elim (Bool-cases (is_neg result)) [
          | inl e' ↦ rw e (rw e' p)
          | inr e' ↦ rw e (rw e' (Grows-trans c1 c2 (x.check_timeouts c2).1 p (later c2)))
        ]
      ]

  await-Grows :
      KeepsContext x
      → (waits : Context Peer World → Bool) (fuel deadline : ℕ) (c : Context Peer World)
      → Grows c (await x waits fuel deadline c).1
  unfolding await
  await-Grows k waits zero deadline c = Grows-refl c
  await-Grows k waits (suc fuel) deadline c =
      let (now, w) = x.process_time c.world in
      let c1 = record c { world = w } in
      let (result, c') = poll x c1 in
      let p = poll-Grows k c1 in
      elim (Bool-cases (waits c)) [
        | inr e ↦ rw e (Grows-refl c)
        | inl e ↦ elim (Bool-cases (ltb (u64 now) deadline)) [
          | inr l ↦ rw e (rw l (λ q. q, λ q. q, λ q. q))
          | inl l ↦ elim (Bool-cases (is_neg result)) [
            | inl n ↦ rw e (rw l (rw n p))
            | inr n ↦ rw e (
                rw l (
                  rw n (
                    Grows-trans c1 c' (await x waits fuel deadline c').1 p
                      (await-Grows k waits fuel deadline c'))))
          ]
        ]
      ]

  pub await_for-Grows :
      KeepsContext x
      → (waits : Context Peer World → Bool) (fuel : ℕ) (c : Context Peer World)
      → Grows c (await_for x waits fuel c).1
  unfolding await_for
  await_for-Grows k waits fuel c =
      await-Grows k waits fuel _ (record c { world = (x.process_time c.world).1 })

  pub start_tcp-Grows : KeepsContext x → (c : Context Peer World) → Grows c (start_tcp x c).1
  unfolding start_tcp
  start_tcp-Grows k c =
      let (has_tcp, w1) = x.tcp_new c.world in
      let (bound, w2) = x.tcp_bind w1 in
      let ready = record c { has_tcp = true; world = x.tcp_callbacks w2 } in
      let (cs, t) = k.connects ready in
      let g = Through-Grows k cs ready (x.tcp_connect ready).1 t in
      elim (Bool-cases has_tcp) [
        | inr e ↦ rw e (λ q. q, λ q. q, λ q. q)
        | inl e ↦ elim (Bool-cases bound) [
          | inr e' ↦ rw e (rw e' (λ q. q, λ q. q, λ q. q))
          | inl e' ↦ elim (Bool-cases (x.tcp_connect ready).0) [
            | inl e'' ↦ rw e (rw e' (rw e'' (λ q. g.0 q, λ q. g.1 q, λ q. g.2 q)))
            | inr e'' ↦ rw e (rw e' (rw e'' (λ q. g.0 q, λ q. g.1 q, λ q. g.2 q)))
          ]
        ]
      ]

  pub then_part-Grows :
      (f g : State (Context Peer World) (Option ℤ))
      → ((c : Context Peer World) → Grows c (f c).1)
      → ((c : Context Peer World) → Grows c (g c).1)
      → (c : Context Peer World) → Grows c (then_part x f g c).1
  unfolding then_part
  then_part-Grows f g gf gg c = elim (Option-cases (f c).0) [
    | inl e ↦ rw (e, then_part) (gf c)
    | inr (r, e) ↦ elim (Bool-cases (is_neg r)) [
      | inl n ↦ rw (e, then_part) (rw n (gf c))
      | inr n ↦ rw (e, then_part) (rw n (Grows-trans c (f c).1 (g (f c).1).1 (gf c) (gg (f c).1)))
    ]
  ]
