-- ===== src/Flow/Context/Inbound.antt =====
-- Which datagrams `lwip_process_transport` gives to lwIP.
use moonlight_tailscale_vita.Common.{
  ℕ, ◌+◌, ◌-◌, ◌^◌, ◌≤◌, true, false, not, ◌||◌, some, Bytes, ℤ, pos, neg, ltb, if◌then◌else◌, u32,
  length, take, drop, ◌≡◌, ◌≢◌, ◌⊎◌, inl, inr, refl, sym, ap, ◌∙◌, arith, Bool-cases, Option-cases,
}
use moonlight_tailscale_vita.Tunnel.{Source, inner_mtu}
use moonlight_tailscale_vita.Tunnel.Transport.{total_length}
use moonlight_tailscale_vita.Flow.Context.{
  Context, Lwip, is_expected, is_from_peer, deliver, process_plaintext, process_authenticated,
  lwip_process_transport,
}

module _ {Peer World : Type 0} (x : Lwip Peer World) where
  -- The datagram comes from the peer's address and authenticates under a keypair that may receive.
  pub record IsAuthentic (incoming : Bytes) (source : Source) (c : Context Peer World)
      (size keypair : ℕ) (plaintext : Bytes) : Type 0 where
    pub expected : is_expected x incoming source c ≡ true
    pub known : x.keypair_for c.peer (x.transport_receiver incoming) ≡ some keypair
    pub may_receive : x.receiving_valid c.peer keypair ≡ true
    pub fits :
        (u32 (length incoming + (2 ^ 32 - x.transport_header_size)) ≡ size + x.authtag_len)
        × (size ≤ inner_mtu + 15)
    pub decrypts :
        x.decrypt_packet
          (drop x.transport_header_size incoming)
          (x.transport_counter incoming)
          keypair
          c.peer
        ≡ some plaintext

  -- A datagram is refused and nothing changes, the peer's replay window included, unless it
  -- authenticates; then its counter and its plaintext decide.
  pub lwip_process_transport_cases :
      (incoming : Bytes) (source : Source) (c : Context Peer World)
      → let out = lwip_process_transport x incoming source c in
        ((out.0 ≢ pos 0) × (out.1 ≡ c))
        ⊎ ((size keypair : ℕ) × (plaintext : Bytes) × (IsAuthentic incoming source c size keypair
                plaintext
              × (out
                  ≡ process_authenticated x keypair
                      (x.transport_counter incoming)
                      size
                      plaintext
                      c)))
  unfolding lwip_process_transport
  lwip_process_transport_cases incoming source c =
      let encrypted_size = u32 (length incoming + (2 ^ 32 - x.transport_header_size)) in
      elim (Bool-cases (is_expected x incoming source c)) [
        | inr h ↦ inl (rw h (ground arith), rw h refl)
        | inl h ↦ elim (Option-cases (x.keypair_for c.peer (x.transport_receiver incoming))) [
          | inl e ↦ inl (rw h (rw e (ground arith)), rw h (rw e refl))
          | inr (keypair, e) ↦
              let refused =
                not (x.receiving_valid c.peer keypair)
                || ltb encrypted_size x.authtag_len
                || ltb (inner_mtu + 15 + x.authtag_len) encrypted_size in
              elim (Bool-cases refused) [
                | inl v ↦ inl (rw h (rw e (rw v (ground arith))), rw h (rw e (rw v refl)))
                | inr v ↦
                    elim (Option-cases (
                      x.decrypt_packet (drop x.transport_header_size incoming)
                        (x.transport_counter incoming) keypair c.peer)) [
                          | inl d ↦ inl (
                            rw h (rw e (rw v (rw d (ground arith)))),
                            rw h (rw e (rw v (rw d refl))),
                          )
                          | inr (plaintext, d) ↦ inr (
                            encrypted_size - x.authtag_len,
                            keypair,
                            plaintext,
                            (
                              record {
                                expected = h;
                                known = e;
                                may_receive = ground arith;
                                fits = ground arith;
                                decrypts = d;
                              },
                              rw h (rw e (rw v (rw d refl))),
                            ),
                          )
                        ]
              ]
        ]
      ]

  -- An IPv4 packet from the peer's end to this one, with a length that is in the plaintext.
  pub record IsInbound (size : ℕ) (plaintext : Bytes) : Type 0 where
    pub from_peer : is_from_peer x size plaintext ≡ true
    pub bounds : (20 ≤ total_length plaintext) × (total_length plaintext ≤ size)

  process_plaintext-IsInbound :
      (size : ℕ) (plaintext : Bytes) (c : Context Peer World)
      → (process_plaintext x size plaintext c).0 ≡ pos 0
      → IsInbound size plaintext
        × (process_plaintext x size plaintext c
            ≡ deliver x (take (total_length plaintext) plaintext) c)
  unfolding process_plaintext
  process_plaintext-IsInbound size plaintext c h =
      elim (Bool-cases (is_from_peer x size plaintext)) [
        | inr e ↦ absurd (ground (arith, e, h))
        | inl e ↦
            elim (Bool-cases
              (ltb (total_length plaintext) 20 || ltb size (total_length plaintext))) [
                | inl l ↦ absurd (ground (arith, e, l, h))
                | inr l ↦ (record { from_peer = e; bounds = ground arith }, rw e (rw l refl))
              ]
      ]

  -- A datagram is accepted only if it comes from the address of the peer, authenticates with a counter
  -- that is new, and holds an IPv4 packet from the peer's end of the tunnel to this one; what lwIP is
  -- given is that packet, without its padding.
  pub lwip_process_transport_accepts :
      (incoming : Bytes) (source : Source) (c : Context Peer World)
      → (lwip_process_transport x incoming source c).0 ≡ pos 0
      → (size keypair : ℕ) × (plaintext : Bytes) × let replay =
            x.check_replay keypair (x.transport_counter incoming) c.peer in
          IsAuthentic incoming source c size keypair plaintext
          × (replay.0 ≡ true)
          × IsInbound size plaintext
          × (lwip_process_transport x incoming source c
              ≡ deliver x (take (total_length plaintext) plaintext) (record c { peer = replay.1 }))
  unfolding process_authenticated
  lwip_process_transport_accepts incoming source c h =
      elim (lwip_process_transport_cases incoming source c) [
        | inl (refused, same') ↦ absurd (refused h)
        | inr (size, keypair, plaintext, (authentic, e)) ↦
            let replay = x.check_replay keypair (x.transport_counter incoming) c.peer in
            let checked = record c { peer = replay.1 } in
            elim (Bool-cases replay.0) [
              | inl fresh ↦
                  let out : lwip_process_transport x incoming source c
                      ≡ process_plaintext x size plaintext checked =
                    e ∙ rw fresh refl in
                  let (inbound, done) =
                    process_plaintext-IsInbound size plaintext checked
                      (sym (ap (λ (o : ℤ × Context Peer World). o.0) out) ∙ h) in
                  (size, keypair, plaintext, (authentic, fresh, inbound, out ∙ done))
              | inr stale ↦ absurd (ground arith)
            ]
      ]

  process_authenticated-empty :
      (keypair counter : ℕ) (plaintext : Bytes) (c : Context Peer World)
      → (process_authenticated x keypair counter 0 plaintext c).0
        ≡ (if (x.check_replay keypair counter c.peer).0 then neg 34 else neg 33)
  unfolding process_authenticated process_plaintext is_from_peer
  process_authenticated-empty keypair counter plaintext c =
      elim (Bool-cases (x.check_replay keypair counter c.peer).0) [
        | inl e ↦ rw e refl
        | inr e ↦ rw e refl
      ]

  -- A keepalive of the peer, an authentic datagram without a plaintext, is refused with -34, or with
  -- -33 where its counter is not new.
  pub lwip_process_transport_keepalive :
      (incoming : Bytes) (source : Source) (c : Context Peer World) (keypair : ℕ)
      (plaintext : Bytes)
      → IsAuthentic incoming source c 0 keypair plaintext
      → let fresh = (x.check_replay keypair (x.transport_counter incoming) c.peer).0 in
        (lwip_process_transport x incoming source c).0 ≡ (if fresh then neg 34 else neg 33)
  unfolding lwip_process_transport
  lwip_process_transport_keepalive incoming source c keypair plaintext a =
      let encrypted_size = u32 (length incoming + (2 ^ 32 - x.transport_header_size)) in
      let refused : (not (x.receiving_valid c.peer keypair)
            || ltb encrypted_size x.authtag_len
            || ltb (inner_mtu + 15 + x.authtag_len) encrypted_size)
          ≡ false =
        ground (arith, a.may_receive, a.fits) in
      let size : encrypted_size - x.authtag_len ≡ 0 = omega (arith, a.fits.0) in
      rw a.expected (
        rw a.known (
          rw refused (
            rw a.decrypts (
              rw size
                (process_authenticated-empty keypair (x.transport_counter incoming) plaintext c)))))
