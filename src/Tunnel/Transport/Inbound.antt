-- ===== src/Tunnel/Transport/Inbound.antt =====
-- What becomes of a transport packet that comes in.
use moonlight_tailscale_vita.Common.{
  ℕ, ◌+◌, ◌-◌, ◌≤◌, true, ◌||◌, some, Bytes, ℤ, pos, ltb, ◌≡◌, ◌≢◌, ◌⊎◌, inl, inr, refl, sym, ap,
  ◌∙◌, arith, length, take, drop, Bool-cases, Option-cases,
}
use moonlight_tailscale_vita.Tunnel.{Env, Tunnel, inner_mtu}
use moonlight_tailscale_vita.Tunnel.Transport.{
  process_transport_locked, process_authenticated, process_plaintext, deliver, total_length,
  is_for_us,
}

module _ {Peer World : Type 0} (x : Env Peer World) where
  -- The packet authenticates under a keypair that may receive.
  pub record IsAuthentic (incoming : Bytes) (t : Tunnel Peer World) (keypair : ℕ)
      (plaintext : Bytes) : Type 0 where
    pub fits :
        (x.transport_header_size + x.authtag_len ≤ length incoming)
        × (length incoming ≤ x.transport_header_size + inner_mtu + 15 + x.authtag_len)
    pub known : x.keypair_for t.peer (x.transport_receiver incoming) ≡ some keypair
    pub may_receive : x.receiving_valid t.peer keypair ≡ true
    pub decrypts :
        x.decrypt_packet
          (drop x.transport_header_size incoming)
          (x.transport_counter incoming)
          keypair
          t.peer
        ≡ some plaintext

  -- An IPv4 packet for this end, with a length that is in the plaintext and the MTU.
  pub record IsInbound (size : ℕ) (plaintext : Bytes) : Type 0 where
    pub has_header : 20 ≤ size
    pub for_us : is_for_us plaintext ≡ true
    pub bounds :
        (20 ≤ total_length plaintext)
        × (total_length plaintext ≤ size)
        × (total_length plaintext ≤ inner_mtu)

  process_plaintext-IsInbound :
      (size : ℕ) (plaintext : Bytes) (t : Tunnel Peer World)
      → (process_plaintext x size plaintext t).0 ≡ pos 0
      → ((size ≡ 0) × (process_plaintext x size plaintext t ≡ (pos 0, t)))
        ⊎ (IsInbound size plaintext
            × (process_plaintext x size plaintext t
                ≡ deliver x (take (total_length plaintext) plaintext) t))
  unfolding process_plaintext
  process_plaintext-IsInbound size plaintext t h = ground arith

  -- A packet is refused with an error, and the whole state is as it was, the peer's replay window
  -- included, unless it authenticates; then its counter and its plaintext decide.
  pub process_transport_locked_cases :
      (incoming : Bytes) (t : Tunnel Peer World)
      → let out = process_transport_locked x incoming t in
        ((out.0 ≢ pos 0) × (out.1 ≡ t))
        ⊎ ((keypair : ℕ) × (plaintext : Bytes) × (IsAuthentic incoming t keypair plaintext
              × (out
                  ≡ process_authenticated x keypair
                      (x.transport_counter incoming)
                      (length incoming - x.transport_header_size - x.authtag_len)
                      plaintext
                      t)))
  unfolding process_transport_locked
  process_transport_locked_cases incoming t =
      elim (Bool-cases (
        ltb (length incoming) (x.transport_header_size + x.authtag_len)
        || ltb (x.transport_header_size + inner_mtu + 15 + x.authtag_len) (length incoming))) [
          | inl h ↦ inl (rw h (ground arith), rw h refl)
          | inr h ↦ elim (Option-cases (x.keypair_for t.peer (x.transport_receiver incoming))) [
            | inl e ↦ inl (rw h (rw e (ground arith)), rw h (rw e refl))
            | inr (keypair, e) ↦ elim (Bool-cases (x.receiving_valid t.peer keypair)) [
              | inr v ↦ inl (rw h (rw e (rw v (ground arith))), rw h (rw e (rw v refl)))
              | inl v ↦
                  elim (Option-cases (
                    x.decrypt_packet (drop x.transport_header_size incoming)
                      (x.transport_counter incoming) keypair t.peer)) [
                        | inl d ↦ inl (ground arith, ground arith)
                        | inr (plaintext, d) ↦ inr (
                          keypair,
                          plaintext,
                          (
                            record {
                              fits = ground arith;
                              known = e;
                              may_receive = v;
                              decrypts = d;
                            },
                            ground arith,
                          ),
                        )
                      ]
            ]
          ]
        ]

  -- A packet that is accepted has authenticated, its counter is new, and it is empty, which changes
  -- nothing but the replay window, or an IPv4 packet for this end that lwIP is given.
  pub process_transport_locked_accepts :
      (incoming : Bytes) (t : Tunnel Peer World)
      → (process_transport_locked x incoming t).0 ≡ pos 0
      → (keypair : ℕ) × (plaintext : Bytes) × let size =
            length incoming - x.transport_header_size - x.authtag_len in
          let replay = x.check_replay keypair (x.transport_counter incoming) t.peer in
          let checked = record t { peer = replay.1 } in
          IsAuthentic incoming t keypair plaintext
          × (replay.0 ≡ true)
          × (((size ≡ 0) × (process_transport_locked x incoming t ≡ (pos 0, checked)))
              ⊎ (IsInbound size plaintext
                  × (process_transport_locked x incoming t
                      ≡ deliver x (take (total_length plaintext) plaintext) checked)))
  unfolding process_authenticated
  process_transport_locked_accepts incoming t h = elim (process_transport_locked_cases incoming t) [
    | inl (refused, same') ↦ absurd (refused h)
    | inr (keypair, plaintext, (authentic, e)) ↦
        let size = length incoming - x.transport_header_size - x.authtag_len in
        let counter = x.transport_counter incoming in
        let checked = record t { peer = (x.check_replay keypair counter t.peer).1 } in
        elim (Bool-cases (x.check_replay keypair counter t.peer).0) [
          | inl fresh ↦
              let out : process_transport_locked x incoming t
                  ≡ process_plaintext x size plaintext checked =
                e ∙ rw fresh refl in
              (
                keypair,
                plaintext,
                (
                  authentic,
                  fresh,
                  elim (process_plaintext-IsInbound size plaintext checked
                      (sym (ap (λ (o : ℤ × Tunnel Peer World). o.0) out) ∙ h)) [
                        | inl (empty, done) ↦ inl (empty, out ∙ done)
                        | inr (inbound, done) ↦ inr (inbound, out ∙ done)
                      ],
                ),
              )
          | inr stale ↦ absurd (ground arith)
        ]
  ]
