-- ===== src/Flow/Session/Authentic.antt =====
-- When the flow probe takes a handshake as done.
use moonlight_tailscale_vita.Common.{
  ℕ, ◌-◌, ◌*◌, true, false, not, ◌||◌, some, Bytes, ℤ, is_neg, int_is, to_nat, ◌==◌, take, ◌≡◌, ◌⊎◌,
  refl, sym, ap, subst, ◌∙◌, arith, Bool-cases, Option-cases, inl, inr,
}
use moonlight_tailscale_vita.Report.{Level, ok}
use moonlight_tailscale_vita.Tunnel.{Source}
use moonlight_tailscale_vita.Flow.Context.{Lwip, Saying, initiation_sent}
use moonlight_tailscale_vita.Flow.Session.{
  Outer, Session, Outcome, refused, accepted, check_response, authenticate, use_response,
  shake_hands,
}

module _ {Peer World : Type 0} (x : Lwip Peer World) (o : Outer World) where
  -- The answer to the initiation of `sender` that was sent to `destination`.
  pub record IsResponse (count : ℤ) (response : Bytes) (source destination : Source) (sender : ℕ)
      : Type 0 where
    pub from_there : (source.address ≡ destination.address) × (source.port ≡ destination.port)
    pub type_right : x.get_message_type response ≡ x.message_handshake_response
    pub size_right : int_is count x.response_size ≡ true
    pub for_sender : x.response_receiver response ≡ sender

  check_response-IsResponse :
      (count : ℤ) (response : Bytes) (source destination : Source) (sender : ℕ)
      → check_response x o count response source destination sender ≡ accepted
      → IsResponse count response source destination sender
  unfolding check_response
  check_response-IsResponse count response source destination sender h =
      let type = x.get_message_type response in
      elim (Bool-cases
        (not (source.address == destination.address) || not (source.port == destination.port))) [
          | inl e ↦ absurd (ground (arith, e, h))
          | inr e ↦ elim (Bool-cases (type == o.message_cookie_reply)) [
            | inl e1 ↦ absurd (ground (arith, e, e1, h))
            | inr e1 ↦
                elim (Bool-cases (
                  not (type == x.message_handshake_response)
                  || not (int_is count x.response_size))) [
                    | inl e2 ↦ absurd (ground (arith, e, e1, e2, h))
                    | inr e2 ↦ elim (Bool-cases (not (x.response_receiver response == sender))) [
                      | inl e3 ↦ absurd (ground (arith, e, e1, e2, e3, h))
                      | inr e3 ↦ record {
                        from_there = ground (arith, e);
                        type_right = ground (arith, e2);
                        size_right = ground (arith, e2);
                        for_sender = ground (arith, e3);
                      }
                    ]
                  ]
          ]
        ]

  -- The first MAC is right, and the response completes the handshake of the peer.
  pub record Completes (response : Bytes) (before after : Peer) : Type 0 where
    pub mac_right :
        x.check_mac1
          (take (x.response_size - 2 * x.cookie_len) response)
          (x.response_mac1 response)
          before
        ≡ true
    pub processed : (x.process_response response before).0 ≡ true
    pub session : after ≡ x.start_session (x.process_response response before).1

  authenticate-Completes :
      (response : Bytes) (peer : Peer)
      → (authenticate x o response peer).0 ≡ accepted
      → Completes response peer (authenticate x o response peer).1
  unfolding authenticate
  authenticate-Completes response peer h =
      let mac =
        x.check_mac1 (take (x.response_size - 2 * x.cookie_len) response) (x.response_mac1 response)
          peer in
      elim (Bool-cases mac) [
        | inr e ↦ absurd (ground (arith, e, h))
        | inl e ↦ elim (Bool-cases (x.process_response response peer).0) [
          | inr e1 ↦ absurd (ground (arith, e, e1, h))
          | inl e1 ↦ record { mac_right = e; processed = e1; session = rw e (rw e1 refl) }
        ]
      ]

  Outcome_cases :
      (a : Outcome)
      → (a ≡ accepted)
        ⊎ ((code : ℤ) × (level : Level) × (saying : Saying) × (a ≡ refused code level saying))
  Outcome_cases accepted = inl refl
  Outcome_cases (refused code level saying) = inr (code, level, saying, refl)

  use_response-accepts :
      (count : ℤ) (buffer : Bytes) (source destination : Source) (sender : ℕ)
      (s : Session Peer World)
      → (use_response x o count buffer source destination sender s).0 ≡ accepted
      → let response = take (to_nat count) buffer in
        IsResponse count response source destination sender
        × Completes response s.peer
            (use_response x o count buffer source destination sender s).1.peer
  unfolding use_response
  use_response-accepts count buffer source destination sender s h =
      let response = take (to_nat count) buffer in
      elim (Outcome_cases (check_response x o count response source destination sender)) [
        | inr (code, level, saying, e) ↦ absurd (ground (arith, e, h))
        | inl e ↦
            let done : (authenticate x o response s.peer).0 ≡ accepted =
              sym (rw (e, use_response) refl) ∙ h in
            (
              check_response-IsResponse count response source destination sender e,
              rw (e, use_response) (authenticate-Completes response s.peer done),
            )
      ]

  -- A handshake is taken as done only if the initiation was sent whole, and the datagram that the next receive
  -- gave is from the address and the port that it was sent to, is a response of the right size for this
  -- initiation, has a right MAC and completes the handshake; then the session is started.
  pub shake_hands_accepts :
      (socket : ℤ) (destination : Source) (s : Session Peer World)
      → let out = shake_hands x o socket destination s in
        out.0 ≡ accepted
        → (initiation : Bytes) × (sender : ℕ) × let (created, peer', w1) =
              x.create_initiation s.peer s.world in
            let (sent, w2) = x.sendto socket initiation destination w1 in
            let w3 = x.log_line ok (initiation_sent sent) w2 in
            let (count, buffer, source, w4) = x.recvfrom socket 256 w3 in
            let response = take (to_nat count) buffer in
            (created ≡ some (initiation, sender))
            × (int_is sent x.initiation_size ≡ true)
            × (is_neg count ≡ false)
            × IsResponse count response source destination sender
            × Completes response peer' out.1.peer
  unfolding shake_hands
  shake_hands_accepts socket destination s h =
      let (created, peer', w1) = x.create_initiation s.peer s.world in
      elim (Option-cases created) [
        | inl e ↦ absurd (ground (arith, e, h))
        | inr ((initiation, sender), e) ↦
            let (sent, w2) = x.sendto socket initiation destination w1 in
            let w3 = x.log_line ok (initiation_sent sent) w2 in
            let (count, buffer, source, w4) = x.recvfrom socket 256 w3 in
            let s4 : Session Peer World = record { peer = peer'; world = w4 } in
            elim (Bool-cases (int_is sent x.initiation_size)) [
              | inr e1 ↦ absurd (ground (arith, e, e1, h))
              | inl e1 ↦ elim (Bool-cases (is_neg count)) [
                | inl e2 ↦ absurd (ground (arith, e, e1, e2, h))
                | inr e2 ↦
                    let out : shake_hands x o socket destination s
                        ≡ use_response x o count buffer source destination sender s4 =
                      rw (e, shake_hands) (rw e1 (rw e2 refl)) in
                    let used = ap (λ (r : Outcome × Session Peer World). r.0) out in
                    let (answers, completes) =
                      use_response-accepts count buffer source destination sender s4
                        (sym used ∙ h) in
                    (
                      initiation,
                      sender,
                      (
                        e,
                        e1,
                        e2,
                        answers,
                        subst
                            (λ (r : Outcome × Session Peer World).
                              Completes (take (to_nat count) buffer) peer' r.1.peer)
                            (sym out) completes,
                      ),
                    )
              ]
            ]
      ]
