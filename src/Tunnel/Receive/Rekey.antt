-- ===== src/Tunnel/Receive/Rekey.antt =====
-- The rekeying of the receive thread.
use moonlight_tailscale_vita.Common.{
  ℕ, zero, suc, false, ℤ, is_pos, u64, ◌≡◌, ◌≢◌, refl, sym, ap, ◌∙◌, arith,
}
use moonlight_tailscale_vita.Tunnel.{Env, Tunnel}
use moonlight_tailscale_vita.Tunnel.Transport.{send_transport_locked}
use moonlight_tailscale_vita.Tunnel.Receive.{
  receive_step, rekey_step, keepalive_step, receive_round, receive_rounds,
}

module _ {Peer World : Type 0} (x : Env Peer World) where
  -- The tunnel after a receive of nothing.
  abbrev waited : Tunnel Peer World → Tunnel Peer World
  waited t = record t { world = (x.recvfrom t.outer_socket 1600 t.world).3 }

  -- Rounds that send no initiation: a receive of nothing, and a keepalive when one is due.
  unfoldable pub quiet_rounds : ℕ → Tunnel Peer World → Tunnel Peer World
  quiet_rounds zero t = t
  quiet_rounds (suc n) t =
      quiet_rounds n (keepalive_step x (u64 (x.process_time (waited t).world)) (waited t)).1

  receive_step-silent :
      (t : Tunnel Peer World)
      → is_pos (x.recvfrom t.outer_socket 1600 t.world).0 ≡ false
      → receive_step x t ≡ (tt, waited t)
  unfolding receive_step
  receive_step-silent t h = rw h refl

  rekey_step-pending :
      (now : ℕ) (t : Tunnel Peer World)
      → t.pending_handshake_sender ≢ 0
      → rekey_step x now t ≡ (tt, t)
  unfolding rekey_step
  rekey_step-pending now t h = ground arith

  keepalive_step-handshake :
      (now : ℕ) (t : Tunnel Peer World)
      → let u = (keepalive_step x now t).1 in
        (u.pending_handshake_sender ≡ t.pending_handshake_sender)
        × (u.last_handshake_us ≡ t.last_handshake_us)
  unfolding keepalive_step send_transport_locked
  keepalive_step-handshake now t = ground arith

  receive_round-silent :
      (t : Tunnel Peer World)
      → is_pos (x.recvfrom t.outer_socket 1600 t.world).0 ≡ false
      → t.pending_handshake_sender ≢ 0
      → (receive_round x t).1
        ≡ (keepalive_step x (u64 (x.process_time (waited t).world)) (waited t)).1
  unfolding receive_round
  receive_round-silent t silent h =
      let now = u64 (x.process_time (waited t).world) in
      rw (receive_step-silent t silent) (rw (rekey_step-pending now (waited t) h) refl)

  -- Once a handshake has been sent, and no datagram comes in, no number of rounds sends another one:
  -- all that they do is to receive and to send the keepalives that are due, and the sender that is
  -- waited for and the time of the last handshake stay what they are.
  pub receive_rounds-silent :
      (n : ℕ) (t : Tunnel Peer World)
      → ((socket : ℤ) (world : World) → is_pos (x.recvfrom socket 1600 world).0 ≡ false)
      → t.pending_handshake_sender ≢ 0
      → ((receive_rounds x n t).1 ≡ quiet_rounds n t)
        × ((receive_rounds x n t).1.pending_handshake_sender ≡ t.pending_handshake_sender)
        × ((receive_rounds x n t).1.last_handshake_us ≡ t.last_handshake_us)
  unfolding receive_rounds quiet_rounds
  receive_rounds-silent zero t silent h = (refl, refl, refl)
  receive_rounds-silent (suc n) t silent h =
      let now = u64 (x.process_time (waited t).world) in
      let same = keepalive_step-handshake now (waited t) in
      let next = (keepalive_step x now (waited t)).1 in
      let once = receive_round-silent t (silent t.outer_socket t.world) h in
      let rest = receive_rounds-silent n next silent (λ e. h (sym same.0 ∙ e)) in
      let step : (receive_rounds x (suc n) t).1 ≡ (receive_rounds x n next).1 =
        ap (λ (u : Tunnel Peer World). (receive_rounds x n u).1) once in
      (
        step ∙ rest.0,
        ap (λ (u : Tunnel Peer World). u.pending_handshake_sender) step ∙ rest.1 ∙ same.0,
        ap (λ (u : Tunnel Peer World). u.last_handshake_us) step ∙ rest.2 ∙ same.1,
      )
