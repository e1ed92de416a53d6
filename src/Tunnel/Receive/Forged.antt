-- ===== src/Tunnel/Receive/Forged.antt =====
-- Datagrams that the receive thread does not take.
use moonlight_tailscale_vita.Common.{
  ℕ, ◌+◌, ◌≤◌, true, false, none, some, Bytes, neg, negsuc, is_pos, to_nat, u64, length, take, drop,
  if◌then◌else◌, ◌≡◌, ◌≢◌, refl, ◌∙◌, arith,
}
use moonlight_tailscale_vita.Tunnel.{Env, Tunnel, inner_mtu}
use moonlight_tailscale_vita.Tunnel.Transport.{process_transport_locked}
use moonlight_tailscale_vita.Tunnel.Receive.{
  receive_step, source_is_peer, process_datagram, record_transport_rejection, count_rejection,
  should_log_rejection,
}

module _ {Peer World : Type 0} (x : Env Peer World) where
  -- A datagram from elsewhere is only taken off the socket.
  pub receive_step_stranger :
      (t : Tunnel Peer World)
      → let from = x.recvfrom t.outer_socket 1600 t.world in
        source_is_peer x from.2 t ≡ false → (receive_step x t).1 ≡ record t { world = from.3 }
  unfolding receive_step source_is_peer
  receive_step_stranger t h = ground arith

  process_transport_locked-forged :
      (incoming : Bytes) (t : Tunnel Peer World) (keypair : ℕ)
      → x.transport_header_size + x.authtag_len ≤ length incoming
      → length incoming ≤ x.transport_header_size + inner_mtu + 15 + x.authtag_len
      → x.keypair_for t.peer (x.transport_receiver incoming) ≡ some keypair
      → x.receiving_valid t.peer keypair ≡ true
      → x.decrypt_packet
          (drop x.transport_header_size incoming)
          (x.transport_counter incoming)
          keypair
          t.peer
        ≡ none
      → process_transport_locked x incoming t ≡ (neg 42, t)
  unfolding process_transport_locked
  process_transport_locked-forged incoming t keypair low high known valid forged = ground arith

  process_datagram-transport :
      (incoming : Bytes) (t : Tunnel Peer World)
      → x.get_message_type incoming ≡ x.message_transport_data
      → x.message_transport_data ≢ x.message_handshake_response
      → process_datagram x incoming t ≡ process_transport_locked x incoming t
  unfolding process_datagram
  process_datagram-transport incoming t type other = ground arith

  -- A rejection is logged for the counts that `should_log_rejection` takes.
  abbrev pub logged : ℕ → World → World
  logged count world = if should_log_rejection count then x.log (neg 42) world else world

  record_transport_rejection-42 :
      (t : Tunnel Peer World)
      → (record_transport_rejection x (neg 42) t).1 ≡ record t {
        decrypt_rejects = u64 (t.decrypt_rejects + 1);
        world = logged (u64 (t.decrypt_rejects + 1)) t.world;
      }
  unfolding record_transport_rejection count_rejection
  record_transport_rejection-42 t = ground arith

  receive_step-rejected :
      (t : Tunnel Peer World) (code : ℕ)
      → let from = x.recvfrom t.outer_socket 1600 t.world in
        let received = record t { world = from.3 } in
        is_pos from.0 ≡ true
        → source_is_peer x from.2 t ≡ true
        → process_datagram x (take (to_nat from.0) from.1) received ≡ (negsuc code, received)
        → (receive_step x t).1 ≡ (record_transport_rejection x (negsuc code) received).1
  unfolding receive_step source_is_peer
  receive_step-rejected t code some' peer e = rw some' (rw peer (rw e refl))

  -- A transport packet of the peer's address, of a size that is allowed and for a keypair that may
  -- receive, that does not authenticate changes nothing but the counter of such packets. All
  -- that is done outside is the receive, and the log of -42 for the counts that are logged: lwIP is
  -- given nothing, and nothing is sent.
  pub receive_step_forged :
      (t : Tunnel Peer World) (keypair : ℕ)
      → let from = x.recvfrom t.outer_socket 1600 t.world in
        let incoming = take (to_nat from.0) from.1 in
        is_pos from.0 ≡ true
        → source_is_peer x from.2 t ≡ true
        → x.get_message_type incoming ≡ x.message_transport_data
        → x.message_transport_data ≢ x.message_handshake_response
        → x.transport_header_size + x.authtag_len ≤ length incoming
        → length incoming ≤ x.transport_header_size + inner_mtu + 15 + x.authtag_len
        → x.keypair_for t.peer (x.transport_receiver incoming) ≡ some keypair
        → x.receiving_valid t.peer keypair ≡ true
        → x.decrypt_packet
            (drop x.transport_header_size incoming)
            (x.transport_counter incoming)
            keypair
            t.peer
          ≡ none
        → (receive_step x t).1 ≡ record t {
          decrypt_rejects = u64 (t.decrypt_rejects + 1);
          world = logged (u64 (t.decrypt_rejects + 1)) from.3;
        }
  receive_step_forged t keypair some' peer type other low high known valid forged =
      let from = x.recvfrom t.outer_socket 1600 t.world in
      let incoming = take (to_nat from.0) from.1 in
      let received = record t { world = from.3 } in
      receive_step-rejected t 41 some' peer (
        process_datagram-transport incoming received type other
        ∙ process_transport_locked-forged incoming received keypair low high known valid forged)
      ∙ record_transport_rejection-42 received
