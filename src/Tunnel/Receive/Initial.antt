-- ===== src/Tunnel/Receive/Initial.antt =====
-- The wait for the first handshake's response ends.
use moonlight_tailscale_vita.Common.{
  ℕ, ◌+◌, ◌-◌, ◌*◌, ◌^◌, ◌≤◌, ◌<◌, true, false, Option, some, ℤ, pos, neg, is_pos, to_nat, take,
  length, u64, ◌≡◌, ◌⊎◌,
}
use moonlight_tailscale_vita.Tunnel.{Env, Tunnel}
use moonlight_tailscale_vita.Tunnel.Receive.{await_response}

-- What is taken of the clock: it goes on in every receive, and neither a receive nor a log takes
-- longer than 2^32 microseconds.
pub record HasClock {Peer World : Type 0} (x : Env Peer World) : Type 0 where
  pub receives :
      (socket : ℤ) (world : World)
      → let after = x.process_time (x.recvfrom socket 256 world).3 in
        (x.process_time world < after) × (after ≤ x.process_time world + 2 ^ 32)
  pub logs :
      (code : ℤ) (world : World)
      → let after = x.process_time (x.log code world) in
        (x.process_time world ≤ after) × (after ≤ x.process_time world + 2 ^ 32)

module _ {Peer World : Type 0} (x : Env Peer World) where
  -- The next datagram is the answer to the initiation of the pending sender: it came from the peer,
  -- it is a response of the right size, its first MAC is right, and it completes the handshake. Then
  -- the session is started.
  pub record IsAnswered (t after : Tunnel Peer World) : Type 0 where
    pub received :
        let (count, buffer, source, world) = x.recvfrom t.outer_socket 256 t.world in
        (is_pos count ≡ true)
        × (source.address ≡ t.endpoint.address)
        × (source.port ≡ t.endpoint.port)
    pub response :
        let (count, buffer, source, world) = x.recvfrom t.outer_socket 256 t.world in
        let packet = take (to_nat count) buffer in
        (length packet ≡ x.response_size)
        × (x.get_message_type packet ≡ x.message_handshake_response)
        × (x.response_receiver packet ≡ t.pending_handshake_sender)
        × (x.check_mac1
              (take (x.response_size - 2 * x.cookie_len) packet)
              (x.response_mac1 packet)
              t.peer
            ≡ true)
    pub completes :
        let (count, buffer, source, world) = x.recvfrom t.outer_socket 256 t.world in
        let (accepted, peer) = x.process_response (take (to_nat count) buffer) t.peer in
        (accepted ≡ true)
        × (after ≡ record t {
          peer = x.start_session peer;
          last_handshake_us = u64 (x.process_time world);
          pending_handshake_sender = 0;
          world = x.log (pos 0) world;
        })

  -- The wait that began at `begun`, up to this state: no datagram so far was the answer.
  pub data Waits (begun : Tunnel Peer World) : Tunnel Peer World → Type 0 where
    first : Waits begun begun
    later :
        {t : Tunnel Peer World}
        → Waits begun t
        → (await_response x t).0 ≡ false
        → Waits begun (await_response x t).1

  -- How the wait ends.
  abbrev pub Ended : Tunnel Peer World → ℕ → Option ℤ × Tunnel Peer World → Type 0
  Ended begun deadline out =
      ((out.0 ≡ some (pos 0)) × ((t : Tunnel Peer World) × Waits begun t × IsAnswered t out.1))
      ⊎ ((out.0 ≡ some (neg 51))
          × Waits begun out.1
          × (deadline ≤ u64 (x.process_time out.1.world)))
