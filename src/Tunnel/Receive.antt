-- ===== src/Tunnel/Receive.antt =====
-- The handshakes, the receive thread and its counters. Where a function of the source logs, the
-- log is given the result that is logged.
pub mod Rekey
pub mod Forged
pub mod Initial
pub mod Logged
use Prim.Native.Nat.{bit_and}
use moonlight_tailscale_vita.Common.{
  ℕ, zero, suc, ◌+◌, ◌-◌, ◌*◌, ◌^◌, Bool, true, false, not, ◌&&◌, ◌||◌, Option, none, some, [],
  Bytes, ℤ, pos, negsuc, neg, is_neg, is_pos, int_is, to_nat, ltb, leb, ◌==◌, if◌then◌else◌, u64,
  length, take,
}
use moonlight_tailscale_vita.Tunnel.{
  Env, Tunnel, Source, M, ◌>>=◌, ◌>>◌, pure, outside, outside_only, get, modify, set_peer, get_time,
  handshake_timeout_us, rekey_interval_us, keepalive_interval_us,
}
use moonlight_tailscale_vita.Tunnel.Transport.{process_transport_locked, send_transport_locked}

-- `count & (count - 1)` on 64 bits
unfoldable pub should_log_rejection : ℕ → Bool
should_log_rejection count = leb count 4 || bit_and count (u64 (count + (2 ^ 64 - 1))) == 0

-- `result == -code`
abbrev pub is_code : ℕ → ℤ → Bool
is_code code (pos n) = false
is_code code (negsuc n) = n + 1 == code

module _ {Peer World : Type 0} (x : Env Peer World) where
  unfoldable pub send_handshake_locked : M Peer World ℤ
  send_handshake_locked t =
      let (created, peer', world') = x.create_initiation t.peer t.world in
      let t' = record t { peer = peer'; world = world' } in
      elim created [
        | none ↦ (neg 30, t')
        | some (initiation, sender) ↦
            let (sent, world'') = x.sendto t.outer_socket initiation world' in
            if not (int_is sent x.initiation_size)
            then (if is_neg sent then sent else neg 31, record t' { world = world'' })
            else (pos 0, record t' { world = world''; pending_handshake_sender = sender })
      ]

  unfoldable pub process_handshake_response_locked : Bytes → M Peer World ℤ
  process_handshake_response_locked packet t =
      if not (length packet == x.response_size)
        || not (x.get_message_type packet == x.message_handshake_response)
      then (neg 32, t)
      else if not (x.response_receiver packet == t.pending_handshake_sender)
          || not (
              x.check_mac1 (take (x.response_size - 2 * x.cookie_len) packet)
                (x.response_mac1 packet) t.peer)
      then (neg 33, t)
      else let (accepted, peer') = x.process_response packet t.peer in
        if not accepted
        then (neg 33, record t { peer = peer' })
        else let world' = x.log (pos 0) t.world in
          (
            pos 0,
            record t {
              peer = x.start_session peer';
              last_handshake_us = u64 (x.process_time t.world);
              pending_handshake_sender = 0;
              world = world';
            },
          )

  unfoldable pub source_is_peer : Source → Tunnel Peer World → Bool
  source_is_peer source t = source.address == t.endpoint.address && source.port == t.endpoint.port

  -- The counter that goes up, and its new value.
  unfoldable pub count_rejection : ℤ → M Peer World ℕ
  count_rejection result t =
      if is_code 42 result
      then (let count = u64 (t.decrypt_rejects + 1) in
          (count, record t { decrypt_rejects = count }))
      else if is_code 47 result
      then (let count = u64 (t.replay_rejects + 1) in (count, record t { replay_rejects = count }))
      else (let count = u64 (t.other_rejects + 1) in (count, record t { other_rejects = count }))

  unfoldable pub record_transport_rejection : ℤ → M Peer World (Unit {0})
  unfolding count_rejection
  record_transport_rejection result = do
    count ← count_rejection result
    if should_log_rejection count then outside_only (x.log result) else pure tt

  -- One datagram: its message type says which routine has it.
  unfoldable pub process_datagram : Bytes → M Peer World ℤ
  unfolding process_handshake_response_locked process_transport_locked
  process_datagram incoming =
      let type = x.get_message_type incoming in
      if type == x.message_handshake_response
      then process_handshake_response_locked incoming
      else if type == x.message_transport_data
      then process_transport_locked x incoming
      else pure (pos 0)

  unfoldable pub receive_step : M Peer World (Unit {0})
  unfolding source_is_peer process_datagram record_transport_rejection
  receive_step t =
      let (received, buffer, source, world') = x.recvfrom t.outer_socket 1600 t.world in
      let t' = record t { world = world' } in
      if is_pos received && source_is_peer source t'
      then (let (result, u) = process_datagram (take (to_nat received) buffer) t' in
          if is_neg result then record_transport_rejection result u else (tt, u))
      else (tt, t')

  -- `now - t >= interval` on 64 bits
  abbrev pub has_elapsed : ℕ → ℕ → ℕ → Bool
  has_elapsed now since interval = leb interval (u64 (now + (2 ^ 64 - since)))

  unfoldable pub rekey_step : ℕ → M Peer World (Unit {0})
  unfolding send_handshake_locked
  rekey_step now t =
      if t.pending_handshake_sender == 0 && has_elapsed now t.last_handshake_us rekey_interval_us
      then (let (result, u) = send_handshake_locked t in outside_only (x.log result) u)
      else (tt, t)

  unfoldable pub keepalive_step : ℕ → M Peer World (Unit {0})
  unfolding send_transport_locked
  keepalive_step now t =
      if t.has_peer
        && x.sending_valid t.peer
        && has_elapsed now t.last_transport_tx_us keepalive_interval_us
      then (let (result, u) = send_transport_locked x [] t in
          if is_neg result then outside_only (x.log result) u else (tt, u))
      else (tt, t)

  -- One round of `receive_thread_main`; nothing ends its loop once the thread runs.
  unfoldable pub receive_round : M Peer World (Unit {0})
  receive_round = do receive_step; now ← get_time x.process_time; rekey_step now; keepalive_step now

  unfoldable pub receive_rounds : ℕ → M Peer World (Unit {0})
  receive_rounds zero = pure tt
  receive_rounds (suc n) = do receive_round; receive_rounds n

  -- One pass of the loop that waits for the response: whether it ends the loop.
  unfoldable pub await_response : M Peer World Bool
  unfolding source_is_peer process_handshake_response_locked
  await_response t =
      let (received, buffer, source, world') = x.recvfrom t.outer_socket 256 t.world in
      let t' = record t { world = world' } in
      if is_pos received && source_is_peer source t'
      then (let (result, u) =
            process_handshake_response_locked (take (to_nat received) buffer) t' in
          (int_is result 0, u))
      else (false, t')

  -- `none` when the fuel runs out.
  unfoldable pub await_until : (fuel deadline : ℕ) → M Peer World (Option ℤ)
  await_until zero deadline t = (none, t)
  await_until (suc fuel) deadline t =
      if ltb (u64 (x.process_time t.world)) deadline
      then (let (answered, u) = await_response t in
          let rest = await_until fuel deadline u in if answered then (some (pos 0), u) else rest)
      else (some (neg 51), t)

  unfoldable pub perform_initial_handshake : (fuel : ℕ) → M Peer World (Option ℤ)
  perform_initial_handshake fuel t =
      let (result, u) = send_handshake_locked t in
      if is_neg result
      then (some result, u)
      else await_until fuel (u64 (u64 (x.process_time u.world) + handshake_timeout_us)) u
