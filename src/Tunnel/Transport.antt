-- ===== src/Tunnel/Transport.antt =====
-- Transport data: packets of lwIP that are sent through the tunnel, and packets of the peer that are
-- handed to lwIP.
pub mod Size
pub mod Inbound
use Prim.Native.Nat.{bit_and}
use moonlight_tailscale_vita.Common.{
  ℕ, ◌+◌, ◌-◌, ◌*◌, ◌/◌, ◌^◌, Bool, true, false, not, ◌&&◌, ◌||◌, Option, none, some, List, [],
  ◌++◌, Bytes, ℤ, pos, neg, is_neg, int_is, ltb, ◌==◌, if◌then◌else◌, u16, u32, u64, length, take,
  drop, replicate, get_or,
}
use moonlight_tailscale_vita.Tunnel.{
  Env, Tunnel, M, ◌>>=◌, ◌>>◌, pure, outside, outside_only, get, modify, set_peer, get_time,
  inner_mtu,
}

-- `(inner_size + 15U) & ~(size_t)15U`
unfoldable pub padded_size : ℕ → ℕ
padded_size inner_size = bit_and (u32 (inner_size + 15)) (2 ^ 32 - 1 - 15)

-- The plaintext of the outgoing packet, in a buffer that was zeroed.
abbrev pub padded : Bytes → Bytes
padded inner = inner ++ replicate (padded_size (length inner) - length inner) 0

-- `(plaintext[2] << 8) | plaintext[3]`
abbrev pub total_length : Bytes → ℕ
total_length plaintext = get_or plaintext 2 0 * 2 ^ 8 + get_or plaintext 3 0

-- IPv4, to 10.77.0.2.
unfoldable pub is_for_us : Bytes → Bool
is_for_us plaintext =
    get_or plaintext 0 0 / 2 ^ 4 == 4
    && get_or plaintext 16 0 == 10
    && get_or plaintext 17 0 == 77
    && get_or plaintext 18 0 == 0
    && get_or plaintext 19 0 == 2

module _ {Peer World : Type 0} (x : Env Peer World) where
  abbrev pub outgoing_size : ℕ → ℕ
  outgoing_size inner_size = x.transport_header_size + padded_size inner_size + x.authtag_len

  unfoldable pub send_transport_locked : Bytes → M Peer World ℤ
  send_transport_locked inner = do
    t ← get
    if not t.has_peer || not (x.sending_valid t.peer) || ltb inner_mtu (length inner)
        then pure (neg 20)
        else do
          let header = x.transport_header (x.remote_index t.peer) (x.sending_counter t.peer)
          let (encrypted, peer') = x.encrypt_packet (padded inner) t.peer
          let size = outgoing_size (length inner)
          set_peer peer'
          sent ← outside (x.sendto t.outer_socket (take size (header ++ encrypted)))
          if not (int_is sent size) then pure (if is_neg sent then sent else neg 21) else do
            time ← get_time x.process_time
            modify
                (λ u. record u { last_transport_tx_us = time; tx_packets = u64 (u.tx_packets + 1) })
            pure (pos 0)

  -- `packet` has `tot_len` bytes, and `pbuf_copy_partial` copies them all; `true` is ERR_OK.
  unfoldable pub tunnel_netif_output : Option Bytes → M Peer World Bool
  unfolding send_transport_locked
  tunnel_netif_output none = pure false
  tunnel_netif_output (some packet) =
      if length packet == 0 || ltb inner_mtu (length packet) then pure false else do
        result ← send_transport_locked packet
        if is_neg result then (do outside_only (x.log result); pure false) else pure true

  -- The packet's own bytes go to lwIP in a pbuf; one that lwIP does not take is freed.
  unfoldable pub deliver : Bytes → M Peer World ℤ
  deliver packet = do
    allocated ← outside (x.pbuf_alloc (length packet))
    if not allocated then pure (neg 45) else do
      taken ← outside (x.pbuf_take packet)
      if not taken then (do outside_only x.pbuf_free; pure (neg 45)) else do
        accepted ← outside (x.tcpip_input packet)
        if not accepted
            then (do outside_only x.pbuf_free; pure (neg 46))
            else do modify (λ u. record u { rx_packets = u64 (u.rx_packets + 1) }); pure (pos 0)

  -- The checks of a plaintext that has been authenticated.
  unfoldable pub process_plaintext : (plaintext_size : ℕ) → Bytes → M Peer World ℤ
  unfolding deliver
  process_plaintext plaintext_size plaintext =
      if plaintext_size == 0
      then pure (pos 0)
      else if ltb plaintext_size 20 || not (is_for_us plaintext)
      then pure (neg 43)
      else if ltb (total_length plaintext) 20
          || ltb plaintext_size (total_length plaintext)
          || ltb inner_mtu (total_length plaintext)
      then pure (neg 44)
      else deliver (take (total_length plaintext) plaintext)

  unfoldable pub process_authenticated :
      (keypair counter plaintext_size : ℕ) → Bytes → M Peer World ℤ
  unfolding process_plaintext
  process_authenticated keypair counter plaintext_size plaintext = do
    t ← get
    let (fresh, peer') = x.check_replay keypair counter t.peer
    set_peer peer'
    if not fresh then pure (neg 47) else process_plaintext plaintext_size plaintext

  unfoldable pub process_transport_locked : Bytes → M Peer World ℤ
  process_transport_locked incoming t =
      if ltb (length incoming) (x.transport_header_size + x.authtag_len)
        || ltb (x.transport_header_size + inner_mtu + 15 + x.authtag_len) (length incoming)
      then (neg 40, t)
      else elim (x.keypair_for t.peer (x.transport_receiver incoming)) [
        | none ↦ (neg 41, t)
        | some keypair ↦
            let encrypted_size = length incoming - x.transport_header_size in
            let counter = x.transport_counter incoming in
            if not (x.receiving_valid t.peer keypair) || ltb encrypted_size x.authtag_len
            then (neg 41, t)
            else elim (x.decrypt_packet (drop x.transport_header_size incoming) counter keypair
                t.peer) [
                  | none ↦ (neg 42, t)
                  | some plaintext ↦
                      process_authenticated keypair counter (encrypted_size - x.authtag_len)
                        plaintext t
                ]
      ]
