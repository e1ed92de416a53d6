-- ===== src/Tunnel/Transport/Size.antt =====
-- The sizes of outgoing packets.
use moonlight_tailscale_vita.Common.{
  ℕ, ◌+◌, ◌*◌, ◌/◌, ◌%◌, ◌^◌, ◌-◌, ◌≤◌, true, pos, ◌↔◌, take, take-length-append, ◌≡◌, sym, ap,
  subst, take-length, ◌∙◌, arith, u32, bit_and-halves, bit_and-low, Bytes, length, ◌++◌,
  length-append, length-replicate, replicate,
}
use moonlight_tailscale_vita.Tunnel.{Env, Tunnel, inner_mtu}
use moonlight_tailscale_vita.Tunnel.Transport.{
  padded_size, padded, outgoing_size, send_transport_locked,
}

-- Rounding up to a multiple of 16, for sizes that the addition does not carry over 32 bits.
padded_size_lem : (n : ℕ) → n ≤ inner_mtu → padded_size n ≡ (n + 15) / 16 * 16
unfolding padded_size
padded_size_lem n h =
    let m = u32 (n + 15) in
    let e : m ≡ n + 15 = omega arith in
    let k : ℕ = 2 ^ 32 - 1 - 15 in
    omega (
      arith,
      e,
      bit_and-halves m k,
      bit_and-halves (m / 2) (k / 2),
      bit_and-halves (m / 2 / 2) (k / 2 / 2),
      bit_and-halves (m / 2 / 2 / 2) (k / 2 / 2 / 2),
      bit_and-low 28 (m / 2 / 2 / 2 / 2),
    )

length-padded :
    (inner : Bytes) → length inner ≤ inner_mtu → length (padded inner) ≡ padded_size (length inner)
length-padded inner h = omega (
  arith,
  padded_size_lem (length inner) h,
  length-append inner (replicate (padded_size (length inner) - length inner) 0),
  length-replicate {A = ℕ} (padded_size (length inner) - length inner) 0,
)

module _ {Peer World : Type 0} (x : Env Peer World) where
  send_transport_locked_sends :
      (inner : Bytes) (t : Tunnel Peer World)
      → t.has_peer ≡ true
      → x.sending_valid t.peer ≡ true
      → length inner ≤ inner_mtu
      → let datagram = take (outgoing_size x (length inner)) (
          x.transport_header (x.remote_index t.peer) (x.sending_counter t.peer)
          ++ (x.encrypt_packet (padded inner) t.peer).0) in
        (send_transport_locked x inner t).0 ≡ pos 0
        ↔ (x.sendto t.outer_socket datagram t.world).0 ≡ pos (outgoing_size x (length inner))
  unfolding send_transport_locked
  send_transport_locked_sends inner t has valid h = (λ sent. ground arith, λ sent. ground arith)

  -- If the encryption adds the tag and the header has its size, a packet of at most 1280 bytes, to a
  -- peer whose keypair may send, goes out padded with zeros to
  -- a multiple of 16 bytes, whole, in a datagram that fits the buffer of the source and that
  -- `process_transport_locked` does not refuse for its size; the send succeeds just when the socket
  -- takes all of that datagram.
  pub send_transport_locked_size :
      (inner : Bytes) (t : Tunnel Peer World)
      → ((peer : Peer) (plaintext : Bytes)
          → length (x.encrypt_packet plaintext peer).0 ≡ length plaintext + x.authtag_len)
      → ((receiver counter : ℕ)
          → length (x.transport_header receiver counter) ≡ x.transport_header_size)
      → t.has_peer ≡ true
      → x.sending_valid t.peer ≡ true
      → length inner ≤ inner_mtu
      → let datagram =
          x.transport_header (x.remote_index t.peer) (x.sending_counter t.peer)
          ++ (x.encrypt_packet (padded inner) t.peer).0 in
        let size = outgoing_size x (length inner) in
        (length (padded inner) % 16 ≡ 0)
        × (take (length inner) (padded inner) ≡ inner)
        × (length datagram ≡ size)
        × (size ≤ x.transport_header_size + inner_mtu + 15 + x.authtag_len)
        × ((send_transport_locked x inner t).0 ≡ pos 0
            ↔ (x.sendto t.outer_socket datagram t.world).0 ≡ pos size)
  send_transport_locked_size inner t encrypts heads has valid h =
      let header = x.transport_header (x.remote_index t.peer) (x.sending_counter t.peer) in
      let encrypted = (x.encrypt_packet (padded inner) t.peer).0 in
      let size = outgoing_size x (length inner) in
      let whole : length (header ++ encrypted) ≡ size = omega (
        arith,
        length-append header encrypted,
        heads (x.remote_index t.peer) (x.sending_counter t.peer),
        encrypts t.peer (padded inner),
        length-padded inner h,
      ) in
      let all : take size (header ++ encrypted) ≡ header ++ encrypted =
        ap (λ (n : ℕ). take n (header ++ encrypted)) (sym whole)
        ∙ take-length (header ++ encrypted) in
      (
        omega (arith, length-padded inner h, padded_size_lem (length inner) h),
        take-length-append inner (replicate (padded_size (length inner) - length inner) 0),
        whole,
        omega (arith, padded_size_lem (length inner) h),
        subst
            (λ (d : Bytes).
              (send_transport_locked x inner t).0 ≡ pos 0
              ↔ (x.sendto t.outer_socket d t.world).0 ≡ pos size)
            all (send_transport_locked_sends inner t has valid h),
      )
