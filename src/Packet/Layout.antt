-- ===== src/Packet/Layout.antt =====
-- What the writes of `tsvita_build_ipv4_udp_packet` leave in the buffer, byte by byte.
use moonlight_tailscale_vita.Common.{
  ℕ, zero, suc, ◌+◌, ◌/◌, ◌^◌, ◌≤◌, ◌≡◌, refl, ap, ap₂, ◌∙◌, [], ◌∷◌, ◌++◌, Bytes, length, take,
  drop, replicate, length-replicate, ◌==◌, if◌then◌else◌, u8, u16, u32, arith,
}
use moonlight_tailscale_vita.Packet.{
  octets, Datagram, udp_size_of, packet_size_of, overlay, write_at, checksum_add, checksum_finish,
  write_ipv4_header, write_udp, fill_packet,
}

abbrev pub be_bytes : ℕ → Bytes
be_bytes value = u8 (value / 2 ^ 8) ∷ u8 value ∷ []

-- The IPv4 header with the checksum `sum`.
abbrev pub ipv4_header : Datagram → ℕ → Bytes
ipv4_header g sum =
    0x45
    ∷ 0
    ∷ (be_bytes (u16 (packet_size_of g))
        ++ (be_bytes g.identification
            ++ (be_bytes 0x4000
                ++ (64 ∷ 17 ∷ (be_bytes sum ++ (octets g.source_ip ++ octets g.destination_ip))))))

abbrev pub udp_header : Datagram → ℕ → Bytes
udp_header g sum =
    be_bytes g.source_port
    ++ (be_bytes g.destination_port ++ (be_bytes (u16 (udp_size_of g)) ++ be_bytes sum))

abbrev pub ip_sum : Datagram → ℕ
ip_sum g = checksum_finish (checksum_add 0 (ipv4_header g 0))

-- The running sum over the pseudo header.
abbrev pub pseudo_sum : Datagram → ℕ
pseudo_sum g = u32 (
    u32 (checksum_add (checksum_add 0 (octets g.source_ip)) (octets g.destination_ip) + 17)
    + u16 (udp_size_of g))

abbrev pub never_zero : ℕ → ℕ
never_zero sum = if sum == 0 then 0xffff else sum

abbrev pub udp_sum : Datagram → ℕ
udp_sum g = never_zero (checksum_finish (checksum_add (pseudo_sum g) (udp_header g 0 ++ g.payload)))

abbrev pub packet_of : Datagram → Bytes
packet_of g = ipv4_header g (ip_sum g) ++ (udp_header g (udp_sum g) ++ g.payload)

overlay-append : (xs ys : Bytes) → length xs ≤ length ys → overlay xs ys ≡ xs ++ drop (length xs) ys
unfolding overlay
overlay-append [] ys h = refl
overlay-append (x ∷ xs) [] h = absurd (omega arith)
overlay-append (x ∷ xs) (y ∷ ys) h = ap (◌∷◌ x) (overlay-append xs ys (omega arith))

overlay-replicate : (xs rest : Bytes) → overlay xs (replicate (length xs) 0 ++ rest) ≡ xs ++ rest
unfolding overlay
overlay-replicate [] rest = refl
overlay-replicate (x ∷ xs) rest = ap (◌∷◌ x) (overlay-replicate xs rest)

pub take-append : (xs rest : Bytes) (n : ℕ) → n ≡ length xs → take n (xs ++ rest) ≡ xs
take-append [] rest n e = rw e
take-append (x ∷ xs) rest zero e = absurd (omega arith)
take-append (x ∷ xs) rest (suc n) e = ap (◌∷◌ x) (take-append xs rest n (omega arith))

replicate-add : (m n : ℕ) (a : ℕ) → replicate (m + n) a ≡ replicate m a ++ replicate n a
replicate-add zero n a = ap (λ (k : ℕ). replicate k a) (omega arith)
replicate-add (suc m) n a =
    let e : suc m + n ≡ suc (m + n) = omega arith in rw e (ap (◌∷◌ a) (replicate-add m n a))

-- `memset` clears the packet's bytes and no other.
cleared :
    (g : Datagram) (output : Bytes)
    → packet_size_of g ≤ length output
    → write_at 0 (replicate (packet_size_of g) 0) output
      ≡ replicate 28 0 ++ (replicate (length g.payload) 0 ++ drop (packet_size_of g) output)
unfolding write_at
cleared g output h =
    let n = packet_size_of g in
    overlay-append (replicate n 0) output (rw length-replicate h)
    ∙ ap₂ (λ (z : Bytes) (k : ℕ). z ++ drop k output)
        (ap (λ (k : ℕ). replicate k 0) split ∙ replicate-add 28 (length g.payload) 0)
        (length-replicate n 0)
  where
    split : packet_size_of g ≡ 28 + length g.payload
    split = omega arith

header_written :
    (g : Datagram) (tail : Bytes)
    → write_ipv4_header g (replicate 28 0 ++ tail)
      ≡ ipv4_header g (ip_sum g) ++ (replicate 8 0 ++ tail)
unfolding write_ipv4_header
header_written g tail = refl

udp_written :
    (g : Datagram) (sum : ℕ) (rest : Bytes)
    → write_udp g (ipv4_header g sum ++ (replicate 8 0 ++ (replicate (length g.payload) 0 ++ rest)))
      ≡ ipv4_header g sum ++ (udp_header g (udp_sum g) ++ (g.payload ++ rest))
unfolding write_udp
udp_written g sum rest =
    rw (overlay-replicate g.payload rest)
      (rw (take-append (udp_header g 0 ++ g.payload) rest (udp_size_of g) (omega arith)) refl)

-- A payload that fits and a buffer with room: the packet is written to the front of the buffer, and
-- the bytes behind it are left alone.
pub fill_packet_lem :
    (g : Datagram) (output_capacity : ℕ) (output : Bytes)
    → length g.payload ≤ 65507
    → packet_size_of g ≤ output_capacity
    → output_capacity ≤ length output
    → fill_packet g output_capacity output
      ≡ (packet_size_of g, packet_of g ++ drop (packet_size_of g) output)
unfolding fill_packet
fill_packet_lem g capacity output fits room there =
    let rest = drop (packet_size_of g) output in
    let written : write_udp g
          (write_ipv4_header g (write_at 0 (replicate (packet_size_of g) 0) output))
        ≡ packet_of g ++ rest =
      ap (λ (o : Bytes). write_udp g (write_ipv4_header g o)) (cleared g output (omega arith))
      ∙ ap (write_udp g) (header_written g (replicate (length g.payload) 0 ++ rest))
      ∙ udp_written g (ip_sum g) rest in
    ground (arith, written)
