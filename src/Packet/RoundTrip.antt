-- ===== src/Packet/RoundTrip.antt =====
-- What is built is accepted by the check, whatever lies behind it in the buffer.
use moonlight_tailscale_vita.Common.{
  ℕ, zero, suc, ◌+◌, ◌/◌, ◌%◌, ◌^◌, ◌≤◌, ◌<◌, ◌≡◌, refl, ap, ◌∙◌, true, Option, some, [], ◌∷◌,
  take-length, ◌++◌, Bytes, IsBytes, length, take, drop, same, same_iff, u8, arith,
}
use moonlight_tailscale_vita.Packet.{
  Ipv4, octets, Datagram, udp_size_of, packet_size_of, be16, read_be16, checksum_add,
  checksum_finish, ipv4_checksum, udp_checksum, Expected, has_ipv4_header, checks_ipv4, checks_udp,
  checks_udp_sum, accepts, build_ipv4_udp_packet, validate_ipv4_udp_packet,
}
use moonlight_tailscale_vita.Packet.Checksum.{
  checksum_add_zero, word_sum, word_sum-le, checksum_add-word_sum, checksum_finish-zero,
  checksum_finish_completes,
}
use moonlight_tailscale_vita.Packet.Layout.{
  ipv4_header, udp_header, ip_sum, pseudo_sum, never_zero, udp_sum, packet_of, take-append,
  fill_packet_lem,
}

abbrev pub IsIpv4 : Ipv4 → Type 0
IsIpv4 ip = (ip.a < 256) × (ip.b < 256) × (ip.c < 256) × (ip.d < 256)

-- The arguments have the ranges of their C types, and the payload fits.
pub record IsDatagram (g : Datagram) : Type 0 where
  pub source : IsIpv4 g.source_ip
  pub destination : IsIpv4 g.destination_ip
  pub source_port : g.source_port < 2 ^ 16
  pub destination_port : g.destination_port < 2 ^ 16
  pub identification : g.identification < 2 ^ 16
  pub payload : IsBytes g.payload
  pub fits : length g.payload ≤ 65507

abbrev pub expected_of : Datagram → Expected
expected_of g = record {
  source_ip = g.source_ip;
  destination_ip = g.destination_ip;
  source_port = g.source_port;
  destination_port = g.destination_port;
  payload = g.payload;
}

same_refl : (bytes : Bytes) → same bytes bytes ≡ true
same_refl bytes = (same_iff bytes bytes).1 refl

module _ (g : Datagram) (v : IsDatagram g) where
  ip_words : (k : ℕ) → k < 2 ^ 16 → word_sum (ipv4_header g k) ≡ word_sum (ipv4_header g 0) + k
  ip_words k h = omega arith

  -- The header's words with the checksum in its place add up to a multiple of 65535.
  ip_sum_lem : (ip_sum g < 2 ^ 16) × (word_sum (ipv4_header g (ip_sum g)) % 65535 ≡ 0)
  ip_sum_lem =
      let s : ip_sum g ≡ checksum_finish (word_sum (ipv4_header g 0)) =
        ap checksum_finish
          (checksum_add_zero (ipv4_header g 0) (omega (arith, v)) (omega (arith, v))) in
      let (lt, done) = checksum_finish_completes (word_sum (ipv4_header g 0)) (omega (arith, v)) in
      let lt' : ip_sum g < 2 ^ 16 = rw s lt in
      (
        lt',
        rw (ip_words (ip_sum g) lt') (rw (ap (λ (k : ℕ). word_sum (ipv4_header g 0) + k) s) done),
      )

  -- So the receiver's checksum over it is zero.
  ipv4_checksum-packet : (rest : Bytes) → ipv4_checksum (packet_of g ++ rest) ≡ 0
  unfolding ipv4_checksum
  ipv4_checksum-packet rest =
      let header = ipv4_header g (ip_sum g) in
      let s : checksum_add 0 header ≡ word_sum header =
        checksum_add_zero header (omega (arith, v, ip_sum_lem)) (omega (arith, v, ip_sum_lem)) in
      ap checksum_finish s
      ∙ (checksum_finish-zero (word_sum header) (omega arith) (omega (arith, v, ip_sum_lem))).1
          (ip_sum_lem.1)

  pseudo_words : ℕ
  pseudo_words =
      word_sum (octets g.source_ip) + word_sum (octets g.destination_ip) + 17 + udp_size_of g

  pseudo_sum_lem : pseudo_sum g ≡ pseudo_words
  unfolding pseudo_words
  pseudo_sum_lem =
      rw (checksum_add_zero (octets g.source_ip) (omega (arith, v)) (omega (arith, v))) (
        rw
          (checksum_add-word_sum (octets g.destination_ip) (word_sum (octets g.source_ip))
            (omega (arith, v)) (omega (arith, v)))
          (omega (arith, v)))

  udp_words :
      (k : ℕ)
      → k < 2 ^ 16
      → word_sum (udp_header g k ++ g.payload) ≡ word_sum (udp_header g 0 ++ g.payload) + k
  udp_words k h = omega arith

  segment-IsBytes : (k : ℕ) → k < 2 ^ 16 → IsBytes (udp_header g k ++ g.payload)
  segment-IsBytes k h = (
    omega arith,
    (
      omega arith,
      (
        omega arith,
        (omega arith, (omega arith, (omega arith, (omega arith, (omega arith, v.payload))))),
      ),
    ),
  )

  segment_fits :
      (k : ℕ) → k < 2 ^ 16 → pseudo_words + word_sum (udp_header g k ++ g.payload) < 2 ^ 32
  unfolding pseudo_words
  segment_fits k h = omega (arith, v, word_sum-le g.payload v.payload)

  segment_sum :
      (k : ℕ)
      → k < 2 ^ 16
      → checksum_add (pseudo_sum g) (udp_header g k ++ g.payload)
        ≡ pseudo_words + word_sum (udp_header g k ++ g.payload)
  segment_sum k h = rw pseudo_sum_lem (
      checksum_add-word_sum (udp_header g k ++ g.payload) pseudo_words (segment-IsBytes k h)
        (segment_fits k h))

  never_zero_lem :
      (s c : ℕ)
      → c < 2 ^ 16
      → (s + c) % 65535 ≡ 0
      → (0 < never_zero c) × (never_zero c < 2 ^ 16) × ((s + never_zero c) % 65535 ≡ 0)
  never_zero_lem s c h e = ground arith

  udp_sum_lem :
      (0 < udp_sum g)
      × (udp_sum g < 2 ^ 16)
      × ((pseudo_words + word_sum (udp_header g (udp_sum g) ++ g.payload)) % 65535 ≡ 0)
  udp_sum_lem =
      let total = pseudo_words + word_sum (udp_header g 0 ++ g.payload) in
      let (lt, done) = checksum_finish_completes total (segment_fits 0 (omega arith)) in
      let s : udp_sum g ≡ never_zero (checksum_finish total) =
        ap (λ k. never_zero (checksum_finish k)) (segment_sum 0 (omega arith)) in
      let (p, q, r) = never_zero_lem total (checksum_finish total) lt done in
      let q' : udp_sum g < 2 ^ 16 = rw s q in
      let e = udp_words (udp_sum g) q' in
      let r' : (total + udp_sum g) % 65535 ≡ 0 = rw s r in (rw s p, q', omega arith)

  udp_checksum-packet :
      (rest : Bytes)
      → udp_checksum
          (drop 12 (packet_of g ++ rest))
          (drop 16 (packet_of g ++ rest))
          (drop 20 (packet_of g ++ rest))
          (udp_size_of g)
        ≡ 0
  unfolding udp_checksum
  udp_checksum-packet rest =
      let segment = udp_header g (udp_sum g) ++ g.payload in
      let (p, q, r) = udp_sum_lem in
      rw (take-append segment rest (udp_size_of g) (omega arith)) (
        ap checksum_finish (segment_sum (udp_sum g) q)
        ∙ (checksum_finish-zero (pseudo_words + word_sum segment) (omega arith)
              (segment_fits (udp_sum g) q)).1
            r)

  has_ipv4_header-packet :
      (rest : Bytes) → has_ipv4_header (packet_of g ++ rest) (packet_size_of g) ≡ true
  unfolding has_ipv4_header
  has_ipv4_header-packet rest = ground arith

  be16-be_bytes : (w : ℕ) → w < 2 ^ 16 → be16 (u8 (w / 2 ^ 8)) (u8 w) ≡ w
  be16-be_bytes w h = omega arith

  total_size-packet : (rest : Bytes) → read_be16 (drop 2 (packet_of g ++ rest)) ≡ packet_size_of g
  unfolding read_be16
  total_size-packet rest = omega (arith, v.fits)

  fragment-packet : (rest : Bytes) → read_be16 (drop 6 (packet_of g ++ rest)) ≡ 0x4000
  unfolding read_be16
  fragment-packet rest = refl

  source_port-packet : (rest : Bytes) → read_be16 (drop 20 (packet_of g ++ rest)) ≡ g.source_port
  unfolding read_be16
  source_port-packet rest = omega (arith, v.source_port)

  destination_port-packet :
      (rest : Bytes) → read_be16 (drop 22 (packet_of g ++ rest)) ≡ g.destination_port
  unfolding read_be16
  destination_port-packet rest = omega (arith, v.destination_port)

  udp_size-packet : (rest : Bytes) → read_be16 (drop 24 (packet_of g ++ rest)) ≡ udp_size_of g
  unfolding read_be16
  udp_size-packet rest = omega (arith, v.fits)

  checks_ipv4-packet :
      (rest : Bytes) → checks_ipv4 (expected_of g) (packet_of g ++ rest) (packet_size_of g) ≡ true
  unfolding checks_ipv4
  checks_ipv4-packet rest = ground (
    arith,
    v.fits,
    total_size-packet rest,
    fragment-packet rest,
    ipv4_checksum-packet rest,
    same_refl (octets g.source_ip),
    same_refl (octets g.destination_ip),
  )

  checks_udp-packet : (rest : Bytes) → checks_udp (expected_of g) (packet_of g ++ rest) ≡ true
  unfolding checks_udp
  checks_udp-packet rest = ground (
    arith,
    total_size-packet rest,
    source_port-packet rest,
    destination_port-packet rest,
    udp_size-packet rest,
  )

  checks_udp_sum-packet : (rest : Bytes) → checks_udp_sum (packet_of g ++ rest) ≡ true
  unfolding checks_udp_sum
  checks_udp_sum-packet rest = ground (arith, udp_size-packet rest, udp_checksum-packet rest)

  payload-packet :
      (rest : Bytes)
      → same (take (length g.payload) (drop 28 (packet_of g ++ rest))) g.payload ≡ true
  payload-packet rest =
      rw (take-append g.payload rest (length g.payload) refl) (same_refl g.payload)

  accepts-packet :
      (rest : Bytes) → accepts (expected_of g) (packet_of g ++ rest) (packet_size_of g) ≡ true
  unfolding accepts
  accepts-packet rest =
      rw
        (
          has_ipv4_header-packet rest,
          checks_ipv4-packet rest,
          checks_udp-packet rest,
          checks_udp_sum-packet rest,
        )
        (payload-packet rest)

drop-append : (xs rest : Bytes) (n : ℕ) → n ≡ length xs → drop n (xs ++ rest) ≡ rest
drop-append [] rest n e = rw e
drop-append (x ∷ xs) rest zero e = absurd (omega arith)
drop-append (x ∷ xs) rest (suc n) e = drop-append xs rest n (omega arith)

length-packet_of : (g : Datagram) → packet_size_of g ≡ length (packet_of g)
length-packet_of g = omega arith

abbrev returned : ℕ × Bytes → ℕ × Option Bytes
returned r = (r.0, some r.1)

-- For arguments in the ranges of their C types, a payload of at most 65507 bytes and a buffer with
-- room for it, the build returns 28 more than the payload's size, writes no byte of the buffer
-- behind that, and what it wrote passes the check for the same addresses, ports and payload.
pub validate-build :
    (g : Datagram) (output : Bytes) (output_capacity : ℕ)
    → IsDatagram g
    → packet_size_of g ≤ output_capacity
    → output_capacity ≤ length output
    → (written : Bytes) × (build_ipv4_udp_packet
          (some output)
          output_capacity
          (some g.source_ip)
          (some g.destination_ip)
          g.source_port
          g.destination_port
          g.identification
          (some g.payload)
          (length g.payload)
        ≡ (packet_size_of g, some written))
      × (drop (packet_size_of g) written ≡ drop (packet_size_of g) output)
      × (validate_ipv4_udp_packet
            (some written)
            (packet_size_of g)
            (some g.source_ip)
            (some g.destination_ip)
            g.source_port
            g.destination_port
            (some g.payload)
            (length g.payload)
          ≡ true)
unfolding build_ipv4_udp_packet validate_ipv4_udp_packet
validate-build g output capacity v room there =
    let rest = drop (packet_size_of g) output in
    let whole = take-length g.payload in
    (
      packet_of g ++ rest,
      rw whole (ap returned (fill_packet_lem g capacity output v.fits room there)),
      drop-append (packet_of g) rest (packet_size_of g) (length-packet_of g),
      rw whole (accepts-packet g v rest),
    )
