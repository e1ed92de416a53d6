-- ===== src/Packet/Sound.antt =====
-- What it takes for the check to accept a packet, and that a damaged header is refused.
use moonlight_tailscale_vita.Common.{
  ℕ, zero, suc, ◌+◌, ◌-◌, ◌*◌, ◌%◌, ◌^◌, ◌≤◌, ◌<◌, ◌≡◌, ◌≢◌, ◌↔◌, ◌⊎◌, sym, ap, ◌∙◌, inl, inr, true,
  false, refl, Bool-cases, some, [], ◌∷◌, ◌++◌, Bytes, IsBytes, All-append, length, length-append,
  take, take-length, take-length-append, drop, drop-drop, get_or, same, same_iff, arith,
}
use moonlight_tailscale_vita.Packet.{
  Ipv4, octets, read_be16, checksum_add, checksum_finish, ipv4_checksum, udp_checksum, Expected,
  has_ipv4_header, checks_ipv4, checks_udp, checks_udp_sum, accepts, validate_ipv4_udp_packet,
}
use moonlight_tailscale_vita.Packet.Checksum.{
  word_sum, word_sum-le, checksum_add_zero, checksum_finish-mod,
}

-- The fields of a packet of `packet_size` bytes are those expected. `udp_sum` is the sum over the
-- pseudo header and the segment, which is left out by a sender that writes 0 for its checksum.
pub record Carries (e : Expected) (packet : Bytes) (packet_size : ℕ) : Type 0 where
  pub version : get_or packet 0 0 ≡ 0x45
  pub protocol : get_or packet 9 0 ≡ 17
  pub total_size : read_be16 (drop 2 packet) ≡ 28 + length e.payload
  pub inside : 28 + length e.payload ≤ packet_size
  pub whole : read_be16 (drop 6 packet) % 2 ^ 14 ≡ 0
  pub header_sum : ipv4_checksum packet ≡ 0
  pub source : take 4 (drop 12 packet) ≡ octets e.source_ip
  pub destination : take 4 (drop 16 packet) ≡ octets e.destination_ip
  pub source_port : read_be16 (drop 20 packet) ≡ e.source_port
  pub destination_port : read_be16 (drop 22 packet) ≡ e.destination_port
  pub udp_size : read_be16 (drop 24 packet) ≡ 8 + length e.payload
  pub udp_sum :
      (read_be16 (drop 26 packet) ≡ 0)
      ⊎ (udp_checksum
            (octets e.source_ip)
            (octets e.destination_ip)
            (drop 20 packet)
            (8 + length e.payload)
          ≡ 0)
  pub payload : take (length e.payload) (drop 28 packet) ≡ e.payload

-- The checksum reads four bytes of each address.
udp_checksum-octets :
    (a b : Ipv4) (source destination udp : Bytes) (n : ℕ)
    → take 4 source ≡ octets a
    → take 4 destination ≡ octets b
    → udp_checksum source destination udp n ≡ udp_checksum (octets a) (octets b) udp n
unfolding udp_checksum
udp_checksum-octets a b source destination udp n p q = rw (p, q)

module _ (e : Expected) (packet : Bytes) (packet_size : ℕ) where
  -- The five groups of tests, in the order of the source.
  accepts_iff : (accepts e packet packet_size ≡ true) ↔ (
      (has_ipv4_header packet packet_size ≡ true)
      × (checks_ipv4 e packet packet_size ≡ true)
      × (checks_udp e packet ≡ true)
      × (checks_udp_sum packet ≡ true)
      × (same (take (length e.payload) (drop 28 packet)) e.payload ≡ true))
  unfolding accepts
  accepts_iff = ground arith

  has_ipv4_header_iff :
      (has_ipv4_header packet packet_size ≡ true)
      ↔ ((28 ≤ packet_size) × (get_or packet 0 0 ≡ 0x45) × (get_or packet 9 0 ≡ 17))
  unfolding has_ipv4_header
  has_ipv4_header_iff = ground arith

  checks_ipv4_iff : (checks_ipv4 e packet packet_size ≡ true) ↔ (
      (28 ≤ read_be16 (drop 2 packet))
      × (read_be16 (drop 2 packet) ≤ packet_size)
      × (read_be16 (drop 6 packet) % 2 ^ 14 ≡ 0)
      × (ipv4_checksum packet ≡ 0)
      × (take 4 (drop 12 packet) ≡ octets e.source_ip)
      × (take 4 (drop 16 packet) ≡ octets e.destination_ip))
  unfolding checks_ipv4
  checks_ipv4_iff = ground (
    arith,
    same_iff (take 4 (drop 12 packet)) (octets e.source_ip),
    same_iff (take 4 (drop 16 packet)) (octets e.destination_ip),
  )

  checks_udp_iff : (checks_udp e packet ≡ true) ↔ (
      (read_be16 (drop 20 packet) ≡ e.source_port)
      × (read_be16 (drop 22 packet) ≡ e.destination_port)
      × (read_be16 (drop 24 packet) ≡ read_be16 (drop 2 packet) - 20)
      × (read_be16 (drop 24 packet) ≡ 8 + length e.payload))
  unfolding checks_udp
  checks_udp_iff = rw (drop-drop 20 2 packet) (rw (drop-drop 20 4 packet) (ground arith))

  checks_udp_sum_iff : (checks_udp_sum packet ≡ true) ↔ (
      (read_be16 (drop 26 packet) ≡ 0)
      ⊎ (udp_checksum
            (drop 12 packet)
            (drop 16 packet)
            (drop 20 packet)
            (read_be16 (drop 24 packet))
          ≡ 0))
  unfolding checks_udp_sum
  checks_udp_sum_iff = rw (drop-drop 20 4 packet) (rw (drop-drop 20 6 packet) (ground arith))

  accepts-Carries : accepts e packet packet_size ≡ true → Carries e packet packet_size
  accepts-Carries h =
      let (head, ip, udp, sum, text) = accepts_iff.0 h in
      let (size, version, protocol) = has_ipv4_header_iff.0 head in
      let (least, inside, whole, header, source, destination) = checks_ipv4_iff.0 ip in
      let (sport, dport, difference, udp_size) = checks_udp_iff.0 udp in
      record {
        version = version;
        protocol = protocol;
        total_size = omega arith;
        inside = omega arith;
        whole = whole;
        header_sum = header;
        source = source;
        destination = destination;
        source_port = sport;
        destination_port = dport;
        udp_size = udp_size;
        udp_sum = sum_of source destination udp_size (checks_udp_sum_iff.0 sum);
        payload = (same_iff _ _).0 text;
      }
    where
      sum_of :
          take 4 (drop 12 packet) ≡ octets e.source_ip
          → take 4 (drop 16 packet) ≡ octets e.destination_ip
          → read_be16 (drop 24 packet) ≡ 8 + length e.payload
          → (read_be16 (drop 26 packet) ≡ 0)
            ⊎ (udp_checksum
                  (drop 12 packet)
                  (drop 16 packet)
                  (drop 20 packet)
                  (read_be16 (drop 24 packet))
                ≡ 0)
          → (read_be16 (drop 26 packet) ≡ 0)
            ⊎ (udp_checksum
                  (octets e.source_ip)
                  (octets e.destination_ip)
                  (drop 20 packet)
                  (8 + length e.payload)
                ≡ 0)
      sum_of s d n (inl z) = inl z
      sum_of s d n (inr z) = inr (
          sym (udp_checksum-octets e.source_ip e.destination_ip _ _ _ _ s d)
          ∙ ap (udp_checksum (drop 12 packet) (drop 16 packet) (drop 20 packet)) (sym n)
          ∙ z)

  Carries-accepts : Carries e packet packet_size → accepts e packet packet_size ≡ true
  Carries-accepts c = accepts_iff.1 (
    has_ipv4_header_iff.1 (omega (arith, c.inside), c.version, c.protocol),
    checks_ipv4_iff.1 (
      omega (arith, c.total_size),
      omega (arith, c.total_size, c.inside),
      c.whole,
      c.header_sum,
      c.source,
      c.destination,
    ),
    checks_udp_iff.1
        (c.source_port, c.destination_port, omega (arith, c.total_size, c.udp_size), c.udp_size),
    checks_udp_sum_iff.1 (sum_of c.udp_sum),
    (same_iff _ _).1 c.payload,
  )
    where
      sum_of :
          (read_be16 (drop 26 packet) ≡ 0)
            ⊎ (udp_checksum
                  (octets e.source_ip)
                  (octets e.destination_ip)
                  (drop 20 packet)
                  (8 + length e.payload)
                ≡ 0)
          → (read_be16 (drop 26 packet) ≡ 0)
            ⊎ (udp_checksum
                  (drop 12 packet)
                  (drop 16 packet)
                  (drop 20 packet)
                  (read_be16 (drop 24 packet))
                ≡ 0)
      sum_of (inl z) = inl z
      sum_of (inr z) = inr (
          ap (udp_checksum (drop 12 packet) (drop 16 packet) (drop 20 packet)) c.udp_size
          ∙ udp_checksum-octets e.source_ip e.destination_ip _ _ _ _ c.source c.destination
          ∙ z)

-- The check accepts exactly the packets that carry the expected addresses, ports and payload in an
-- unfragmented IPv4 header of 20 bytes whose checksum holds, with lengths that agree and lie in the
-- packet, and with a UDP checksum that holds or was not sent.
pub validate_iff :
    (e : Expected) (packet : Bytes) (packet_size : ℕ)
    → (validate_ipv4_udp_packet
          (some packet)
          packet_size
          (some e.source_ip)
          (some e.destination_ip)
          e.source_port
          e.destination_port
          (some e.payload)
          (length e.payload)
        ≡ true)
      ↔ Carries e packet packet_size
unfolding validate_ipv4_udp_packet
validate_iff e packet n =
    rw (take-length e.payload) (accepts-Carries e packet n, Carries-accepts e packet n)

word_sum-append :
    (pre post : Bytes) (k : ℕ)
    → length pre ≡ 2 * k
    → word_sum (pre ++ post) ≡ word_sum pre + word_sum post
word_sum-append [] post k h = omega arith
word_sum-append (x ∷ []) post k h = absurd (omega arith)
word_sum-append (x ∷ y ∷ pre) post zero h = absurd (omega arith)
word_sum-append (x ∷ y ∷ pre) post (suc k) h =
    omega (arith, word_sum-append pre post k (omega arith))

-- A header whose checksum holds has a word sum that 65535 divides.
ipv4_checksum-mod :
    (header : Bytes)
    → length header ≡ 20
    → IsBytes header
    → ipv4_checksum header ≡ 0
    → word_sum header % 65535 ≡ 0
unfolding ipv4_checksum
ipv4_checksum-mod header n b z =
    let bound : word_sum header < 2 ^ 32 = omega (arith, word_sum-le header b) in
    let all : take 20 header ≡ header = rw (← n) (take-length header) in
    let s : checksum_add 0 (take 20 header) ≡ word_sum header =
      rw all (checksum_add_zero header b bound) in
    checksum_finish-mod (word_sum header) bound (ap checksum_finish (sym s) ∙ z)

-- Two headers that differ in one word by no multiple of 65535 do not both have a right checksum.
ipv4_checksum_differs :
    (pre post : Bytes) (k x y x' y' : ℕ)
    → length pre ≡ 2 * k
    → length pre + 2 + length post ≡ 20
    → IsBytes pre
    → IsBytes (x ∷ y ∷ post)
    → IsBytes (x' ∷ y' ∷ post)
    → (x' * 256 + y') % 65535 ≢ (x * 256 + y) % 65535
    → ipv4_checksum (pre ++ x ∷ y ∷ post) ≡ 0
    → ipv4_checksum (pre ++ x' ∷ y' ∷ post) ≢ 0
ipv4_checksum_differs pre post k x y x' y' even whole bp b b' ne ok bad =
    let m =
      ipv4_checksum-mod (pre ++ x ∷ y ∷ post) (omega (arith, length-append pre (x ∷ y ∷ post)))
        (All-append _ pre (x ∷ y ∷ post) bp b) ok in
    let m' =
      ipv4_checksum-mod (pre ++ x' ∷ y' ∷ post) (omega (arith, length-append pre (x' ∷ y' ∷ post)))
        (All-append _ pre (x' ∷ y' ∷ post) bp b') bad in
    omega (
      arith,
      word_sum-append pre (x ∷ y ∷ post) k even,
      word_sum-append pre (x' ∷ y' ∷ post) k even,
    )

-- The checksum reads the header alone.
ipv4_checksum-append :
    (header rest : Bytes)
    → length header ≡ 20
    → ipv4_checksum (header ++ rest) ≡ ipv4_checksum header
unfolding ipv4_checksum
ipv4_checksum-append header rest n =
    let all : take 20 header ≡ header = rw (← n) (take-length header) in
    let first : take 20 (header ++ rest) ≡ header = rw (← n) (take-length-append header rest) in
    rw (first, all) refl

-- A packet whose header checksum holds is refused, whatever is expected of it, once one of the
-- header's 16-bit words is changed to another that differs from it modulo 65535.
pub ipv4_checksum_detects :
    (pre post rest : Bytes) (k x y x' y' : ℕ) (e : Expected) (packet_size : ℕ)
    → length pre ≡ 2 * k
    → length pre + 2 + length post ≡ 20
    → IsBytes pre
    → IsBytes (x ∷ y ∷ post)
    → IsBytes (x' ∷ y' ∷ post)
    → (x' * 256 + y') % 65535 ≢ (x * 256 + y) % 65535
    → ipv4_checksum ((pre ++ x ∷ y ∷ post) ++ rest) ≡ 0
    → validate_ipv4_udp_packet
        (some ((pre ++ x' ∷ y' ∷ post) ++ rest))
        packet_size
        (some e.source_ip)
        (some e.destination_ip)
        e.source_port
        e.destination_port
        (some e.payload)
        (length e.payload)
      ≡ false
ipv4_checksum_detects pre post rest k x y x' y' e n even whole bp b b' ne ok =
    let before = pre ++ x ∷ y ∷ post in
    let after = pre ++ x' ∷ y' ∷ post in
    let right =
      ipv4_checksum-append before rest (omega (arith, length-append pre (x ∷ y ∷ post))) in
    let wrong =
      ipv4_checksum-append after rest (omega (arith, length-append pre (x' ∷ y' ∷ post))) in
    elim (Bool-cases (
      validate_ipv4_udp_packet (some (after ++ rest)) n (some e.source_ip) (some e.destination_ip)
        e.source_port e.destination_port (some e.payload) (length e.payload))) [
          | inr refused ↦ refused
          | inl accepted ↦
              let sum = ((validate_iff e (after ++ rest) n).0 accepted).header_sum in
              absurd (
                ipv4_checksum_differs pre post k x y x' y' even whole bp b b' ne (sym right ∙ ok)
                  (sym wrong ∙ sum))
        ]
