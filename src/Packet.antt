-- ===== src/Packet.antt =====
-- src/ip_udp_packet.c: an IPv4/UDP packet is built in a caller's buffer, and one that came back is
-- checked against what was expected. A pointer that may be NULL is an `Option`; a buffer is the
-- list of its bytes, and a pointer into it is what `drop` leaves. Where the source shifts and joins
-- bytes by `|`, the parts do not overlap and the sum is written; `& 0xFFFF` is `% 2 ^ 16`.
pub mod Checksum
pub mod Layout
pub mod RoundTrip
pub mod Sound
use moonlight_tailscale_vita.Common.{
  ℕ, zero, suc, ◌+◌, ◌-◌, ◌*◌, ◌/◌, ◌%◌, ◌^◌, Bool, true, false, not, ◌&&◌, ◌||◌, Option, none,
  some, List, [], ◌∷◌, Bytes, length, take, drop, replicate, get_or, same, ltb, leb, ◌==◌,
  if◌then◌else◌, u8, u16, u32,
}

-- `uint8_t ip[4]`
pub record Ipv4 : Type 0 where
  pub a : ℕ
  pub b : ℕ
  pub c : ℕ
  pub d : ℕ

abbrev pub octets : Ipv4 → Bytes
octets ip = ip.a ∷ ip.b ∷ ip.c ∷ ip.d ∷ []

abbrev pub ipv4_header_size : ℕ
ipv4_header_size = 20

abbrev pub udp_header_size : ℕ
udp_header_size = 8

abbrev pub ipv4_version_and_ihl : ℕ
ipv4_version_and_ihl = 0x45

abbrev pub ipv4_protocol_udp : ℕ
ipv4_protocol_udp = 17

abbrev pub ipv4_dont_fragment : ℕ
ipv4_dont_fragment = 0x4000

abbrev pub be16 : ℕ → ℕ → ℕ
be16 high low = u16 (u16 (high * 2 ^ 8) + low)

pub read_be16 : Bytes → ℕ
read_be16 input = be16 (get_or input 0 0) (get_or input 1 0)

-- `memcpy(buffer, bytes, …)`; what would fall behind the end of the buffer is dropped.
pub overlay : Bytes → Bytes → Bytes
overlay [] buffer = buffer
overlay (x ∷ xs) [] = []
overlay (x ∷ xs) (b ∷ buffer) = x ∷ overlay xs buffer

-- `memcpy(buffer + offset, bytes, …)`
pub write_at : ℕ → Bytes → Bytes → Bytes
unfolding overlay
write_at zero bytes buffer = overlay bytes buffer
write_at (suc offset) bytes [] = []
write_at (suc offset) bytes (b ∷ buffer) = b ∷ write_at offset bytes buffer

pub write_be16 : ℕ → ℕ → Bytes → Bytes
unfolding write_at
write_be16 offset value buffer = write_at offset (u8 (value / 2 ^ 8) ∷ u8 value ∷ []) buffer

-- The third argument of the source, the size, is the length of the list.
pub checksum_add : ℕ → Bytes → ℕ
checksum_add sum [] = sum
checksum_add sum (x ∷ []) = u32 (sum + u16 (x * 2 ^ 8))
checksum_add sum (x ∷ y ∷ rest) = checksum_add (u32 (sum + be16 x y)) rest

-- The `while` of `checksum_finish`, on fuel.
pub fold_carry : ℕ → ℕ → ℕ
fold_carry zero sum = sum
fold_carry (suc fuel) sum =
    let rest = fold_carry fuel (u32 (sum % 2 ^ 16 + sum / 2 ^ 16)) in
    if sum / 2 ^ 16 == 0 then sum else rest

-- Two rounds are enough for 32 bits, and the third test ends the loop. `(uint16_t)~sum` is
-- 0xFFFF - sum.
pub checksum_finish : ℕ → ℕ
unfolding fold_carry
checksum_finish sum = 0xffff - u16 (fold_carry 3 sum)

unfoldable pub ipv4_checksum : Bytes → ℕ
unfolding checksum_add checksum_finish
ipv4_checksum header = checksum_finish (checksum_add 0 (take ipv4_header_size header))

pub udp_checksum : Bytes → Bytes → Bytes → ℕ → ℕ
unfolding checksum_add checksum_finish
udp_checksum source_ip destination_ip udp udp_size =
    let sum = checksum_add (checksum_add 0 (take 4 source_ip)) (take 4 destination_ip) in
    let sum' = u32 (u32 (sum + ipv4_protocol_udp) + u16 udp_size) in
    checksum_finish (checksum_add sum' (take udp_size udp))

-- The arguments of `tsvita_build_ipv4_udp_packet` behind the buffer and its capacity.
pub record Datagram : Type 0 where
  pub source_ip : Ipv4
  pub destination_ip : Ipv4
  pub source_port : ℕ
  pub destination_port : ℕ
  pub identification : ℕ
  pub payload : Bytes

abbrev pub udp_size_of : Datagram → ℕ
udp_size_of g = udp_header_size + length g.payload

abbrev pub packet_size_of : Datagram → ℕ
packet_size_of g = ipv4_header_size + udp_size_of g

-- The writes of the IPv4 header, the checksum last.
pub write_ipv4_header : Datagram → Bytes → Bytes
unfolding write_at write_be16 ipv4_checksum
write_ipv4_header g output =
    let o1 = write_at 0 (ipv4_version_and_ihl ∷ 0 ∷ []) output in
    let o2 = write_be16 2 (u16 (packet_size_of g)) o1 in
    let o3 = write_be16 4 g.identification o2 in
    let o4 = write_be16 6 ipv4_dont_fragment o3 in
    let o5 = write_at 8 (64 ∷ ipv4_protocol_udp ∷ []) o4 in
    let o6 = write_at 12 (octets g.source_ip) o5 in
    let o7 = write_at 16 (octets g.destination_ip) o6 in write_be16 10 (ipv4_checksum o7) o7

-- The writes of the UDP header and the payload, the checksum last.
pub write_udp : Datagram → Bytes → Bytes
unfolding write_at write_be16 udp_checksum
write_udp g output =
    let o1 = write_be16 20 g.source_port output in
    let o2 = write_be16 22 g.destination_port o1 in
    let o3 = write_be16 24 (u16 (udp_size_of g)) o2 in
    let o4 = write_at 28 g.payload o3 in
    let checksum =
      udp_checksum (octets g.source_ip) (octets g.destination_ip) (drop 20 o4) (udp_size_of g) in
    write_be16 26 (if checksum == 0 then 0xffff else checksum) o4

-- Behind the tests for NULL.
pub fill_packet : Datagram → ℕ → Bytes → ℕ × Bytes
fill_packet g output_capacity output =
    if ltb 65507 (length g.payload)
    then (0, output)
    else if ltb 65535 (packet_size_of g) || ltb output_capacity (packet_size_of g)
    then (0, output)
    else (
      packet_size_of g,
      write_udp g (write_ipv4_header g (write_at 0 (replicate (packet_size_of g) 0) output)),
    )

-- The call on a buffer that is there.
pub fill_buffer : Datagram → ℕ → Bytes → ℕ × Option Bytes
unfolding fill_packet
fill_buffer g capacity output =
    let (size, output') = fill_packet g capacity output in (size, some output')

-- `tsvita_build_ipv4_udp_packet`: the size returned, and the buffer afterwards. The payload pointer
-- leads to `payload_size` bytes, as the caller promises.
unfoldable pub build_ipv4_udp_packet :
    Option Bytes → ℕ → Option Ipv4 → Option Ipv4 → ℕ → ℕ → ℕ → Option Bytes → ℕ → ℕ × Option Bytes
unfolding fill_buffer
build_ipv4_udp_packet none capacity src dst sport dport ident payload payload_size = (0, none)
build_ipv4_udp_packet (some output) capacity none dst sport dport ident payload payload_size =
    (0, some output)
build_ipv4_udp_packet (some output) capacity (some src) none sport dport ident payload
      payload_size =
    (0, some output)
build_ipv4_udp_packet (some output) capacity (some src) (some dst) sport dport ident none
      payload_size =
    if payload_size == 0
    then fill_buffer
        (record {
          source_ip = src;
          destination_ip = dst;
          source_port = sport;
          destination_port = dport;
          identification = ident;
          payload = [];
        })
        capacity output
    else (0, some output)
build_ipv4_udp_packet (some output) capacity (some src) (some dst) sport dport ident (some payload)
      payload_size =
    fill_buffer
      (record {
        source_ip = src;
        destination_ip = dst;
        source_port = sport;
        destination_port = dport;
        identification = ident;
        payload = take payload_size payload;
      })
      capacity output

-- What the caller of the check expects.
pub record Expected : Type 0 where
  pub source_ip : Ipv4
  pub destination_ip : Ipv4
  pub source_port : ℕ
  pub destination_port : ℕ
  pub payload : Bytes

-- The tests in front of the first `return false`, behind those for NULL.
pub has_ipv4_header : Bytes → ℕ → Bool
has_ipv4_header packet packet_size =
    not (ltb packet_size (ipv4_header_size + udp_header_size))
    && get_or packet 0 0 == ipv4_version_and_ihl
    && get_or packet 9 0 == ipv4_protocol_udp

-- The tests on the IPv4 header; `fragment & 0x3FFF` are its low 14 bits.
pub checks_ipv4 : Expected → Bytes → ℕ → Bool
checks_ipv4 e packet packet_size =
    let total_size = read_be16 (drop 2 packet) in
    let fragment = read_be16 (drop 6 packet) in
    not (ltb total_size (ipv4_header_size + udp_header_size))
    && not (ltb packet_size total_size)
    && fragment % 2 ^ 14 == 0
    && ipv4_checksum packet == 0
    && same (take 4 (drop 12 packet)) (octets e.source_ip)
    && same (take 4 (drop 16 packet)) (octets e.destination_ip)

-- The tests on the UDP header. The total size is at least 28 here, so its difference is exact.
pub checks_udp : Expected → Bytes → Bool
checks_udp e packet =
    let udp = drop ipv4_header_size packet in
    let udp_size = read_be16 (drop 4 udp) in
    read_be16 udp == e.source_port
    && read_be16 (drop 2 udp) == e.destination_port
    && udp_size == read_be16 (drop 2 packet) - ipv4_header_size
    && udp_size == udp_header_size + length e.payload

-- The test on the UDP checksum, which is left out if the sender sent none.
pub checks_udp_sum : Bytes → Bool
checks_udp_sum packet =
    let udp = drop ipv4_header_size packet in
    read_be16 (drop 6 udp) == 0
    || udp_checksum (drop 12 packet) (drop 16 packet) udp (read_be16 (drop 4 udp)) == 0

-- Behind the tests for NULL.
pub accepts : Expected → Bytes → ℕ → Bool
accepts e packet packet_size =
    has_ipv4_header packet packet_size
    && checks_ipv4 e packet packet_size
    && checks_udp e packet
    && checks_udp_sum packet
    && same (take (length e.payload) (drop (ipv4_header_size + udp_header_size) packet)) e.payload

-- `tsvita_validate_ipv4_udp_packet`; the expected payload pointer leads to that many bytes.
unfoldable pub validate_ipv4_udp_packet :
    Option Bytes → ℕ → Option Ipv4 → Option Ipv4 → ℕ → ℕ → Option Bytes → ℕ → Bool
unfolding accepts
validate_ipv4_udp_packet none packet_size src dst sport dport payload payload_size = false
validate_ipv4_udp_packet (some packet) packet_size none dst sport dport payload payload_size = false
validate_ipv4_udp_packet (some packet) packet_size (some src) none sport dport payload
      payload_size =
    false
validate_ipv4_udp_packet (some packet) packet_size (some src) (some dst) sport dport none
      payload_size =
    payload_size == 0
    && accepts
        (record {
          source_ip = src;
          destination_ip = dst;
          source_port = sport;
          destination_port = dport;
          payload = [];
        })
        packet packet_size
validate_ipv4_udp_packet (some packet) packet_size (some src) (some dst) sport dport (some payload)
      payload_size =
    accepts
      (record {
        source_ip = src;
        destination_ip = dst;
        source_port = sport;
        destination_port = dport;
        payload = take payload_size payload;
      })
      packet packet_size
