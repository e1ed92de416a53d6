-- ===== src/Tests/Packets.antt =====
-- src/ip_udp_packet.c and src/ipv4_literal.c at concrete inputs.
use moonlight_tailscale_vita.Common.{
  ◌≡◌, ◌↔◌, refl, true, false, some, [], ◌∷◌, ◌++◌, Bytes, drop, replicate, arith,
}
use moonlight_tailscale_vita.Ipv4Literal.{parse_ipv4_literal}
use moonlight_tailscale_vita.Ipv4Literal.Spec.{
  IsDotted, parse_ipv4_literal_iff, parse_ipv4_literal_unchanged,
}
use moonlight_tailscale_vita.Packet.{
  Ipv4, Datagram, Expected, fill_packet, build_ipv4_udp_packet, validate_ipv4_udp_packet,
  ipv4_checksum,
}
use moonlight_tailscale_vita.Packet.Layout.{packet_of, fill_packet_lem}
use moonlight_tailscale_vita.Packet.RoundTrip.{IsDatagram, validate-build}
use moonlight_tailscale_vita.Packet.Sound.{Carries, validate_iff, ipv4_checksum_detects}

abbrev vita : Ipv4
vita = record { a = 10; b = 77; c = 0; d = 2 }

abbrev peer : Ipv4
peer = record { a = 10; b = 77; c = 0; d = 1 }

abbrev hello : Datagram
hello = record {
  source_ip = vita;
  destination_ip = peer;
  source_port = 47998;
  destination_port = 47999;
  identification = 7;
  payload = 104 ∷ 105 ∷ 33 ∷ [];
}

abbrev room : Bytes
room = replicate 40 0xaa

hello-IsDatagram : IsDatagram hello
hello-IsDatagram = ground arith

validate-build_example :
    (written : Bytes) × (build_ipv4_udp_packet
        (some room)
        40
        (some vita)
        (some peer)
        47998
        47999
        7
        (some (104 ∷ 105 ∷ 33 ∷ []))
        3
      ≡ (31, some written))
    × (drop 31 written ≡ drop 31 room)
    × (validate_ipv4_udp_packet
          (some written)
          31
          (some vita)
          (some peer)
          47998
          47999
          (some (104 ∷ 105 ∷ 33 ∷ []))
          3
        ≡ true)
validate-build_example = validate-build hello room 40 hello-IsDatagram (ground arith) (ground arith)

abbrev expected : Expected
expected = record {
  source_ip = vita;
  destination_ip = peer;
  source_port = 47998;
  destination_port = 47999;
  payload = [];
}

validate_iff_example :
    (validate_ipv4_udp_packet (some room) 40 (some vita) (some peer) 47998 47999 (some []) 0 ≡ true)
    ↔ Carries expected room 40
validate_iff_example = validate_iff expected room 40

fill_packet_example : fill_packet hello 40 room ≡ (31, packet_of hello ++ drop 31 room)
fill_packet_example = fill_packet_lem hello 40 room (ground arith) (ground arith) (ground arith)

-- A header of 20 bytes with a checksum that holds, in front of its word at 18 and behind it.
abbrev header : Bytes
header = 69 ∷ 0 ∷ 0 ∷ 28 ∷ 0 ∷ 0 ∷ 64 ∷ 0 ∷ 64 ∷ 17 ∷ 38 ∷ 53 ∷ 10 ∷ 77 ∷ 0 ∷ 2 ∷ 10 ∷ 77 ∷ []

abbrev from_peer : Expected
from_peer = record {
  source_ip = peer;
  destination_ip = vita;
  source_port = 0;
  destination_port = 0;
  payload = [];
}

ipv4_checksum_detects_example :
    validate_ipv4_udp_packet
      (some ((header ++ 0 ∷ 9 ∷ []) ++ replicate 8 0))
      28
      (some peer)
      (some vita)
      0
      0
      (some [])
      0
    ≡ false
unfolding ipv4_checksum
ipv4_checksum_detects_example =
    ipv4_checksum_detects header [] (replicate 8 0) 9 0 1 0 9 from_peer 28 refl refl (ground arith)
      (ground arith) (ground arith) (ground arith) refl

-- "10.77.0.2"
abbrev address : Bytes
address = 49 ∷ 48 ∷ 46 ∷ 55 ∷ 55 ∷ 46 ∷ 48 ∷ 46 ∷ 50 ∷ []

abbrev zeros : Bytes
zeros = 0 ∷ 0 ∷ 0 ∷ 0 ∷ []

parse_ipv4_literal_iff_example :
    (parse_ipv4_literal (some address) (some zeros) ≡ (true, some (10 ∷ 77 ∷ 0 ∷ 2 ∷ [])))
    ↔ IsDotted 3 address (10 ∷ 77 ∷ 0 ∷ 2 ∷ [])
parse_ipv4_literal_iff_example = parse_ipv4_literal_iff address zeros (10 ∷ 77 ∷ 0 ∷ 2 ∷ [])

parse_ipv4_literal_unchanged_example :
    (parse_ipv4_literal (some (49 ∷ 48 ∷ [])) (some zeros)).1 ≡ some zeros
unfolding parse_ipv4_literal
parse_ipv4_literal_unchanged_example =
    parse_ipv4_literal_unchanged (some (49 ∷ 48 ∷ [])) (some zeros) refl
