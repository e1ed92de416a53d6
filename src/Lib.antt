-- ===== src/Lib.antt =====
-- Moonlight Tailscale for PS Vita: the C code that gives Moonlight sockets over a WireGuard tunnel.
--
-- The program's parts, and the file that models each:
--   * src/ipv4_literal.c, the reader of dotted IPv4 addresses: Ipv4Literal. What an address is, apart
--     from how it is read, is in Ipv4Literal/Spec.
--   * src/ip_udp_packet.c, which builds and checks IPv4/UDP packets: Packet. Packet/Checksum has the
--     sums as numbers modulo 65535, Packet/Layout the bytes of a packet that is built.
--   * moonlight/socket_shim.c, the functions that the linker puts in front of the socket calls: Shim,
--     with Shim/Calls, Shim/Connect, Shim/Poll, Shim/Select and Shim/Resolve. A `__wrap_` function
--     is `wrap_` and its name. Shim/Entries has all the calls on one
--     descriptor as one type, and Shim/Tables/Events all calls in any order.
--   * moonlight/tunnel.c, the tunnel: Tunnel (its context), Tunnel/Text and Tunnel/Config (the files),
--     Tunnel/Transport (packets), Tunnel/Receive (handshakes and the receive thread), Tunnel/Start
--     (`start_tunnel`) and Tunnel/Startup (the threads that ask for it). A function keeps its name.
--   * src/wireguard_platform_vita.c, the clock and the random numbers of WireGuard: Platform.
--   * src/main.c, the network probe: Probe (its tests of TCP, STUN and packet capture, and
--     Probe/Run, which composes them), Report (the lines on the screen and in the log), Network (start and end of SceNet) and Controls (`main`).
--   * src/wg_crypto_probe.c, the cryptography probe: CryptoProbe, with CryptoProbe/Run; `main` is
--     `main_repeating` of Controls.
--   * src/wg_handshake_probe.c, the flow probe: Flow/Keys and Flow/Config (its files), Flow/Context (the
--     functions that lwIP calls back, and packets), Flow/Echo (`send_lwip_echo`), Flow/Session (the
--     handshake) and Flow/Run. Its report and its network are those of src/main.c with other sizes:
--     Report and Network; `main` is `main_repeating` of Controls.
--   * Tests has each theorem at a concrete input, and Common what the parts share.
--
-- Moonlight calls the shim; the shim starts the tunnel on the first socket and passes the calls on
-- descriptors 128 to 191 to lwIP; lwIP sends its packets through the tunnel's interface, and the
-- receive thread hands it those of the peer. The tunnel reads its peer's address with the parser.
-- The three probes are programs of their own, which use the parser, the platform layer, WireGuard and
-- lwIP without the shim and the tunnel; the flow probe and the tunnel read the same files.
--
-- State is passed explicitly, by a state monad for each part. Everything outside the repository's C
-- code is a parameter: both socket implementations, the clock and the headers' constants are
-- `Shim.Stacks`; WireGuard, lwIP, the files and the system's calls are `Tunnel.Env`,
-- `Tunnel.Config.Files` and `Tunnel.Start.Boot`. What a theorem takes of them is a record of named
-- laws (KeepsTime, AnswersPolls, AnswersSelects, KeepsMode, HasClock, KeepsLevels,
-- KeepsHandles, KeepsFile, KeepsDisk, KeepsContext, Ticks), which Tests fills. The probes' parameters are `Probe.Net`, `Report.Device`,
-- `Network.Calls`, `Platform.Kernel`, `CryptoProbe.Device` and `CryptoProbe.Run.Crypto`,
-- `Probe.Run.Machine`, `Flow.Keys.Disk`, `Flow.Context.Lwip`, `Flow.Session.Outer` and
-- `Flow.Run.Shell`. A call of lwIP that may call the program back takes the program's whole context,
-- and KeepsContext says that it changes this only by the callbacks.
--
-- Integers are natural numbers with the wrap-around of their C types written out; an int that may be
-- negative is `ℤ`. Loops that end by the clock run on fuel: one round for each millisecond of a
-- poll's or select's timeout and one more, since each round sleeps a millisecond, and
-- 5000001 passes of the wait for a handshake or an echo, whose five seconds are that many microseconds; the carry of a checksum
-- needs three tests. The endless loop of the receive thread is a number of rounds.
--
-- Not modelled: the texts of log, trace and error messages, the wiping of keys from the stack, and
-- races between the receive thread and lwIP's threads, which the source keeps apart by a mutex; the
-- drawing of the screen beyond the rows of text.
pub mod Common
pub mod Controls
pub mod CryptoProbe
pub mod Flow
pub mod Ipv4Literal
pub mod Network
pub mod Packet
pub mod Platform
pub mod Probe
pub mod Report
pub mod Shim
pub mod Tests
pub mod Tunnel
