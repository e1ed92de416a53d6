-- ===== src/Flow.antt =====
-- src/wg_handshake_probe.c, the flow probe: it keeps an identity in a file, makes a handshake with the
-- peer of its configuration, and has lwIP send an echo over UDP and over TCP through the tunnel.
pub mod Keys
pub mod Config
pub mod Context
pub mod Echo
pub mod Session
pub mod Run
