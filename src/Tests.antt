-- ===== src/Tests.antt =====
-- The theorems at concrete inputs.
pub mod Packets
pub mod Sockets
pub mod Tunnels
pub mod Configs
pub mod Probes
pub mod Disks
pub mod Flows
