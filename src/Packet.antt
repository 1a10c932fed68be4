-- ===== src/Packet.antt =====
-- internal/zerotier/packet: the framing of packets and of their fragments.
pub mod Header
pub mod Fragment
pub mod Compression
mod Examples
