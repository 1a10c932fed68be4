-- ===== src/Transport.antt =====
-- internal/zerotier/transport: what stands between UDP and the controller.
pub mod Reassembly
mod Examples
