-- ===== src/Raw6.antt =====
-- c/raw6: UDP over IPv6 (and IPv4) raw sockets.
pub mod RawUdp
pub mod RawAll
pub mod Server
pub mod FlowLabel
pub mod Exchange
