-- ===== src/Header/Layout.antt =====
-- The offsets of the fields in the packed structs of c/common/header.h, and the structs' sizes.
pub mod Ipv4
pub mod Ipv6
pub mod Udp
