-- ===== src/Header.antt =====
-- c/common/header.h: the packed packet headers and the Internet checksums over them.
pub mod Memory
pub mod Block
pub mod Layout
pub mod Sum
pub mod Checksums
