-- ===== src/Sockets.antt =====
-- The programs on one or two sockets: c/raw4, c/sockbuf and c/udpSendData.
pub mod Raw4
pub mod SockBuf
pub mod UdpSendData
