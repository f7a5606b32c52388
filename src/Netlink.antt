-- ===== src/Netlink.antt =====
-- c/netlink/getroute.c: asks the kernel for the route to an address, and walks through the messages
-- and the attributes of the reply. Messages on the terminal are left out, but for which attributes
-- are shown.
pub mod Macros
pub mod Attributes
pub mod Messages
pub mod Program
mod Tests
