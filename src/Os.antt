-- ===== src/Os.antt =====
-- What the programs ask of the operating system. A run is the list of the calls that a program makes,
-- each with the answer that it got, up to its exit; what a call answers is an argument of the model.
mod Defs
pub mod Sockets
pub use Defs.*
