-- ===== src/Signal.antt =====
-- c/signal/main.c: a handler that restores the default handling of its signal and may send the signal
-- again, to the process or to its second thread. What is printed is left out.
pub mod Defs
pub mod Process
pub mod Laws
pub mod Outline
mod Tests
