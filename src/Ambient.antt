-- ===== src/Ambient.antt =====
-- c/ambient/main.c: raises capabilities in the ambient set, then runs another program.
-- The capabilities' numbers, libcap-ng, `prctl`, `execv` and `atoi` are parameters.
pub mod Caplist
pub mod Program
mod Tests
