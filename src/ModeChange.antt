-- ===== src/ModeChange.antt =====
-- utils/modechange.c (under src/): `chmod` modes, compiled and applied.
pub mod Mode
pub mod Parse
pub mod Compile
pub mod Adjust
