-- ===== src/Guard.antt =====
-- The RCON live guard, bundled-addons/examples/deprecated/50-rcon-live-guard.py: kicks players that
-- try to access the server's RCON.

pub mod Address
pub mod Config
pub mod Runtime
pub mod Status
pub mod Detect
pub mod Enforce
pub mod Loop
pub mod Permitted
pub mod Spaced
pub mod Endures
pub mod Valid
