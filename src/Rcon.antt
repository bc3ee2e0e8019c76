-- ===== src/Rcon.antt =====
-- What the addons send to the game server over RCON.

pub mod Quote
pub mod Reader
pub mod Packet
