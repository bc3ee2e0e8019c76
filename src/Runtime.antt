-- ===== src/Runtime.antt =====
-- The runtime state that the supervisor leaves for the addons.

pub mod Password
pub mod State
pub mod Tracked
pub mod Env
