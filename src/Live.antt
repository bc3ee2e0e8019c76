-- ===== src/Live.antt =====
-- The live team announcer, bundled-addons/defaults/live-team-announcer.py.

pub mod Config
pub mod Announce
pub mod Cooldown
