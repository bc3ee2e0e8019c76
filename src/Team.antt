-- ===== src/Team.antt =====
-- The retired live team announcer,
-- bundled-addons/examples/deprecated/20-live-team-announcer.py: it reads the team changes from the
-- server's output itself.

pub mod Config
pub mod Message
pub mod Loop
pub mod Cooled
