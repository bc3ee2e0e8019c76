-- ===== src/Match.antt =====
-- bundled-addons/defaults/match-announcer.py: announces the start and the end of TFFA matches.

pub mod Patterns
pub mod Config
pub mod Render
pub mod Machine
pub mod Loop
pub mod Sender
pub mod Invariant
pub mod Bound
pub mod Delivered
pub mod Runs
pub mod Plain
pub mod Lines
pub mod Ending
pub mod Fit
pub mod Commands
