-- ===== src/Chat.antt =====
-- The chat logger, bundled-addons/defaults/chatlogger.py.

pub mod Patterns
pub mod Entry
pub mod Recorded
pub mod Writer
pub mod Daily
pub mod Cleanup
pub mod Loop
pub mod Keep
