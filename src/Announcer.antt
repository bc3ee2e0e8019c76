-- ===== src/Announcer.antt =====
-- bundled-addons/defaults/announcer.py: announcements at intervals or at times of the day.

pub mod Clock
pub mod Schedule
pub mod Config
pub mod Rotation
pub mod Interval
pub mod Deadlines
pub mod Paid
pub mod Often
pub mod Worker
pub mod Lock
pub mod Switch
pub mod Dispatch
pub mod Loops
pub mod Daily
pub mod Periodic
pub mod Due
