-- ===== src/Daemon.antt =====
-- The retired chat logger, bundled-addons/examples/deprecated/40-chatlogger.py: a detached worker
-- that follows the server's output itself.

pub mod Lines
pub mod Source
pub mod Retention
pub mod Kept
pub mod Pid
pub mod Signals
pub mod Worker
pub mod Counters
pub mod Loop
pub mod Backoff
pub mod Runs
pub mod Spoken
