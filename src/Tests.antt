-- ===== src/Tests.antt =====
-- Runs of the model on concrete inputs, and the theorems at concrete inputs.

mod Ascii
mod MatchRuns
mod MatchTheorems
mod RconTheorems
mod AnnouncerTheorems
mod LiveTheorems
mod ChatTheorems
mod GuardTheorems
mod DaemonTheorems
mod TeamTheorems
mod LockTheorems
mod SwitchTheorems
