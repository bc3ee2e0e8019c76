-- ===== src/Announcer/Worker.antt =====
-- `run_worker` and `launch_background_worker` of bundled-addons/defaults/announcer.py: which loop
-- the worker enters, and when it is started.
use jedi_academy_pterodactyl.Prelude.{
  if◌then◌else◌, is_some, is_empty, ℤ, pos, suc, Bool, false, not, ◌&&◌, ◌||◌, List, [], ◌∷◌,
}
use jedi_academy_pterodactyl.Outcome.{Outcome, returns, ◌>>=◌}
use jedi_academy_pterodactyl.Announcer.Config.{AnnouncerConfig}
use jedi_academy_pterodactyl.Announcer.Schedule.{Entry}

-- How `run_worker` goes on.
pub data Course : Type 0 where
  exits enters_schedule enters_interval : Course

-- What the two functions meet: the worker's lock, the configuration, whether the shutdown event was
-- set in the startup delay, what the writing of the PID file and the diagnostics raise, and whether the log file and the process could be opened.
pub record Surrounding : Type 0 where
  pub lock_free : Bool
  pub config : Outcome AnnouncerConfig
  pub interrupted : Bool
  pub prepared : Outcome Bool
  pub log_opens : Bool
  pub spawns : Bool

-- `if startup_delay > 0` and an interrupted sleep
abbrev stops_early : ℤ → Bool → Bool
stops_early (pos (suc n)) interrupted = interrupted
stops_early n interrupted = false

unfoldable pub course_of : Surrounding → AnnouncerConfig → Course
course_of w config =
    if not config.enabled
    then exits
    else if stops_early config.startup_delay_seconds w.interrupted
    then exits
    else if not (is_empty config.schedule)
    then enters_schedule
    else enters_interval

unfoldable pub run_worker : Surrounding → Outcome Course
unfolding course_of
run_worker w =
    if not w.lock_free
    then returns exits
    else w.config >>= λ config. w.prepared >>= λ done. returns (course_of w config)

-- How `launch_background_worker` ends: skipped with code 0, failed with code 1, or with a process.
pub data Launch : Type 0 where
  skipped failed launched : Launch

-- `any(entry.get("message") for entry in config["schedule"])`
unfoldable pub any_literal : List Entry → Bool
any_literal [] = false
any_literal (e ∷ es) = is_some e.message || any_literal es

unfoldable pub launch_of : Surrounding → AnnouncerConfig → Launch
unfolding any_literal
launch_of w config =
    if not config.enabled
    then skipped
    else if is_empty config.messages && not (any_literal config.schedule)
    then skipped
    else if not w.lock_free
    then skipped
    else if not w.log_opens
    then failed
    else if w.spawns
    then launched
    else failed

unfoldable pub launch_background_worker : Surrounding → Outcome Launch
unfolding launch_of
launch_background_worker w = w.config >>= λ config. returns (launch_of w config)
