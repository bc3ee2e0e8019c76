-- ===== src/Lib.antt =====
-- Verification of the Python addons of a game server container: bundled-addons/defaults/ of the
-- repository, and the retired ones under bundled-addons/examples/deprecated/. The supervisor
-- starts each addon, gives it a section of the file jka-addons.json, and publishes the parsed
-- output of the dedicated server as one JSON event per line on its standard input; the addons
-- answer with chat commands over RCON, or with files.
--
-- The parts, and the files that model them:
--
-- Match: bundled-addons/defaults/match-announcer.py, which announces the start and the end of a
-- TFFA match. Match/Machine is the class MatchAnnouncer: its fields are the fields of a record,
-- each method is a function of the same name from the state, and a call that may raise returns an
-- Outcome. What _send is given goes to the field outbox, the last one first. Match/Patterns has
-- the regular expressions, Match/Render the templates, Match/Config load_config, Match/Loop the
-- loop of main, Match/Sender _make_rcon_sender. The loop takes what _send does with a line as a
-- parameter: an exception of it leaves main. Match/Invariant, Bound, Delivered, Runs, Plain,
-- Lines, Fit, Ending and Commands are the proofs.
--
-- Announcer: bundled-addons/defaults/announcer.py, which sends messages at intervals or at times
-- of the day. Announcer/Clock, Schedule, Config and Rotation are its readers and its rotation,
-- Dispatch is dispatch_announcement, Loops is run_scheduled_loop round by round, Interval is
-- run_simple_interval_loop, Worker is run_worker and launch_background_worker, Switch is how the
-- two loops call one another, and Lock is a step relation on the lock, the PID file and the
-- processes. Deadlines, Paid, Often, Daily, Periodic, Due and Schedule/Floor are proofs only.
--
-- Live: bundled-addons/defaults/live-team-announcer.py, which announces who joins a team.
-- Live/Config is load_config, Live/Announce the loop of main, Live/Cooldown the proofs.
--
-- Chat: bundled-addons/defaults/chatlogger.py, which writes the chat to daily files. Chat/Patterns
-- and Chat/Entry are the classifiers, Chat/Writer is ChatWriter and the cleanup, Chat/Loop the
-- loop of main, Chat/Keep the number of days; Recorded, Daily and Cleanup are the proofs.
--
-- The retired addons, which follow the server's output themselves with tail. Guard:
-- 50-rcon-live-guard.py, which kicks players that try to use RCON. Guard/Address is bare_ip,
-- Guard/Config load_config, Guard/Runtime the runtime state, Guard/Status the reading of a status
-- reply, Guard/Detect and Guard/Enforce the detection and the enforcement with the commands that
-- it sends (Traced), Guard/Loop the loop over the lines; Permitted, Spaced, Endures and Valid are
-- the proofs. Daemon: 40-chatlogger.py, a detached worker that writes the chat. Daemon/Source and
-- Lines are the file that it follows and parse_chat_line, Retention is cleanup_old_logs on the
-- files of each stamp, Pid the PID file with stop_worker and ensure_worker_running, Worker is
-- WorkerRuntime, Loop is worker_loop; Kept, Signals, Counters, Runs, Backoff and Spoken are the
-- proofs. Team: 20-live-team-announcer.py. Team/Config, Message and Loop are its configuration,
-- its pattern and messages, and its loop; Team/Cooled is the proof. Follow is the loop over the
-- tails that the guard and the team announcer share, with Follow/Paced for its pauses, and
-- Cooldown the dict of times that both keep.
--
-- Shared by the addons, which declare these functions alike: Config (the section of an addon),
-- Scalars (safe_int, safe_bool), Runtime (the state that the supervisor leaves: variables, env
-- file, server configuration), Rcon (quoting and packets).
--
-- Python, Text, Regex, Format and Outcome are what the source uses of Python: JSON values, dicts,
-- texts as lists of code points, a backtracking matcher for the constructs that the patterns use,
-- str.format, and exceptions as values. What depends on the Unicode database or on a library
-- parser (json.loads, shlex.split, the case mappings, the printing of containers) is a field of
-- the record Python, with the documented behaviour on ASCII as its laws; Tests/Ascii fills it.
--
-- Bounds and fuel: the matcher bounds the rounds of a repetition by the length of the rest of the
-- text, and each round takes a character; sub_re bounds its rounds by the length of the text, and
-- no pattern that it is given matches the empty text. Loops run over the list of what they read.
-- Times are natural numbers, microseconds, and milliseconds in Match. Python integers are
-- unbounded and so is the type here.
--
-- Not modelled: signals beyond the flag that they set, log output, sockets beyond their result,
-- the symbolic link of the chat loggers, and the state file of the retired one. Other exceptions
-- of json.loads than JSONDecodeError are modelled in the loop of the match announcer alone. The
-- supervisor (Go), the start scripts, the container image and the test suites are outside this
-- library: they are written in other languages, or run the addons.

pub mod Prelude
pub mod Text
pub mod Outcome
pub mod Python
pub mod Regex
pub mod Format
pub mod Scalars
pub mod Rcon
pub mod Config
pub mod Match
pub mod Tests
pub mod Announcer
pub mod Cooldown
pub mod Traced
pub mod Guard
pub mod Daemon
pub mod Team
pub mod Follow
pub mod Live
pub mod Chat
pub mod Runtime
