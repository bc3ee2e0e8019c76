-- ===== src/Tests/DaemonTheorems.antt =====
-- The theorems on the retired chat logger at concrete inputs.
use jedi_academy_pterodactyl.Tests.Ascii.{ascii}
use jedi_academy_pterodactyl.Prelude.{
  if◌then◌else◌, is_empty, All, pos, ℕ, ◌+◌, ◌-◌, ◌*◌, String, ◌≡◌, refl, Bool, true, false, not,
  ◌&&◌, Option, none, some, List, [], ◌∷◌, ◌++◌, arith,
}
use jedi_academy_pterodactyl.Text.{Text, codes, between, strip}
use jedi_academy_pterodactyl.Config.{Environment}
use jedi_academy_pterodactyl.Outcome.{raises, os_error, returns}
use jedi_academy_pterodactyl.Chat.Patterns.{whisper_channel}
use jedi_academy_pterodactyl.Daemon.Counters.{IsSound}
use jedi_academy_pterodactyl.Daemon.Runs.{turns-IsSound}
use jedi_academy_pterodactyl.Daemon.Loop.{turns, begin, Turn, refused_start, Worker, tailed}
use jedi_academy_pterodactyl.Daemon.Kept.{
  clean_files-old, is_sound, is_readable, cleanup_log_files-is_readable,
}
use jedi_academy_pterodactyl.Daemon.Retention.{
  is_before, broken_off, Disk, Limits, clean_files, LogFiles, finished, cleanup_log_files,
}
use jedi_academy_pterodactyl.Daemon.Backoff.{IsBounded, turns-bounds}
use jedi_academy_pterodactyl.Daemon.Signals.{stop_worker-IsSafe, IsSafe}
use jedi_academy_pterodactyl.Daemon.Spoken.{is_spoken, parse_chat_line-is_spoken}
use jedi_academy_pterodactyl.Daemon.Lines.{
  format_chat_entry, DaemonEntry, parse_chat_line, LocalTime,
}
use jedi_academy_pterodactyl.Daemon.Pid.{
  terminate, stop_worker, unlink_pid, Processes, ensure_worker_running, kill_process,
}
use jedi_academy_pterodactyl.Daemon.Worker.{Tick, ◌and_then◌}

abbrev noon : LocalTime
noon = record { stamp = codes "2026-04-18 12:00:00"; zone = some (codes "UTC") }

-- What the addon's own self-test expects of a line.
is_chat : String → Bool
unfolding parse_chat_line
is_chat raw = elim (parse_chat_line noon (codes raw)) [ none ↦ false | some e ↦ true ]

all_chat : List String → Bool
unfolding is_chat
all_chat [] = true
all_chat (raw ∷ raws) = is_chat raw && all_chat raws

no_chat : List String → Bool
unfolding is_chat
no_chat [] = true
no_chat (raw ∷ raws) = not (is_chat raw) && no_chat raws

abbrev must_match : List String
must_match =
    "0:19 say: js hart: works like a charm now" ∷ "1:28 say: js hart^7: where u can see if fps"
    ∷ "2:00 sayteam: Akion: rally at duel room" ∷ "2:30 tell: Akion -> Robin: meet me"
    ∷ "3:00 amsay: Admin: server restart in 5" ∷ "2026-04-18 19:32:39 say: js hart: hello"
    ∷ "5:00 modsay: Akion: future mod chat verb" ∷ "0:01 say: 1337h4x0r: hello" ∷ []

abbrev must_not_match : List String
must_not_match =
    "0:00 InitGame: \\version\\TaystJK" ∷ "0:00 @@@VOTEPASSED (g_gametype 6)"
    ∷ "0:00 say: : empty sender" ∷ "0:00 rcon: admin: status" ∷ "0:00 status: server: up" ∷ ""
    ∷ "0:00 say: server: [Anti-VPN] VPN PASS" ∷ "0:00 say: TaystJK: latest-86f04849f"
    ∷ "0:00 say: 0  blue: 0" ∷ []

self_test_matches : all_chat must_match ≡ true
unfolding all_chat strip
self_test_matches = refl

self_test_rejects : no_chat must_not_match ≡ true
unfolding no_chat strip
self_test_rejects = refl

abbrev hello : DaemonEntry
hello = record {
  timestamp = codes "2026-04-18 12:00:00 UTC";
  channel = whisper_channel;
  sender = codes "Akion";
  target = some (codes "Robin");
  message = codes "meet me";
}

hello_parsed : parse_chat_line noon (codes "2:30 tell: Akion -> Robin: meet me") ≡ some hello
unfolding parse_chat_line strip
hello_parsed = refl

hello_shown :
    format_chat_entry hello ≡ codes "[2026-04-18 12:00:00 UTC] [WHISPER] Akion -> Robin: meet me"
unfolding format_chat_entry
hello_shown = refl

parse_chat_line-is_spoken_example : is_spoken hello ≡ true
parse_chat_line-is_spoken_example =
    parse_chat_line-is_spoken noon (codes "2:30 tell: Akion -> Robin: meet me") hello_parsed

-- Stamps are dates of one digit.
abbrev one_digit : Text → Option ℕ
one_digit [] = none
one_digit (c ∷ cs) = if is_empty cs && between b'0' b'9' c then some (c - b'0' + 90) else none

abbrev two_and_five : Limits
two_and_five = record { plain_days = 2; total_days = 5 }

abbrev works : Disk
works = record { unlinks = λ _. true; unlinks_gz = λ _. true; zipping = λ _. finished }

-- The archive of each log breaks off.
abbrev full_disk : Disk
full_disk = record { unlinks = λ _. true; unlinks_gz = λ _. true; zipping = λ _. broken_off }

abbrev only_plain : String → LogFiles
only_plain stamp = record { stamp = codes stamp; plain_log = true; gz = none }

abbrev only_gz : String → LogFiles
only_gz stamp = record { stamp = codes stamp; plain_log = false; gz = some true }

cleaned_up_run :
    cleanup_log_files one_digit two_and_five 99 works
      (only_plain "9" ∷ only_plain "6" ∷ only_plain "0" ∷ [])
    ≡ returns (
        only_plain "9"
        ∷ only_gz "6"
        ∷ (record { stamp = codes "0"; plain_log = false; gz = none })
        ∷ [])
unfolding cleanup_log_files
cleaned_up_run = refl

-- An archive that breaks off costs the log at the next cleanup.
log_is_lost :
    is_readable (
      clean_files one_digit two_and_five 99 full_disk
        (clean_files one_digit two_and_five 99 full_disk (only_plain "6")))
    ≡ false
unfolding is_readable clean_files
log_is_lost = refl

cleanup_log_files-is_readable_example :
    (before' : List LogFiles) × (f' : LogFiles) × (after' : List LogFiles) × (cleanup_log_files
        one_digit two_and_five 99 works
        (only_plain "6" ∷ only_plain "0" ∷ [])
      ≡ returns (before' ++ (f' ∷ after')))
    × (f'.stamp ≡ codes "6")
    × (is_readable f' ≡ true)
cleanup_log_files-is_readable_example =
    cleanup_log_files-is_readable one_digit two_and_five 99 works [] (only_plain "6")
      (only_plain "0" ∷ []) (omega arith) (omega arith)
      (λ date e. unfold is_before in ground (arith, e)) (unfold is_sound in refl)
      (unfold is_readable in refl)

clean_files-old_example :
    clean_files one_digit two_and_five 99 works (only_plain "0")
    ≡ record { stamp = codes "0"; plain_log = false; gz = none }
clean_files-old_example =
    clean_files-old one_digit two_and_five 99 works (only_plain "0") 90 refl
      (unfold is_before in refl) refl

-- The PID file holds a bare number, as old versions wrote it.
abbrev old_pid_file : Environment
old_pid_file = record {
  getenv = λ _. none;
  read_text = λ _. returns (codes "42\n");
  is_file = λ _. true;
}

abbrev stubborn_worker : Processes
stubborn_worker = record {
  exists = λ _. true;
  proc_cmdline = λ _. codes "python3 /home/container/addons/40-chatlogger.py --worker";
  can_signal = λ _. true;
  polls = true ∷ true ∷ [];
  outlives = true;
}

worker_stopped :
    stop_worker old_pid_file stubborn_worker
    ≡ returns (terminate (pos 42) ∷ kill_process (pos 42) ∷ unlink_pid ∷ [])
unfolding stop_worker
worker_stopped = refl

worker_kept : ensure_worker_running old_pid_file stubborn_worker ≡ returns []
unfolding ensure_worker_running
worker_kept = refl

stop_worker-IsSafe_example :
    All (IsSafe stubborn_worker) (terminate (pos 42) ∷ kill_process (pos 42) ∷ unlink_pid ∷ [])
stop_worker-IsSafe_example = stop_worker-IsSafe old_pid_file stubborn_worker worker_stopped

abbrev bare_env : Environment
bare_env = record { getenv = λ _. none; read_text = λ _. raises os_error; is_file = λ _. false }

abbrev tick_at : String → ℕ → Bool → Tick
tick_at raw seconds writes = record {
  raw = codes raw;
  now = noon;
  date = 100;
  date_key = codes "2026-04-18";
  chat_at = codes "2026-04-18 12:00:00 UTC";
  monotonic = seconds * 1000000;
  env = bare_env;
  opens = λ _. true;
  writes = writes;
  flushes = writes;
  shutdown = false;
}

abbrev two_turns : List Turn
two_turns =
    refused_start (tick_at "" 11 true ∷ [])
    ∷ tailed (20 * 1000000)
        (tick_at "0:19 say: Kyle: hi" 21 true
          ∷ tick_at "0:20 say: Kyle: yo" 22 false
          ∷ tick_at "Going to CS_ACTIVE" 40 true
          ∷ [])
        (tick_at "" 41 true ∷ [])
    ∷ refused_start []
    ∷ []

abbrev served_run : Worker
served_run =
    turns two_and_five 10000000 30 two_turns (begin two_and_five 10000000 30 (tick_at "" 1 true))

three_lines : served_run.runtime.lines_seen ≡ 3
unfolding turns begin ◌and_then◌ strip
three_lines = refl

one_message : served_run.runtime.chats_logged ≡ 1
unfolding turns begin ◌and_then◌ strip
one_message = refl

pauses_made : served_run.pauses ≡ 2 ∷ 1 ∷ 1 ∷ []
unfolding turns begin ◌and_then◌ strip
pauses_made = refl

turns-IsSound_example : IsSound 10000000 0 served_run.runtime
turns-IsSound_example = turns-IsSound two_and_five 10000000 30 (tick_at "" 1 true) two_turns

turns-bounds_example : IsBounded 30 served_run
turns-bounds_example =
    turns-bounds two_and_five 10000000 30 (tick_at "" 1 true) two_turns (omega arith)
