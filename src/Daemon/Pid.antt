-- ===== src/Daemon/Pid.antt =====
-- The PID file of bundled-addons/examples/deprecated/40-chatlogger.py, and the commands that stop and
-- start the worker.
use jedi_academy_pterodactyl.Prelude.{
  ltb, if◌then◌else◌, ℤ, pos, negsuc, ℕ, Bool, false, not, ◌&&◌, Option, none, some, List, [], ◌∷◌,
  is_empty, true, ◌||◌,
}
use jedi_academy_pterodactyl.Text.{Text, codes, strip, contains}
use jedi_academy_pterodactyl.Config.{Environment}
use jedi_academy_pterodactyl.Outcome.{returns, os_error, ◌>>=◌, Outcome, raises}
use jedi_academy_pterodactyl.Python.Json.{Json, int, dict, Python}
use jedi_academy_pterodactyl.Python.Convert.{int_of}
use jedi_academy_pterodactyl.Python.Dict.{field_of}
use jedi_academy_pterodactyl.Python.Number.{int_of_text}
use jedi_academy_pterodactyl.Daemon.Source.{daemon_tail_source, active_server_log_path}

-- A call that the addon makes on a process or on the PID file.
pub data Act : Type 0 where
  unlink_pid start_worker : Act
  terminate kill_process : ℤ → Act

-- What the operating system tells of numbers in its range. At the first look: whether `kill(pid, 0)`
-- finds a process, and the command line in /proc. Then whether SIGTERM can be sent. Later: whether
-- `kill(pid, 0)` finds a process under the number, the same one or another, at the looks before the
-- deadline (`polls`) and at the one behind it (`outlives`).
pub record Processes : Type 0 where
  pub exists : ℤ → Bool
  pub proc_cmdline : ℤ → Text
  pub can_signal : ℤ → Bool
  pub polls : List Bool
  pub outlives : Bool

abbrev is_positive : ℤ → Bool
is_positive (pos n) = ltb 0 n
is_positive (negsuc n) = false

unfoldable pub process_is_running : Processes → ℤ → Bool
process_is_running os pid = is_positive pid && os.exists pid

abbrev pub worker_marker : Text
worker_marker = codes "40-chatlogger.py"

abbrev pub worker_flag : Text
worker_flag = codes "--worker"

-- Without a command line the look at the process is trusted.
unfoldable pub process_is_our_worker : Processes → ℤ → Bool
unfolding process_is_running contains
process_is_our_worker os pid =
    process_is_running os pid
    && (is_empty (os.proc_cmdline pid)
        || (contains (os.proc_cmdline pid) worker_marker
            && contains (os.proc_cmdline pid) worker_flag))

-- A process is found under the number at the last look.
abbrev pub survives : List Bool → Bool → Bool
survives [] outlives = outlives
survives (true ∷ polls) outlives = survives polls outlives
survives (false ∷ polls) outlives = outlives

module _ ⦃py : Python⦄ where
  -- A bare integer is the format of old PID files.
  bare_pid : Option ℤ → Option Json
  bare_pid none = none
  bare_pid (some pid) = some (int pid)

  -- The value at `pid`, of the object that the file holds.
  pid_in : Option Json → Option Json
  unfolding field_of
  pid_in (some (dict record')) = field_of record' (codes "pid")
  pid_in v = none

  pid_of_text : Text → Option Json
  unfolding pid_in bare_pid int_of_text
  pid_of_text raw =
      if is_empty raw
      then none
      else elim (pid_in (py.json_loads raw)) [ some v ↦ some v | none ↦ bare_pid (int_of_text raw) ]

  abbrev daemon_pid_path : Text
  daemon_pid_path = codes "/home/container/logs/chatlogger.pid"

  pid_of_read : Outcome Text → Outcome (Option Json)
  unfolding pid_of_text
  pid_of_read (raises os_error) = returns none
  pid_of_read (raises e) = raises e
  pid_of_read (returns content) = returns (pid_of_text (strip content))

  -- The value at `pid` of the record.
  unfoldable pub read_pid_record : Environment → Outcome (Option Json)
  unfolding pid_of_read
  read_pid_record env =
      if env.is_file daemon_pid_path
      then pid_of_read (env.read_text daemon_pid_path)
      else returns none

  -- SIGTERM, and SIGKILL where a process is found under the number behind the deadline; its command
  -- line is not read again.
  unfoldable pub signal_acts : Processes → ℤ → List Act
  signal_acts os pid =
      if not (os.can_signal pid)
      then []
      else if survives os.polls os.outlives
      then terminate pid ∷ kill_process pid ∷ unlink_pid ∷ []
      else terminate pid ∷ unlink_pid ∷ []

  -- The calls of `stop_worker` on a PID.
  unfoldable pub stop_pid : Processes → ℤ → List Act
  unfolding process_is_running process_is_our_worker signal_acts
  stop_pid os pid =
      if not (process_is_running os pid)
      then unlink_pid ∷ []
      else if not (process_is_our_worker os pid)
      then unlink_pid ∷ []
      else signal_acts os pid

  unfoldable pub stop_record : Processes → Option Json → Outcome (List Act)
  unfolding stop_pid int_of
  stop_record os none = returns []
  stop_record os (some v) = int_of v >>= λ pid. returns (stop_pid os pid)

  unfoldable pub stop_worker : Environment → Processes → Outcome (List Act)
  unfolding read_pid_record stop_record
  stop_worker env os = read_pid_record env >>= stop_record os

  unfoldable pub ensure_pid : Processes → ℤ → List Act
  unfolding process_is_our_worker
  ensure_pid os pid = if process_is_our_worker os pid then [] else unlink_pid ∷ start_worker ∷ []

  ensure_record : Processes → Option Json → Outcome (List Act)
  unfolding ensure_pid int_of
  ensure_record os none = returns (start_worker ∷ [])
  ensure_record os (some v) = int_of v >>= λ pid. returns (ensure_pid os pid)

  unfoldable pub ensure_worker_running : Environment → Processes → Outcome (List Act)
  unfolding read_pid_record ensure_record
  ensure_worker_running env os = read_pid_record env >>= ensure_record os

  -- The exit code of `show_status`.
  status_of : Processes → Option Json → Outcome ℕ
  unfolding process_is_our_worker int_of
  status_of os none = returns 0
  status_of os (some v) =
      int_of v >>= λ pid. returns (if process_is_our_worker os pid then 0 else 1)

  unfoldable pub show_status : Environment → Processes → Outcome ℕ
  unfolding read_pid_record status_of daemon_tail_source active_server_log_path
  show_status env os = read_pid_record env >>= λ recorded. daemon_tail_source env >>= λ tail_source.
      active_server_log_path env >>= λ path. status_of os recorded
