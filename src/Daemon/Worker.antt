-- ===== src/Daemon/Worker.antt =====
-- The worker of bundled-addons/examples/deprecated/40-chatlogger.py: `WorkerRuntime` and the loop over
-- the lines of a tail. Times are in microseconds.
use jedi_academy_pterodactyl.Prelude.{
  ltb, leb, ◌==◌, if◌then◌else◌, ℕ, ◌+◌, ◌*◌, Bool, true, false, not, ◌&&◌, ◌||◌, Option, none,
  some, List, [], ◌∷◌,
}
use jedi_academy_pterodactyl.Text.{Text, same}
use jedi_academy_pterodactyl.Config.{Environment}
use jedi_academy_pterodactyl.Outcome.{returns, raises, Outcome}
use jedi_academy_pterodactyl.Python.Json.{Python}
use jedi_academy_pterodactyl.Chat.Writer.{plain_log_name}
use jedi_academy_pterodactyl.Daemon.Retention.{Limits}
use jedi_academy_pterodactyl.Daemon.Source.{active_server_log_path, daemon_tail_source}
use jedi_academy_pterodactyl.Daemon.Lines.{
  DaemonEntry, LocalTime, format_chat_entry, parse_chat_line,
}

-- What a line meets: the clocks, the environment, the file system, and whether a shutdown was asked
-- for before it.
pub record Tick : Type 0 where
  pub raw : Text
  pub now : LocalTime
  pub date : ℕ
  pub date_key : Text
  pub chat_at : Text
  pub monotonic : ℕ
  pub env : Environment
  pub opens : Text → Bool
  pub writes : Bool
  pub flushes : Bool
  pub shutdown : Bool

-- What the worker writes: a line of a log, flushed or left in the buffer, a cleanup of a date, and a
-- sign of life with the two counters.
pub data Note : Type 0 where
  opened_log closed_log : Text → Note
  chat_line buffered_line : Text → Text → Note
  cleaned_logs : ℕ → Note
  alive : ℕ → ℕ → ℕ → Note

-- The fields of `WorkerRuntime`, where the handle is open if there is a path, and what was written,
-- the last note first.
pub record WorkerRuntime : Type 0 where
  pub lines_seen : ℕ
  pub chats_logged : ℕ
  pub last_chat_at : Option Text
  pub last_chat_summary : Option Text
  pub last_heartbeat : ℕ
  pub last_cleanup : ℕ
  pub current_date : ℕ
  pub output_path : Option Text
  pub notes : List Note

-- The state behind a call, and whether the call returned; otherwise it raised.
pub record Tried : Type 0 where
  pub state : WorkerRuntime
  pub returned : Bool

abbrev pub done : WorkerRuntime → Tried
done s = record { state = s; returned = true }

abbrev pub raised : WorkerRuntime → Tried
raised s = record { state = s; returned = false }

infixl 5 ◌and_then◌
unfoldable pub ◌and_then◌ : Tried → (WorkerRuntime → Tried) → Tried
t and_then f = if t.returned then f t.state else t

abbrev pub note : Note → WorkerRuntime → WorkerRuntime
note n s = record s { notes = n ∷ s.notes }

unfoldable pub new_runtime : ℕ → ℕ → WorkerRuntime
new_runtime monotonic date = record {
  lines_seen = 0;
  chats_logged = 0;
  last_chat_at = none;
  last_chat_summary = none;
  last_heartbeat = 0;
  last_cleanup = monotonic;
  current_date = date;
  output_path = none;
  notes = [];
}

unfoldable pub close_output : WorkerRuntime → WorkerRuntime
close_output s = elim s.output_path [
  | none ↦ s
  | some path ↦ record s { output_path = none; notes = closed_log path ∷ s.notes }
]

abbrev pub is_path : Text → Option Text → Bool
is_path path none = false
is_path path (some p) = same p path

unfoldable pub open_today : Tick → WorkerRuntime → Tried
unfolding close_output same
open_today t s =
    let path = plain_log_name t.date_key in
    if is_path path s.output_path
    then done s
    else if t.opens path
    then done (note (opened_log path) (record (close_output s) { output_path = some path }))
    else raised (close_output s)

-- `cleanup_old_logs`, which raises on a day that is not past its limits
unfoldable pub clean : Limits → Tick → WorkerRuntime → Tried
clean limits t s =
    if leb t.date limits.plain_days || leb t.date limits.total_days
    then raised s
    else done (note (cleaned_logs t.date) (record s { last_cleanup = t.monotonic }))

unfoldable pub maybe_roll_date : Limits → Tick → WorkerRuntime → Tried
unfolding clean close_output
maybe_roll_date limits t s =
    if t.date == s.current_date
    then done s
    else clean limits t (close_output (record s { current_date = t.date }))

-- `write` into the open file, and `flush`: where the flush raises, the line may stay in the buffer
-- and reach the file later.
unfoldable pub append_chat : Tick → DaemonEntry → WorkerRuntime → Tried
unfolding format_chat_entry
append_chat t e s =
    if t.writes && t.flushes
    then done (record s {
      chats_logged = s.chats_logged + 1;
      last_chat_at = some t.chat_at;
      last_chat_summary = some (format_chat_entry e);
      notes = chat_line (plain_log_name t.date_key) (format_chat_entry e) ∷ s.notes;
    })
    else if t.writes
    then raised (note (buffered_line (plain_log_name t.date_key) (format_chat_entry e)) s)
    else raised s

unfoldable pub write_chat : Limits → Tick → DaemonEntry → WorkerRuntime → Tried
unfolding maybe_roll_date open_today append_chat
write_chat limits t e s = maybe_roll_date limits t s and_then open_today t and_then append_chat t e

-- `CLEANUP_INTERVAL_SECONDS`
abbrev pub cleanup_interval : ℕ
cleanup_interval = 3600 * 1000000

unfoldable pub maybe_periodic_cleanup : Limits → Tick → WorkerRuntime → Tried
unfolding clean
maybe_periodic_cleanup limits t s =
    if ltb t.monotonic (s.last_cleanup + cleanup_interval) then done s else clean limits t s

abbrev pub count_line : WorkerRuntime → WorkerRuntime
count_line s = record s { lines_seen = s.lines_seen + 1 }

module _ ⦃py : Python⦄ where
  unfoldable pub did_return {ℓ} : {A : Type ℓ} → Outcome A → Bool
  did_return (returns a) = true
  did_return (raises e) = false

  -- The sign of life; the second argument is `HEARTBEAT_SECONDS` in microseconds.
  unfoldable pub heartbeat : Bool → ℕ → Tick → WorkerRuntime → Tried
  unfolding daemon_tail_source active_server_log_path did_return
  heartbeat force interval t s =
      if not force && ltb t.monotonic (s.last_heartbeat + interval) then done s else record {
        state =
            note (alive t.monotonic s.lines_seen s.chats_logged)
              (record s { last_heartbeat = t.monotonic });
        returned =
            did_return (daemon_tail_source t.env) && did_return (active_server_log_path t.env);
      }

  -- An exception of the write is logged.
  unfoldable pub log_chat : Limits → Tick → Option DaemonEntry → WorkerRuntime → WorkerRuntime
  unfolding write_chat
  log_chat limits t none s = s
  log_chat limits t (some e) s = (write_chat limits t e s).state

  unfoldable pub on_tail_line : Limits → ℕ → Tick → WorkerRuntime → Tried
  unfolding log_chat parse_chat_line heartbeat maybe_periodic_cleanup
  on_tail_line limits interval t s =
      heartbeat false interval t (log_chat limits t (parse_chat_line t.now t.raw) (count_line s))
      and_then maybe_periodic_cleanup limits t
