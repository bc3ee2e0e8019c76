-- ===== src/Chat/Writer.antt =====
-- `ChatWriter` of bundled-addons/defaults/chatlogger.py.

use jedi_academy_pterodactyl.Prelude.{
  ltb, leb, ◌==◌, if◌then◌else◌, is_some, ℕ, ◌+◌, ◌*◌, Bool, false, ◌&&◌, Option, none, some, List,
  [], ◌∷◌, ◌++◌,
}
use jedi_academy_pterodactyl.Text.{Text, codes, same}
use jedi_academy_pterodactyl.Outcome.{
  returns, ◌>>=◌, Outcome, os_error, overflow_error, Exception, raises,
}
use jedi_academy_pterodactyl.Chat.Patterns.{
  Channel, public_channel, whisper_channel, admin_whisper_channel, team_channel, admin_channel,
}
use jedi_academy_pterodactyl.Chat.Entry.{ChatEntry}

-- A moment of local time: its date as the number of the day since the year 1, the microseconds of that day, and what `strftime` makes of it,
-- "%Y-%m-%d" and "%Y-%m-%d %H:%M:%S".
pub record Moment : Type 0 where
  pub date : ℕ
  pub micros : ℕ
  pub date_key : Text
  pub stamp : Text

unfoldable pub channel_label : Channel → Text
channel_label whisper_channel = codes "WHISPER"
channel_label admin_whisper_channel = codes "ADMIN_WHISPER"
channel_label team_channel = codes "TEAM"
channel_label admin_channel = codes "ADMIN"
channel_label public_channel = codes "PUBLIC"

-- `sender`, and the target that is not empty
abbrev pub addressed : Text → Option Text → Text
addressed sender none = sender
addressed sender (some []) = sender
addressed sender (some target) = sender ++ (codes " -> " ++ target)

unfoldable pub format_entry : Moment → ChatEntry → Text
unfolding channel_label
format_entry now e =
    codes "["
    ++ (now.stamp
        ++ (codes "] ["
            ++ (channel_label e.channel
                ++ (codes "] "
                    ++ (addressed e.sender e.target
                        ++ (codes ": " ++ (e.message ++ codes "\n")))))))

abbrev pub plain_log_name : Text → Text
plain_log_name date_key = codes "chat-" ++ (date_key ++ codes ".log")

-- What the writer does to the directory.
pub data FileOp : Type 0 where
  opened closed linked : Text → FileOp
  appended : Text → Text → FileOp
  cleaned_up : Moment → FileOp

-- `_date`, the name of the open file, `_last_cleanup`, and the operations, the last one first.
pub record ChatWriter : Type 0 where
  pub date : Option Text
  pub fp : Option Text
  pub last_cleanup : Option ℕ
  pub ops : List FileOp

abbrev pub new_writer : ChatWriter
new_writer = record { date = none; fp = none; last_cleanup = none; ops = [] }

abbrev pub close_op : Option Text → List FileOp → List FileOp
close_op none ops = ops
close_op (some name) ops = closed name ∷ ops

unfoldable pub is_current : Text → ChatWriter → Bool
unfolding same
is_current date_key w = elim w.date [ none ↦ false | some d ↦ same date_key d ] && is_some w.fp

-- What the writer meets: whether the file of a name can be opened, what `write` or `flush` raises
-- for a line in a file, if it raises, and `KEEP_PLAIN_DAYS`.
pub record ChatDisk : Type 0 where
  pub opens : Text → Bool
  pub write_fails : Text → Text → Option Exception
  pub keep_days : ℕ

unfoldable pub maybe_roll : ChatDisk → Moment → ChatWriter → Outcome ChatWriter
unfolding is_current
maybe_roll disk now w =
    if is_current now.date_key w
    then returns w
    else if disk.opens (plain_log_name now.date_key)
    then returns (record w {
      date = some now.date_key;
      fp = some (plain_log_name now.date_key);
      ops =
          linked (plain_log_name now.date_key)
          ∷ opened (plain_log_name now.date_key)
          ∷ close_op w.fp w.ops;
    })
    else raises os_error

abbrev pub cleaned_on : ℕ → Option ℕ → Bool
cleaned_on date none = false
cleaned_on date (some d) = d == date

-- `if self._last_cleanup != now.date(): cleanup_old_logs(now)`, which raises where the cutoff lies
-- before the year 1
unfoldable pub clean_daily : ChatDisk → Moment → ChatWriter → Outcome ChatWriter
clean_daily disk now w =
    if cleaned_on now.date w.last_cleanup
    then returns w
    else if leb now.date disk.keep_days
    then raises overflow_error
    else returns (record w { last_cleanup = some now.date; ops = cleaned_up now ∷ w.ops })

-- `write` and `flush`, then the cleanup.
unfoldable pub append_entry_to :
    ChatDisk → Option Text → Moment → ChatEntry → ChatWriter → Outcome ChatWriter
unfolding format_entry clean_daily
append_entry_to disk none now e w = returns w
append_entry_to disk (some name) now e w = elim (disk.write_fails name (format_entry now e)) [
  | some x ↦ raises x
  | none ↦ clean_daily disk now (record w { ops = appended name (format_entry now e) ∷ w.ops })
]

unfoldable pub write : ChatDisk → Moment → ChatEntry → ChatWriter → Outcome ChatWriter
unfolding maybe_roll append_entry_to
write disk now e w = maybe_roll disk now w >>= λ w'. append_entry_to disk w'.fp now e w'

unfoldable pub close : ChatWriter → ChatWriter
close w = record w { fp = none; ops = close_op w.fp w.ops }

-- `stamp < cutoff` of `cleanup_old_logs`: the midnight of `day` lies more than `keep` days back.
unfoldable pub is_stale : ℕ → Moment → ℕ → Bool
is_stale keep_days now day =
    ltb ((day + keep_days) * (86400 * 1000000)) (now.date * (86400 * 1000000) + now.micros)

-- The files that a cleanup leaves; `strptime` reads the date of a name.
unfoldable pub cleanup_old_logs : (Text → Option ℕ) → ℕ → Moment → List Text → List Text
unfolding is_stale
cleanup_old_logs strptime keep_days now [] = []
cleanup_old_logs strptime keep_days now (name ∷ names) =
    let rest = cleanup_old_logs strptime keep_days now names in
    elim (strptime name) [
      | none ↦ name ∷ rest
      | some day ↦ if is_stale keep_days now day then rest else name ∷ rest
    ]
