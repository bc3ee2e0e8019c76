-- ===== src/Tests/ChatTheorems.antt =====
-- The theorems on the chat logger at concrete inputs.
use jedi_academy_pterodactyl.Tests.Ascii.{ascii}
use jedi_academy_pterodactyl.Prelude.{
  if◌then◌else◌, ℕ, ◌*◌, ◌≡◌, refl, true, Option, none, some, List, [], ◌∷◌, arith, pos, ◌≤◌, false,
}
use jedi_academy_pterodactyl.Text.{Text, codes, same, is_one_of, strip, is_space}
use jedi_academy_pterodactyl.Outcome.{returns, raises, Outcome, os_error}
use jedi_academy_pterodactyl.Python.Json.{Json, str, dict, end, field}
use jedi_academy_pterodactyl.Chat.Recorded.{IsRecorded, event_to_entry-IsRecorded}
use jedi_academy_pterodactyl.Chat.Daily.{by_day, write_all, write_all-by_day, lines_of}
use jedi_academy_pterodactyl.Chat.Patterns.{public_channel, whisper_channel}
use jedi_academy_pterodactyl.Chat.Writer.{
  ChatDisk, cleanup_old_logs, ChatWriter, Moment, new_writer,
}
use jedi_academy_pterodactyl.Chat.Cleanup.{cleanup_old_logs-today}
use jedi_academy_pterodactyl.Chat.Entry.{event_to_entry, ChatEntry, is_type, raw_or_empty}
use jedi_academy_pterodactyl.Config.{Environment}
use jedi_academy_pterodactyl.Chat.Keep.{keep_plain_days-le, keep_plain_days}

abbrev said : Json
said = dict (
    field (codes "type") (str (codes "chat_message")) (
      field (codes "name") (str (codes " ^1Kyle"))
        (field (codes "message") (str (codes "hi ")) end)))

abbrev said_entry : ChatEntry
said_entry = record {
  channel = public_channel;
  sender = codes "Kyle";
  message = codes "hi";
  target = none;
}

said_recorded : event_to_entry said ≡ returns (some said_entry)
unfolding event_to_entry strip is_type raw_or_empty
said_recorded = refl

abbrev told_event : Json
told_event = dict (
    field (codes "type") (str (codes "raw_line"))
      (field (codes "raw") (str (codes "12:34 tell: Jan -> Kyle: psst")) end))

told_recorded :
    event_to_entry told_event
    ≡ returns (
        some (record {
          channel = whisper_channel;
          sender = codes "Jan";
          message = codes "psst";
          target = some (codes "Kyle");
        }))
unfolding event_to_entry is_type raw_or_empty is_space strip
told_recorded = refl

event_to_entry-IsRecorded_example : IsRecorded said_entry
event_to_entry-IsRecorded_example = event_to_entry-IsRecorded said said_recorded

abbrev monday : Moment
monday = record {
  date = 7;
  micros = 86399 * 1000000;
  date_key = codes "2024-01-01";
  stamp = codes "2024-01-01 23:59:59";
}

abbrev tuesday : Moment
tuesday = record {
  date = 8;
  micros = 5;
  date_key = codes "2024-01-02";
  stamp = codes "2024-01-02 00:00:00";
}

abbrev two_days : List (Moment × ChatEntry)
two_days = (monday, said_entry) ∷ (tuesday, said_entry) ∷ []

abbrev writer_of : Outcome ChatWriter → ChatWriter
writer_of (returns w) = w
writer_of (raises e) = new_writer

abbrev roomy : ChatDisk
roomy = record { opens = λ _. true; write_fails = λ _ _. none; keep_days = 6 }

abbrev written : ChatWriter
written = writer_of (write_all roomy two_days new_writer)

written_runs : write_all roomy two_days new_writer ≡ returns written
unfolding write_all
written_runs = refl

write_all-by_day_example : lines_of written.ops ≡ by_day two_days
write_all-by_day_example = write_all-by_day roomy two_days written_runs

abbrev date_of : Text → Option ℕ
unfolding same
date_of name =
    if same name (codes "chat-2024-01-02.log")
    then some 8
    else if same name (codes "chat-2023-12-01.log")
    then some 1
    else none

abbrev directory : List Text
directory = codes "chat-2023-12-01.log" ∷ codes "chat-2024-01-02.log" ∷ codes "chat-notes.log" ∷ []

old_one_removed :
    cleanup_old_logs date_of 1 tuesday directory
    ≡ codes "chat-2024-01-02.log" ∷ codes "chat-notes.log" ∷ []
unfolding cleanup_old_logs date_of
old_one_removed = refl

cleanup_old_logs-today_example :
    is_one_of (codes "chat-2024-01-02.log") (cleanup_old_logs date_of 1 tuesday directory)
    ≡ is_one_of (codes "chat-2024-01-02.log") directory
unfolding date_of
cleanup_old_logs-today_example =
    cleanup_old_logs-today date_of 1 tuesday (codes "chat-2024-01-02.log") directory (omega arith)
      (omega arith) refl

abbrev keep_zero : Environment
keep_zero = record {
  getenv = λ name. some (codes "0");
  read_text = λ _. raises os_error;
  is_file = λ _. false;
}

keep_plain_days-le_example : (n : ℕ) × (1 ≤ n) × (keep_plain_days keep_zero ≡ pos n)
keep_plain_days-le_example = keep_plain_days-le keep_zero
