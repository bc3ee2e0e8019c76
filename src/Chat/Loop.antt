-- ===== src/Chat/Loop.antt =====
-- The loop of `main` in bundled-addons/defaults/chatlogger.py.
use jedi_academy_pterodactyl.Prelude.{if◌then◌else◌, is_empty, Option, none, some, List, [], ◌∷◌}
use jedi_academy_pterodactyl.Text.{Text, strip}
use jedi_academy_pterodactyl.Outcome.{◌>>=◌, returns, Outcome}
use jedi_academy_pterodactyl.Python.Json.{Json, Python}
use jedi_academy_pterodactyl.Chat.Writer.{ChatDisk, ChatWriter, close, write, Moment}
use jedi_academy_pterodactyl.Chat.Entry.{event_to_entry, ChatEntry}

-- A line of the input, and what `parse_event_time` makes of the time of its event.
pub record ChatLine : Type 0 where
  pub raw : Text
  pub moment : Moment

unfoldable pub record_entry : ChatDisk → Moment → Option ChatEntry → ChatWriter → Outcome ChatWriter
unfolding write
record_entry disk now none w = returns w
record_entry disk now (some e) w = write disk now e w

module _ ⦃py : Python⦄ where
  unfoldable pub on_json : ChatDisk → Moment → Option Json → ChatWriter → Outcome ChatWriter
  unfolding event_to_entry record_entry
  on_json disk now none w = returns w
  on_json disk now (some event) w = event_to_entry event >>= λ e. record_entry disk now e w

  unfoldable pub on_chat_line : ChatDisk → ChatLine → ChatWriter → Outcome ChatWriter
  unfolding on_json
  on_chat_line disk l w =
      if is_empty (strip l.raw)
      then returns w
      else on_json disk l.moment (py.json_loads (strip l.raw)) w

  unfoldable pub chat_loop : ChatDisk → List ChatLine → ChatWriter → Outcome ChatWriter
  unfolding on_chat_line close
  chat_loop disk [] w = returns (close w)
  chat_loop disk (l ∷ ls) w = on_chat_line disk l w >>= λ w'. chat_loop disk ls w'
