-- ===== src/Chat/Entry.antt =====
-- `classify_raw_line` and `event_to_entry` of bundled-addons/defaults/chatlogger.py.

use jedi_academy_pterodactyl.Prelude.{
  if◌then◌else◌, is_empty, Bool, true, false, ◌||◌, Option, none, some, List, [], ◌∷◌,
}
use jedi_academy_pterodactyl.Text.{Text, codes, same, is_one_of, starts_with}
use jedi_academy_pterodactyl.Regex.{At, Re, match_start}
use jedi_academy_pterodactyl.Outcome.{returns, Outcome, ◌>>=◌, attribute_error, type_error, raises}
use jedi_academy_pterodactyl.Python.Json.{Json, Fields, dict, Python, str}
use jedi_academy_pterodactyl.Python.Dict.{field_of}
use jedi_academy_pterodactyl.Python.Convert.{truthy}
use jedi_academy_pterodactyl.Chat.Patterns.{
  split_log_prefix, public_channel, normalize_text, named, raw_verb_patterns, whisper_channel,
  Channel, team_channel, admin_whisper_channel,
}

-- The tuple `(channel, sender, message, target)`.
pub record ChatEntry : Type 0 where
  pub channel : Channel
  pub sender : Text
  pub message : Text
  pub target : Option Text

abbrev pub sender_blocklist : List Text
sender_blocklist = codes "server" ∷ codes "taystjk" ∷ codes "openjk" ∷ []

abbrev has_target : Channel → Bool
has_target whisper_channel = true
has_target admin_whisper_channel = true
has_target c = false

module _ ⦃py : Python⦄ where
  -- The tests that both classifiers make of a sender and a message.
  unfoldable pub admit : Channel → Text → Text → Option Text → Option ChatEntry
  unfolding is_one_of
  admit channel sender message target =
      if is_empty sender || is_empty message
      then none
      else if is_one_of (py.lower sender) sender_blocklist
      then none
      else some (record { channel = channel; sender = sender; message = message; target = target })

  unfoldable pub target_of : Channel → At → Option Text
  unfolding named normalize_text
  target_of channel t = if has_target channel then some (normalize_text (named 3 t)) else none

  -- The first pattern that matches decides.
  unfoldable pub classify_with : List (Channel × Re) → Text → Option ChatEntry
  unfolding match_start target_of normalize_text named admit
  classify_with [] body = none
  classify_with ((channel, pattern') ∷ rest) body = elim (match_start pattern' body) [
    | none ↦ classify_with rest body
    | some t ↦
        admit channel (normalize_text (named 1 t)) (normalize_text (named 2 t))
          (target_of channel t)
  ]

  unfoldable pub classify_raw_line : Text → Option ChatEntry
  unfolding classify_with split_log_prefix
  classify_raw_line raw =
      let body = split_log_prefix raw in
      if is_empty body then none else classify_with raw_verb_patterns body

  -- A function of `re` raises `TypeError` on a value that is not a string.
  abbrev pub as_text : Json → Outcome Text
  as_text (str s) = returns s
  as_text v = raises type_error

  unfoldable pub is_type : Text → Option Json → Bool
  unfolding same
  is_type t (some (str s)) = same s t
  is_type t v = false

  abbrev pub or_empty_text : Option Json → Json
  or_empty_text none = str []
  or_empty_text (some v) = v

  -- `event.get("raw", "") or ""`
  unfoldable pub raw_or_empty : Json → Json
  unfolding truthy
  raw_or_empty v = if truthy v then v else str []

  -- The channel of a chat message, from its raw line.
  unfoldable pub chat_channel : Text → Channel
  unfolding split_log_prefix starts_with
  chat_channel raw =
      let body = py.lower (split_log_prefix raw) in
      if starts_with body (codes "sayteam") || starts_with body (codes "teamsay")
      then team_channel
      else if starts_with body (codes "tell") || starts_with body (codes "whisper")
      then whisper_channel
      else public_channel

  -- The raw line is read only for a message that is recorded.
  unfoldable pub with_channel : Json → Option ChatEntry → Outcome (Option ChatEntry)
  unfolding chat_channel
  with_channel raw none = returns none
  with_channel raw (some e) =
      as_text raw >>= λ content. returns (some (record e { channel = chat_channel content }))

  unfoldable pub chat_entry : Fields → Outcome (Option ChatEntry)
  unfolding with_channel admit field_of
  chat_entry event = as_text (or_empty_text (field_of event (codes "name"))) >>= λ name.
      as_text (or_empty_text (field_of event (codes "message"))) >>= λ message.
      with_channel (raw_or_empty (or_empty_text (field_of event (codes "raw"))))
        (admit public_channel (normalize_text name) (normalize_text message) none)

  unfoldable pub raw_entry : Fields → Outcome (Option ChatEntry)
  unfolding classify_raw_line field_of
  raw_entry event = as_text (raw_or_empty (or_empty_text (field_of event (codes "raw")))) >>= λ raw.
      returns (classify_raw_line raw)

  -- An event that is no object has no `get`.
  unfoldable pub event_to_entry : Json → Outcome (Option ChatEntry)
  unfolding chat_entry raw_entry field_of
  event_to_entry (dict event) =
      if is_type (codes "chat_message") (field_of event (codes "type"))
      then chat_entry event
      else if is_type (codes "raw_line") (field_of event (codes "type"))
      then raw_entry event
      else returns none
  event_to_entry v = raises attribute_error
