-- ===== src/Daemon/Lines.antt =====
-- How bundled-addons/examples/deprecated/40-chatlogger.py reads a line of the server's output.
use jedi_academy_pterodactyl.Prelude.{
  ◌==◌, if◌then◌else◌, is_empty, Bool, true, false, not, ◌&&◌, ◌||◌, Option, none, some, List, [],
  ◌∷◌, ◌++◌,
}
use jedi_academy_pterodactyl.Text.{Text, codes, is_one_of, between, rstrip, strip, contains}
use jedi_academy_pterodactyl.Regex.{
  plus, found, At, finish, dot, space, sub_re, exactly, star, repeat, capture, one, maybe,
  match_start, digit, Re, ◌⨾◌, start,
}
use jedi_academy_pterodactyl.Python.Json.{Python}
use jedi_academy_pterodactyl.Chat.Patterns.{
  alphanumeric, admin_whisper_channel, named, whisper_channel, raw_verb_patterns, ansi, digits,
  normalize_text, public_channel, Channel,
}
use jedi_academy_pterodactyl.Chat.Writer.{addressed, channel_label}
use jedi_academy_pterodactyl.Chat.Entry.{sender_blocklist}

-- What `datetime.now()` gives for a line: "%Y-%m-%d %H:%M:%S", and the name of the zone, if any.
pub record LocalTime : Type 0 where
  pub stamp : Text
  pub zone : Option Text

-- The tuple `(timestamp, channel, sender, target, message)`.
pub record DaemonEntry : Type 0 where
  pub timestamp : Text
  pub channel : Channel
  pub sender : Text
  pub target : Option Text
  pub message : Text

-- `GENERIC_VERB_BLOCKLIST`
abbrev pub generic_verb_blocklist : List Text
generic_verb_blocklist =
    codes "initgame"
    ∷ codes "shutdowngame"
    ∷ codes "clientconnect"
    ∷ codes "clientdisconnect"
    ∷ codes "clientbegin"
    ∷ codes "changeteam"
    ∷ codes "kill"
    ∷ codes "item"
    ∷ codes "exit"
    ∷ codes "score"
    ∷ codes "challenge"
    ∷ codes "weapon"
    ∷ codes "duel"
    ∷ codes "info"
    ∷ codes "warning"
    ∷ codes "error"
    ∷ codes "broadcast"
    ∷ codes "rcon"
    ∷ codes "status"
    ∷ []

-- `tzname() or "LOCAL"`
abbrev zone_or_local : Option Text → Text
zone_or_local none = codes "LOCAL"
zone_or_local (some []) = codes "LOCAL"
zone_or_local (some name) = name

-- `text or None`
abbrev pub none_if_empty : Text → Option Text
none_if_empty [] = none
none_if_empty s = some s

-- [A-Za-z][A-Za-z0-9_]{1,15}
abbrev pub verb_re : Re
verb_re =
    one (λ c. between b'A' b'Z' c || between b'a' b'z' c)
    ⨾ repeat true 1 (some 15) (one (λ c. alphanumeric c || c == b'_'))

-- ^(?P<verb>…)\s*:\s*(?P<sender>[^:]{1,64}?)\s*:\s*(?P<message>.+)$
-- `verb` is group 3, `sender` is group 1 and `message` is group 2.
abbrev pub generic_chat_re : Re
generic_chat_re =
    start
    ⨾ capture 3 verb_re
    ⨾ star space
    ⨾ exactly (codes ":")
    ⨾ star space
    ⨾ capture 1 (repeat false 1 (some 64) (one (λ c. not (c == b':'))))
    ⨾ star space
    ⨾ exactly (codes ":")
    ⨾ star space
    ⨾ capture 2 (plus dot)
    ⨾ finish

module _ ⦃py : Python⦄ where
  -- ^(?P<stamp>\d{4}-\d{2}-\d{2} \d{2}:\d{2}:\d{2})\s+(?P<body>.*)$
  abbrev timestamp_re : Re
  timestamp_re =
      start
      ⨾ capture 1 (
          digits 4 4
          ⨾ exactly (codes "-")
          ⨾ digits 2 2
          ⨾ exactly (codes "-")
          ⨾ digits 2 2
          ⨾ exactly (codes " ")
          ⨾ digits 2 2
          ⨾ exactly (codes ":")
          ⨾ digits 2 2
          ⨾ exactly (codes ":")
          ⨾ digits 2 2)
      ⨾ plus space
      ⨾ capture 2 (star dot)
      ⨾ finish

  -- ^(?:\d{1,3}:\d{2}(?::\d{2})?)\s+(?P<body>.*)$
  abbrev match_time_re : Re
  match_time_re =
      start
      ⨾ digits 1 3
      ⨾ exactly (codes ":")
      ⨾ digits 2 2
      ⨾ maybe (exactly (codes ":") ⨾ digits 2 2)
      ⨾ plus space
      ⨾ capture 2 (star dot)
      ⨾ finish

  -- ^\d+\s{2,}
  abbrev sender_slot_re : Re
  sender_slot_re = start ⨾ plus digit ⨾ repeat true 2 none space

  -- The stamp and the body.
  unfoldable pub split_stamp : LocalTime → Text → Text × Text
  unfolding match_start named
  split_stamp now raw = elim (match_start timestamp_re (rstrip raw)) [
    | some t ↦ (named 1 t, strip (named 2 t))
    | none ↦ elim (match_start match_time_re (rstrip raw)) [
      | some t ↦ (now.stamp, strip (named 2 t))
      | none ↦ (now.stamp, strip raw)
    ]
  ]

  -- The sender is none of the blocked names and no slot of a score table.
  unfoldable pub is_player_name : Text → Bool
  unfolding is_one_of match_start
  is_player_name sender =
      not (is_one_of (py.lower sender) sender_blocklist)
      && not (found (match_start sender_slot_re sender))

  unfoldable pub daemon_entry : LocalTime → Text → Channel → Option Text → Text → Text → DaemonEntry
  daemon_entry now stamp channel target sender message = record {
    timestamp = stamp ++ (b' ' ∷ zone_or_local now.zone);
    channel = channel;
    sender = sender;
    target = target;
    message = message;
  }

  -- The tests of a sender and a message behind a known verb.
  unfoldable pub admit_spoken :
      LocalTime → Text → Channel → Option Text → Text → Text → Option DaemonEntry
  unfolding is_player_name daemon_entry
  admit_spoken now stamp channel target sender message =
      if is_empty sender || is_empty message
      then none
      else if is_player_name sender
      then some (daemon_entry now stamp channel target sender message)
      else none

  -- `normalize_text(match.groupdict().get("target") or "") or None`
  unfoldable pub target_in : Channel → At → Option Text
  unfolding named normalize_text
  target_in whisper_channel t = none_if_empty (normalize_text (named 3 t))
  target_in admin_whisper_channel t = none_if_empty (normalize_text (named 3 t))
  target_in c t = none

  unfoldable pub admit_generic : LocalTime → Text → Text → Text → Text → Option DaemonEntry
  unfolding is_one_of contains admit_spoken
  admit_generic now stamp verb sender message =
      if is_one_of verb generic_verb_blocklist
      then none
      else if contains sender (codes "@@@") || contains message (codes "@@@")
      then none
      else admit_spoken now stamp public_channel none sender message

  unfoldable pub generic_entry : LocalTime → Text → Text → Option DaemonEntry
  unfolding match_start named normalize_text admit_generic
  generic_entry now stamp body = elim (match_start generic_chat_re body) [
    | none ↦ none
    | some t ↦
        admit_generic now stamp (py.lower (named 3 t)) (normalize_text (named 1 t))
          (normalize_text (named 2 t))
  ]

  -- The first known verb decides; a line without one may have a verb of another shape.
  unfoldable pub entry_with : LocalTime → Text → Text → List (Channel × Re) → Option DaemonEntry
  unfolding match_start target_in named normalize_text admit_spoken generic_entry
  entry_with now stamp body [] = generic_entry now stamp body
  entry_with now stamp body ((channel, verb) ∷ rest) = elim (match_start verb body) [
    | none ↦ entry_with now stamp body rest
    | some t ↦
        admit_spoken now stamp channel (target_in channel t) (normalize_text (named 1 t))
          (normalize_text (named 2 t))
  ]

  unfoldable pub entry_of : LocalTime → Text × Text → Option DaemonEntry
  unfolding entry_with
  entry_of now (stamp, body) =
      if is_empty body then none else entry_with now stamp body raw_verb_patterns

  unfoldable pub parse_chat_line : LocalTime → Text → Option DaemonEntry
  unfolding entry_of split_stamp sub_re
  parse_chat_line now raw =
      if is_empty (strip raw) then none else entry_of now (split_stamp now (sub_re ansi [] raw))

-- A target is shown on the two whisper channels only.
abbrev shown_target : Channel → Text → Option Text → Text
shown_target whisper_channel sender target = addressed sender target
shown_target admin_whisper_channel sender target = addressed sender target
shown_target c sender target = sender

unfoldable pub format_chat_entry : DaemonEntry → Text
unfolding channel_label
format_chat_entry e =
    codes "["
    ++ (e.timestamp
        ++ (codes "] ["
            ++ (channel_label e.channel
                ++ (codes "] "
                    ++ (shown_target e.channel e.sender e.target ++ (codes ": " ++ e.message))))))
