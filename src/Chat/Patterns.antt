-- ===== src/Chat/Patterns.antt =====
-- The patterns of bundled-addons/defaults/chatlogger.py, and the functions that clean a text.

use jedi_academy_pterodactyl.Prelude.{ℕ, Bool, true, false, ◌||◌, none, some, List, [], ◌∷◌}
use jedi_academy_pterodactyl.Text.{Text, codes, between, strip}
use jedi_academy_pterodactyl.Regex.{
  At, alt, digit, finish, capture, exactly, one, group_of, start, any_case, Re, ◌⨾◌, dot, maybe,
  repeat, sub_re, match_start, group_in, space, plus, star,
}
use jedi_academy_pterodactyl.Python.Json.{Python}

-- [0-9A-Za-z]
abbrev pub alphanumeric : ℕ → Bool
alphanumeric c = between b'0' b'9' c || between b'A' b'Z' c || between b'a' b'z' c

-- \^(?:[0-9A-Za-z])
abbrev pub quake_color : Re
quake_color = exactly (codes "^") ⨾ one alphanumeric

-- \x1b\[[0-?]*[ -/]*[@-~]
abbrev pub ansi : Re
ansi =
    exactly (0x1b ∷ b'[' ∷ [])
    ⨾ star (one (between b'0' b'?'))
    ⨾ star (one (between b' ' b'/'))
    ⨾ one (between b'@' b'~')

-- The channels of `RAW_VERB_PATTERNS`.
pub data Channel : Type 0 where
  whisper_channel admin_whisper_channel team_channel admin_channel public_channel : Channel

abbrev public_verbs : List Text
public_verbs = codes "say" ∷ codes "chat" ∷ codes "globalchat" ∷ []

abbrev team_verbs : List Text
team_verbs = codes "sayteam" ∷ codes "teamsay" ∷ codes "team" ∷ codes "teamchat" ∷ []

abbrev whisper_verbs : List Text
whisper_verbs = codes "tell" ∷ codes "whisper" ∷ codes "privmsg" ∷ codes "pm" ∷ []

abbrev admin_verbs : List Text
admin_verbs =
    codes "amsay"
    ∷ codes "smsay"
    ∷ codes "amchat"
    ∷ codes "smchat"
    ∷ codes "tsay"
    ∷ codes "csay"
    ∷ codes "vsay"
    ∷ codes "vchat"
    ∷ []

abbrev admin_tell_verbs : List Text
admin_tell_verbs = codes "amtell" ∷ codes "smtell" ∷ codes "ampm" ∷ []

abbrev lazy : Re → Re
lazy = repeat false 1 none

module _ ⦃py : Python⦄ where
  unfoldable pub normalize_text : Text → Text
  unfolding sub_re
  normalize_text value = strip (sub_re quake_color [] (sub_re ansi [] value))

  abbrev pub digits : ℕ → ℕ → Re
  digits least most = repeat true least (some most) digit

  -- \d{4}-\d{2}-\d{2} \d{2}:\d{2}:\d{2}|\d{1,3}:\d{2}(?::\d{2})?
  abbrev stamp : Re
  stamp =
      alt
        (digits 4 4
          ⨾ exactly (codes "-")
          ⨾ digits 2 2
          ⨾ exactly (codes "-")
          ⨾ digits 2 2
          ⨾ exactly (codes " ")
          ⨾ digits 2 2
          ⨾ exactly (codes ":")
          ⨾ digits 2 2
          ⨾ exactly (codes ":")
          ⨾ digits 2 2)
        (digits 1 3 ⨾ exactly (codes ":") ⨾ digits 2 2 ⨾ maybe (exactly (codes ":") ⨾ digits 2 2))

  -- ^(?:\s*(?:…)\s+)?(?P<body>.*)$
  abbrev timestamp_prefix : Re
  timestamp_prefix = start ⨾ maybe (star space ⨾ stamp ⨾ plus space) ⨾ capture 1 (star dot) ⨾ finish

  -- The text of a group that took part in the match.
  unfoldable pub named : ℕ → At → Text
  unfolding group_in
  named n t = elim (group_of n t) [ none ↦ [] | some s ↦ s ]

  unfoldable pub split_log_prefix : Text → Text
  unfolding match_start named
  split_log_prefix raw = elim (match_start timestamp_prefix raw) [
    | none ↦ strip raw
    | some t ↦ strip (named 1 t)
  ]

  -- "|".join(verbs) under `re.IGNORECASE`
  abbrev any_verb : List Text → Re
  any_verb [] = any_case []
  any_verb (v ∷ []) = any_case v
  any_verb (v ∷ vs) = alt (any_case v) (any_verb vs)

  -- `sender` is group 1, `message` is group 2 and `target` is group 3.
  abbrev spoken : List Text → Re
  spoken verbs =
      start
      ⨾ any_verb verbs
      ⨾ star space
      ⨾ exactly (codes ":")
      ⨾ star space
      ⨾ capture 1 (lazy dot)
      ⨾ star space
      ⨾ exactly (codes ":")
      ⨾ star space
      ⨾ capture 2 (plus dot)
      ⨾ finish

  abbrev told : List Text → Re
  told verbs =
      start
      ⨾ any_verb verbs
      ⨾ star space
      ⨾ exactly (codes ":")
      ⨾ star space
      ⨾ capture 1 (lazy dot)
      ⨾ star space
      ⨾ alt (exactly (codes "->")) (any_case (codes "to"))
      ⨾ star space
      ⨾ capture 3 (lazy dot)
      ⨾ star space
      ⨾ exactly (codes ":")
      ⨾ star space
      ⨾ capture 2 (plus dot)
      ⨾ finish

  -- `RAW_VERB_PATTERNS`
  abbrev pub raw_verb_patterns : List (Channel × Re)
  raw_verb_patterns =
      (whisper_channel, told whisper_verbs)
      ∷ (admin_whisper_channel, told admin_tell_verbs)
      ∷ (team_channel, spoken team_verbs)
      ∷ (admin_channel, spoken admin_verbs)
      ∷ (public_channel, spoken public_verbs)
      ∷ []
