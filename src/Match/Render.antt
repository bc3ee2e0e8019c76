-- ===== src/Match/Render.antt =====
-- The lines that bundled-addons/defaults/match-announcer.py sends: `_format_template`,
-- `_render_message` and `_command_for_group`. The class reads its configuration from a dict.

use jedi_academy_pterodactyl.Match.Config.{default_messages}
use jedi_academy_pterodactyl.Prelude.{ltb, if◌then◌else◌, pos, ℕ, Option, none, some, []}
use jedi_academy_pterodactyl.Text.{Text, codes}
use jedi_academy_pterodactyl.Outcome.{
  value_error, key_error, index_error, Outcome, returns, raises, ◌>>=◌,
}
use jedi_academy_pterodactyl.Python.Json.{Json, null, int, str, Fields, end, field, Python}
use jedi_academy_pterodactyl.Python.Dict.{Dict, get, get_or, field_of}
use jedi_academy_pterodactyl.Python.Convert.{truthy}
use jedi_academy_pterodactyl.Format.{format_text}
use jedi_academy_pterodactyl.Rcon.Quote.{sanitize_text}
use jedi_academy_pterodactyl.Config.{object_at}

-- The exceptions that `_format_template` turns into `None`; any other leaves the function.
unfoldable pub attempt : Outcome Text → Outcome (Option Text)
attempt (returns s) = returns (some s)
attempt (raises key_error) = returns none
attempt (raises index_error) = returns none
attempt (raises value_error) = returns none
attempt (raises e) = raises e

-- `_default_messages().get(key, "")`
unfoldable pub default_message : Text → Text
unfolding get
default_message key = elim (get default_messages key) [ some (str s) ↦ s | _ ↦ [] ]

-- The template in use: the configured text, if it is one.
unfoldable pub template_for : Dict → Text → Text
unfolding default_message field_of
template_for config key = elim (object_at (get config (codes "messages")) key) [
  | some (str s) ↦ s
  | _ ↦ default_message key
]

pub data Group : Type 0 where
  start_group end_group : Group

-- `a or b`
abbrev or_else : Json → Json → Json
or_else a b = if truthy a then a else b

unfoldable pub command_key : Group → Text
command_key start_group = codes "match_start_command"
command_key end_group = codes "match_end_command"

unfoldable pub command_for_group : Dict → Group → Json
unfolding truthy get get_or command_key
command_for_group config group =
    or_else (get_or config (command_key group) null)
      (get_or config (codes "announce_command") (str (codes "svsay")))

-- An integer as it prints, or the empty text.
abbrev score_value : Option ℕ → Json
score_value none = str []
score_value (some n) = int (pos n)

abbrev pub score_values : Option ℕ → Option ℕ → Fields
score_values red blue =
    field (codes "red_score") (score_value red) (field (codes "blue_score") (score_value blue) end)

-- RED or BLUE wins with the larger of two known scores; anything else is a draw.
unfoldable pub end_message_key : Option ℕ → Option ℕ → Text
end_message_key (some red) (some blue) =
    if ltb blue red
    then codes "tffa_end_red"
    else if ltb red blue
    then codes "tffa_end_blue"
    else codes "tffa_end_draw"
end_message_key _ _ = codes "tffa_end_draw"

module _ ⦃py : Python⦄ where
  unfoldable pub format_template : Text → Fields → Outcome (Option Text)
  unfolding format_text attempt
  format_template template values = attempt (format_text template values)

  -- The text of a second attempt, or the text as it is.
  unfoldable pub retry : Text → Fields → Option Text → Outcome Text
  unfolding format_template
  retry default values (some rendered) = returns rendered
  retry default values none = format_template default values >>= λ again.
      returns (elim again [ some rendered ↦ rendered | none ↦ default ])

  unfoldable pub render_message : Dict → Text → Fields → Outcome Text
  unfolding template_for retry sanitize_text
  render_message config key values = format_template (template_for config key) values >>= λ first.
      retry (default_message key) values first >>= λ rendered. returns (sanitize_text rendered)
