-- ===== src/Match/Fit.antt =====
-- The whole run of bundled-addons/defaults/match-announcer.py where the templates format.
use jedi_academy_pterodactyl.Prelude.{◌≡◌, none, some, List}
use jedi_academy_pterodactyl.Text.{Text, strip}
use jedi_academy_pterodactyl.Outcome.{Outcome, returns}
use jedi_academy_pterodactyl.Python.Json.{Python, Json}
use jedi_academy_pterodactyl.Python.Dict.{Dict}
use jedi_academy_pterodactyl.Match.Loop.{Sender, line_read, Poll}
use jedi_academy_pterodactyl.Match.Plain.{IsFit}
use jedi_academy_pterodactyl.Match.Machine.{Sent, sent}

module _ ⦃py : Python⦄ where
  -- `json.loads` reads the line, or raises a `JSONDecodeError`.
  abbrev pub IsParsed : Poll → Type 0
  IsParsed (line_read raw t) = py.json_fails (strip raw) ≡ none
  IsParsed poll = Unit

-- The sender returns for every line that is fit.
abbrev pub TakesFit : Sender → Type 0
TakesFit send =
    (line : Text) (command : Json) (before : List Sent)
    → IsFit (sent line command)
    → send line (some command) before ≡ returns tt
