-- ===== src/Guard/Status.antt =====
-- The reading of a `status` reply in bundled-addons/examples/deprecated/50-rcon-live-guard.py.
use jedi_academy_pterodactyl.Prelude.{
  ◌==◌, if◌then◌else◌, is_some, ℕ, Bool, true, false, not, ◌||◌, Option, none, some, List, [], ◌∷◌,
}
use jedi_academy_pterodactyl.Text.{Text, codes, same, is_space, strip, splitlines}
use jedi_academy_pterodactyl.Regex.{
  plus, found, digit, one, repeat, space, capture, match_start, any_case, exactly, start, maybe,
  star, ◌⨾◌, Re, dot, finish,
}
use jedi_academy_pterodactyl.Python.Json.{Python}
use jedi_academy_pterodactyl.Python.Number.{parse_digits}
use jedi_academy_pterodactyl.Chat.Patterns.{normalize_text, named}
use jedi_academy_pterodactyl.Guard.Address.{bare_ip}

pub record Player : Type 0 where
  pub slot : ℕ
  pub name : Text
  pub address : Text

-- ^[-\s]+$
abbrev status_separator : Re
status_separator = start ⨾ plus (one (λ c. c == b'-' || is_space c)) ⨾ finish

module _ ⦃py : Python⦄ where
  -- ^\s*num\s+score\s+ping\s+name
  abbrev status_header : Re
  status_header =
      start
      ⨾ star space
      ⨾ any_case (codes "num")
      ⨾ plus space
      ⨾ any_case (codes "score")
      ⨾ plus space
      ⨾ any_case (codes "ping")
      ⨾ plus space
      ⨾ any_case (codes "name")

  abbrev octet : Re
  octet = repeat true 1 (some 3) digit

  -- \d{1,3}\.\d{1,3}\.\d{1,3}\.\d{1,3}(?::\d+)?
  abbrev ipv4 : Re
  ipv4 =
      octet
      ⨾ exactly (codes ".")
      ⨾ octet
      ⨾ exactly (codes ".")
      ⨾ octet
      ⨾ exactly (codes ".")
      ⨾ octet
      ⨾ maybe (exactly (codes ":") ⨾ plus digit)

  -- `slot` is group 1, `name` is group 2 and `address` is group 3.
  abbrev status_player : Re
  status_player =
      start
      ⨾ star space
      ⨾ capture 1 (plus digit)
      ⨾ plus space
      ⨾ plus (one (λ c. c == b'-' || is_some (py.digit_value c)))
      ⨾ plus space
      ⨾ plus digit
      ⨾ plus space
      ⨾ capture 2 (repeat false 1 none dot)
      ⨾ plus space
      ⨾ plus digit
      ⨾ plus space
      ⨾ capture 3 ipv4
      ⨾ plus space
      ⨾ plus digit
      ⨾ plus space
      ⨾ plus digit

  slot_of : Text → ℕ
  unfolding parse_digits
  slot_of s = elim (parse_digits s) [ none ↦ 0 | some n ↦ n ]

  -- The player of a line.
  unfoldable pub player_of : Text → Option Player
  unfolding match_start named slot_of normalize_text
  player_of l = elim (match_start status_player l) [
    | none ↦ none
    | some t ↦ some (record {
      slot = slot_of (named 1 t);
      name = normalize_text (named 2 t);
      address = strip (named 3 t);
    })
  ]

  unfoldable pub is_header : Text → Bool
  unfolding match_start
  is_header l = found (match_start status_header l)

  unfoldable pub is_separator : Text → Bool
  unfolding match_start
  is_separator l = found (match_start status_separator l)

  player_cons : Option Player → List Player → List Player
  player_cons none ps = ps
  player_cons (some p) ps = p ∷ ps

  -- The players of the lines behind a header; the flag is `in_players`.
  unfoldable pub players_from : Bool → List Text → List Player
  unfolding is_header is_separator player_of player_cons
  players_from in_players [] = []
  players_from in_players (l ∷ ls) =
      let after = players_from true ls in
      let rest = players_from in_players ls in
      if is_header l
      then after
      else if not in_players
      then rest
      else if is_separator l
      then rest
      else player_cons (player_of l) rest

  unfoldable pub parse_status_players : Text → List Player
  unfolding players_from splitlines
  parse_status_players status_text = players_from false (splitlines status_text)

  unfoldable pub find_player_slot_by_ip : List Player → Text → Option Player
  unfolding bare_ip same
  find_player_slot_by_ip [] source_address = none
  find_player_slot_by_ip (p ∷ ps) source_address =
      let rest = find_player_slot_by_ip ps source_address in
      if same (bare_ip p.address) (bare_ip source_address) then some p else rest
