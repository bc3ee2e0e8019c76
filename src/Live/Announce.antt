-- ===== src/Live/Announce.antt =====
-- The loop of `main` in bundled-addons/defaults/live-team-announcer.py: which team changes it
-- announces. Times are in microseconds.

use jedi_academy_pterodactyl.Prelude.{
  ltb, if◌then◌else◌, is_empty, keep, ℤ, pos, negsuc, ℕ, ◌+◌, ◌*◌, Bool, true, false, not, ◌&&◌,
  ◌||◌, Option, none, some, List, [], ◌∷◌, ◌++◌,
}
use jedi_academy_pterodactyl.Text.{Text, codes, same, strip, is_control}
use jedi_academy_pterodactyl.Config.{Environment}
use jedi_academy_pterodactyl.Outcome.{raises, os_error, returns, ◌>>=◌, Outcome}
use jedi_academy_pterodactyl.Live.Config.{live_home, LiveConfig}
use jedi_academy_pterodactyl.Python.Json.{str, Python, dict, Json, Fields}
use jedi_academy_pterodactyl.Python.Dict.{field_of}
use jedi_academy_pterodactyl.Python.Convert.{str_or_empty}
use jedi_academy_pterodactyl.Runtime.Env.{server_port_of, send_quietly, rcon_password}
use jedi_academy_pterodactyl.Rcon.Quote.{quote_rcon_arg}
use jedi_academy_pterodactyl.Rcon.Packet.{Exchange}

-- `announcement_player_name`: the colour codes stay, the control characters go.
unfoldable pub announcement_player_name : Text → Text
announcement_player_name name = strip (keep (λ c. not (is_control c)) name)

module _ ⦃py : Python⦄ where
  -- What is said of a player with a usable name.
  joined : Text → Text → Option Text
  unfolding same
  joined cleaned team =
      if same team (codes "RED")
      then some (cleaned ++ codes " joined ^1RED TEAM")
      else if same team (codes "BLUE")
      then some (cleaned ++ codes " joined ^4BLUE TEAM")
      else none

  unfoldable pub announcement_for : Text → Text → Option Text
  unfolding joined announcement_player_name
  announcement_for name new_team =
      let cleaned = announcement_player_name name in
      if is_empty cleaned then none else joined cleaned (py.upper (strip new_team))

-- An announcement that passed the cooldown, and whether a datagram was sent for it.
pub record Announcement : Type 0 where
  pub key : Text
  pub team : Text
  pub at : ℕ
  pub message : Text
  pub sent : Bool

-- `last_announced`: the last team and time of a key.
abbrev pub LastAnnounced : Type 0
LastAnnounced = List (Text × (Text × ℕ))

unfoldable pub last_of : Text → LastAnnounced → Option (Text × ℕ)
unfolding same
last_of k [] = none
last_of k ((j, v) ∷ d) = if same j k then some v else last_of k d

unfoldable pub set_last : Text → Text × ℕ → LastAnnounced → LastAnnounced
unfolding same
set_last k v [] = (k, v) ∷ []
set_last k v ((j, w) ∷ d) = if same j k then (j, v) ∷ d else (j, w) ∷ set_last k v d

-- The addon's memory, and its announcements, the last one first.
pub record Live : Type 0 where
  pub last_announced : LastAnnounced
  pub announced : List Announcement

-- A line of the input, with the clock reading, the environment and the network of its event.
pub record Input : Type 0 where
  pub raw : Text
  pub now : ℕ
  pub env : Environment
  pub exchange : Exchange

abbrev pub to_micros : ℤ → ℕ
to_micros (pos n) = n * 1000000
to_micros (negsuc n) = 0

-- The same team within the cooldown.
unfoldable pub cooling : ℤ → Text → ℕ → Option (Text × ℕ) → Bool
unfolding same
cooling cooldown team now none = false
cooling cooldown team now (some (team', at)) = same team' team && ltb now (at + to_micros cooldown)

unfoldable pub is_text : Text → Option Json → Bool
unfolding same
is_text t (some (str s)) = same s t
is_text t v = false

module _ ⦃py : Python⦄ where
  -- An `OSError` of the socket is logged.
  logged : Outcome (Option (List ℕ)) → Outcome Bool
  logged (returns reply) = returns true
  logged (raises os_error) = returns false
  logged (raises e) = raises e

  send_to : Input → LiveConfig → Text → Option Text → Outcome Bool
  unfolding logged quote_rcon_arg
  send_to i config message none = returns false
  send_to i config message (some password) = server_port_of i.env (live_home i.env) >>= λ port.
      logged (
        send_quietly i.exchange config.rcon_host port password config.rcon_timeout_seconds
          (config.announce_command ++ (b' ' ∷ quote_rcon_arg message)))

  unfoldable pub send_live : Input → LiveConfig → Text → Outcome Bool
  unfolding send_to
  send_live i config message =
      rcon_password i.env (live_home i.env) >>= λ password. send_to i config message password

  unfoldable pub announce : Input → LiveConfig → Text → Text → Text → Live → Outcome Live
  unfolding send_live cooling last_of set_last
  announce i config key team message s =
      if cooling config.min_seconds_between_announcements team i.now (last_of key s.last_announced)
      then returns s
      else send_live i config message >>= λ ok. returns (record {
        last_announced = set_last key (team, i.now) s.last_announced;
        announced =
            record { key = key; team = team; at = i.now; message = message; sent = ok }
            ∷ s.announced;
      })

  unfoldable pub announce_if : Input → LiveConfig → Text → Text → Option Text → Live → Outcome Live
  unfolding announce
  announce_if i config key team none s = returns s
  announce_if i config key team (some message) s = announce i config key team message s

  unfoldable pub on_change : Input → LiveConfig → Text → Text → Text → Live → Outcome Live
  unfolding announce_if announcement_for
  on_change i config name new_team slot s =
      if is_empty name || is_empty new_team
      then returns s
      else announce_if i config (slot ++ (b'|' ∷ py.lower name)) new_team
          (announcement_for name new_team) s

  unfoldable pub text_field : Fields → Text → Text
  unfolding str_or_empty field_of
  text_field event k = elim (field_of event k) [ none ↦ [] | some v ↦ str_or_empty v ]

  unfoldable pub on_event : Input → LiveConfig → Option Json → Live → Outcome Live
  unfolding on_change field_of
  on_event i config (some (dict event)) s =
      if is_text (codes "team_change") (field_of event (codes "type"))
      then on_change i config (strip (text_field event (codes "name")))
          (py.upper (strip (text_field event (codes "new_team")))) (text_field event (codes "slot"))
          s
      else returns s
  on_event i config v s = returns s

  unfoldable pub on_input : LiveConfig → Input → Live → Outcome Live
  unfolding on_event
  on_input config i s =
      if is_empty (strip i.raw)
      then returns s
      else on_event i config (py.json_loads (strip i.raw)) s

  unfoldable pub live_loop : LiveConfig → List Input → Live → Outcome Live
  unfolding on_input
  live_loop config [] s = returns s
  live_loop config (i ∷ is) s = on_input config i s >>= λ s'. live_loop config is s'
