-- ===== src/Team/Loop.antt =====
-- The loop over the lines of the tail in `run_worker` of
-- bundled-addons/examples/deprecated/20-live-team-announcer.py. Times are in microseconds.
use jedi_academy_pterodactyl.Prelude.{
  ltb, if◌then◌else◌, ℕ, ◌+◌, Bool, true, false, Option, none, some, List, [], ◌∷◌, ◌++◌,
}
use jedi_academy_pterodactyl.Text.{Text, strip}
use jedi_academy_pterodactyl.Config.{Environment}
use jedi_academy_pterodactyl.Cooldown.{time_or_zero, pair_key, text_key, set_time}
use jedi_academy_pterodactyl.Outcome.{raises, os_error, Outcome, returns, ◌>>=◌}
use jedi_academy_pterodactyl.Team.Message.{
  parse_change_team, change_message, Change, normalize_player_name,
}
use jedi_academy_pterodactyl.Team.Config.{team_password, TeamConfig, team_port, team_tail_source}
use jedi_academy_pterodactyl.Live.Announce.{to_micros}
use jedi_academy_pterodactyl.Python.Json.{Python}
use jedi_academy_pterodactyl.Rcon.Quote.{escape_command_argument}
use jedi_academy_pterodactyl.Rcon.Packet.{send_rcon_command, Exchange}
use jedi_academy_pterodactyl.Follow.{Follower, follow, TailTurn}

-- A line of the tail, with the clock reading, the environment and the network of its event.
pub record TeamLine : Type 0 where
  pub raw : Text
  pub now : ℕ
  pub env : Environment
  pub exchange : Exchange

-- A player's name and a team.
abbrev pub Subject : Type 0
Subject = Text × Text

-- The cooldowns, the changes that passed them, and the messages that went to the server, the last
-- one first.
pub record TeamWorker : Type 0 where
  pub last_announced : List (Subject × ℕ)
  pub passed : List (Subject × ℕ)
  pub messages : List Text

abbrev pub new_team_worker : TeamWorker
new_team_worker = record { last_announced = []; passed = []; messages = [] }

-- An `OSError` of the socket is logged.
abbrev sent_or_logged : Outcome Text → Outcome Bool
sent_or_logged (returns reply) = returns true
sent_or_logged (raises os_error) = returns false
sent_or_logged (raises e) = raises e

-- `f'{command} "{escape_command_argument(message)}"'`
unfoldable pub say_command : Text → Text → Text
unfolding escape_command_argument
say_command command message =
    command ++ (b' ' ∷ (b'"' ∷ (escape_command_argument message ++ (b'"' ∷ []))))

module _ ⦃py : Python⦄ where
  -- An empty password counts as none.
  send_with : TeamConfig → TeamLine → Text → Option Text → Outcome Bool
  unfolding team_port send_rcon_command say_command
  send_with config l message none = returns false
  send_with config l message (some []) = returns false
  send_with config l message (some (c ∷ cs)) = team_port l.env >>= λ port. sent_or_logged (
      send_rcon_command l.exchange config.rcon_host port (c ∷ cs) config.rcon_timeout_seconds
        (say_command config.announce_command message))

  unfoldable pub send_change : TeamConfig → TeamLine → Text → Outcome Bool
  unfolding team_password send_with
  send_change config l message = team_password l.env >>= send_with config l message

  -- `last_announced[key] = now`, and the message behind it.
  unfoldable pub announce_change :
      TeamConfig → TeamLine → Subject → Text → TeamWorker → Outcome TeamWorker
  unfolding send_change set_time
  announce_change config l subject message s = send_change config l message >>= λ went.
      returns (record {
        last_announced = set_time subject l.now s.last_announced;
        passed = (subject, l.now) ∷ s.passed;
        messages = if went then message ∷ s.messages else s.messages;
      })

  unfoldable pub unless_cooling :
      TeamConfig → TeamLine → Subject → Option Text → TeamWorker → Outcome TeamWorker
  unfolding announce_change time_or_zero
  unless_cooling config l subject none s = returns s
  unless_cooling config l subject (some message) s =
      if ltb l.now
        (time_or_zero subject s.last_announced + to_micros config.min_seconds_between_announcements)
      then returns s
      else announce_change config l subject message s

  unfoldable pub on_team_change :
      TeamConfig → TeamLine → Option Change → TeamWorker → Outcome TeamWorker
  unfolding unless_cooling normalize_player_name change_message
  on_team_change config l none s = returns s
  on_team_change config l (some change) s =
      unless_cooling config l
        (normalize_player_name change.player, py.upper (strip change.new_team))
        (change_message change.player change.new_team) s

  unfoldable pub team_loop : TeamConfig → List TeamLine → TeamWorker → Outcome TeamWorker
  unfolding on_team_change parse_change_team
  team_loop config [] s = returns s
  team_loop config (l ∷ ls) s =
      on_team_change config l (parse_change_team l.raw) s >>= team_loop config ls

  -- The loop over the tails.
  unfoldable pub team_follow :
      TeamConfig → List (TailTurn TeamLine) → Follower TeamWorker → Outcome (Follower TeamWorker)
  unfolding follow team_loop team_tail_source
  team_follow config = follow (λ env. team_tail_source env config) (team_loop config)

abbrev pub is_team_enabled : TeamConfig → Bool
is_team_enabled config = config.enabled
