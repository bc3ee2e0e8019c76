-- ===== src/Guard/Enforce.antt =====
-- The enforcement of bundled-addons/examples/deprecated/50-rcon-live-guard.py: which commands it
-- sends.
use jedi_academy_pterodactyl.Prelude.{
  if◌then◌else◌, ℤ, pos, ℕ, Bool, true, false, Option, none, some, List, [], ◌∷◌, ◌++◌,
}
use jedi_academy_pterodactyl.Text.{Text, codes}
use jedi_academy_pterodactyl.Config.{Environment}
use jedi_academy_pterodactyl.Traced.{pure, of_outcome, Traced, ◌>=>◌}
use jedi_academy_pterodactyl.Format.{format_text}
use jedi_academy_pterodactyl.Outcome.{returns, os_error, Outcome, ◌>>=◌, raises}
use jedi_academy_pterodactyl.Python.Json.{field, int, Python, str, Fields, end}
use jedi_academy_pterodactyl.Guard.Runtime.{guard_port, guard_password}
use jedi_academy_pterodactyl.Guard.Address.{bare_ip}
use jedi_academy_pterodactyl.Guard.Config.{GuardConfig}
use jedi_academy_pterodactyl.Guard.Status.{find_player_slot_by_ip, parse_status_players, Player}
use jedi_academy_pterodactyl.Rcon.Quote.{escape_command_argument}
use jedi_academy_pterodactyl.Rcon.Packet.{Exchange, rcon_payload, read_reply}

-- What the sockets do with a command: whether one can be opened for it, and the exchange.
pub record Net : Type 0 where
  pub opens : Text → Bool
  pub exchange : Exchange

-- An `OSError` behind the opening of the socket counts as an empty reply.
absorbed : Outcome Text → Outcome Text
absorbed (raises os_error) = returns []
absorbed m = m

-- Both callers of the last two commands log an `OSError` and go on.
logged : Outcome Text → Outcome {0} Unit
logged (raises os_error) = returns tt
logged (raises e) = raises e
logged (returns s) = returns tt

-- `player_name if player_name else bare`
abbrev display_or : Text → Text → Text
display_or [] bare = bare
display_or name bare = name

-- What a status reply says of a source.
abbrev pub Target : Type 0
Target = Option Player

module _ ⦃py : Python⦄ where
  ask : Net → Text → ℤ → ℤ → Text → List ℕ → Traced Text
  unfolding absorbed read_reply
  ask net host port timeout command payload =
      if net.opens command
      then record {
        commands = command ∷ [];
        outcome =
            absorbed
              (net.exchange host port timeout payload >>= λ reply. returns (read_reply reply));
      }
      else of_outcome (raises os_error)

  unfoldable pub send_traced : Net → Text → ℤ → Text → ℤ → Text → Traced Text
  unfolding ask rcon_payload
  send_traced net host port password timeout command =
      of_outcome (rcon_payload password command) >=> ask net host port timeout command

  abbrev quietly : Traced Text → Traced {0} Unit
  quietly m = record { commands = m.commands; outcome = logged m.outcome }

  -- `parse_status_players(status_text) if status_text else []`
  unfoldable pub status_players : Text → List Player
  unfolding parse_status_players
  status_players [] = []
  status_players s = parse_status_players s

  unfoldable pub kick_command : GuardConfig → Player → Outcome Text
  unfolding format_text
  kick_command config p =
      format_text config.kick_command_template (field (codes "slot") (int (pos p.slot)) end)

  unfoldable pub broadcast_fields : Text → Player → Fields
  unfolding bare_ip escape_command_argument
  broadcast_fields source p =
      field (codes "player") (str (escape_command_argument (display_or p.name (bare_ip source))))
        (field (codes "slot") (int (pos p.slot)) (field (codes "ip") (str (bare_ip source)) end))

  unfoldable pub broadcast_of : GuardConfig → Text → Player → Outcome Text
  unfolding format_text broadcast_fields escape_command_argument
  broadcast_of config source p =
      format_text config.broadcast_template (broadcast_fields source p) >>= λ message. returns (
        config.broadcast_command
        ++ (b' ' ∷ (b'"' ∷ (escape_command_argument message ++ (b'"' ∷ [])))))

  unfoldable pub send_logged : Net → GuardConfig → ℤ → Text → Text → Traced {0} Unit
  unfolding send_traced logged
  send_logged net config port password command =
      quietly (send_traced net config.rcon_host port password config.rcon_timeout_seconds command)

  unfoldable pub kick : Net → GuardConfig → ℤ → Text → Player → Traced {0} Unit
  unfolding send_logged kick_command
  kick net config port password p =
      of_outcome (kick_command config p) >=> send_logged net config port password

  unfoldable pub broadcast : Net → GuardConfig → ℤ → Text → Text → Player → Traced {0} Unit
  unfolding send_logged broadcast_of
  broadcast net config port password source p =
      of_outcome (broadcast_of config source p) >=> send_logged net config port password

  unfoldable pub punish : Net → GuardConfig → ℤ → Text → Text → Player → Traced Bool
  unfolding kick broadcast
  punish net config port password source p =
      kick net config port password p
      >=> (λ _. broadcast net config port password source p)
      >=> (λ _. pure true)

  -- A source that is not a connected player is left alone.
  unfoldable pub punish_found : Net → GuardConfig → ℤ → Text → Text → Target → Traced Bool
  unfolding punish
  punish_found net config port password source none = pure false
  punish_found net config port password source (some p) = punish net config port password source p

  unfoldable pub ask_status : Net → GuardConfig → ℤ → Text → Traced Text
  unfolding send_traced
  ask_status net config port password =
      send_traced net config.rcon_host port password config.rcon_timeout_seconds (codes "status")

  unfoldable pub enforce_with : Net → GuardConfig → Text → ℤ → Text → Traced Bool
  unfolding punish_found ask_status status_players find_player_slot_by_ip
  enforce_with net config source port password =
      ask_status net config port password >=> (λ status_text.
        punish_found net config port password source
          (find_player_slot_by_ip (status_players status_text) source))

  -- `if not password` also takes an empty password.
  with_password : Environment → Net → GuardConfig → Text → Option Text → Traced Bool
  unfolding enforce_with guard_port
  with_password env net config source none = pure false
  with_password env net config source (some []) = pure false
  with_password env net config source (some (c ∷ cs)) =
      of_outcome (guard_port env) >=> (λ port. enforce_with net config source port (c ∷ cs))

  unfoldable pub enforce_rcon_attempt : Environment → Net → GuardConfig → Text → Traced Bool
  unfolding with_password guard_password
  enforce_rcon_attempt env net config source =
      of_outcome (guard_password env) >=> with_password env net config source
