-- ===== src/Runtime/Env.antt =====
-- `load_runtime_env` of bundled-addons/defaults/match-announcer.py and live-team-announcer.py, and
-- the functions over its result.
use jedi_academy_pterodactyl.Prelude.{if◌then◌else◌, ℤ, pos, Option, none, some, List, [], ◌∷◌, ℕ}
use jedi_academy_pterodactyl.Text.{Text, codes, strip}
use jedi_academy_pterodactyl.Config.{Environment, getenv_or}
use jedi_academy_pterodactyl.Scalars.{safe_int}
use jedi_academy_pterodactyl.Outcome.{Outcome, ◌>>=◌, returns}
use jedi_academy_pterodactyl.Python.Json.{str, null, Python}
use jedi_academy_pterodactyl.Python.Dict.{get_or, Dict}
use jedi_academy_pterodactyl.Python.Convert.{str_of, truthy}
use jedi_academy_pterodactyl.Runtime.Password.{extract_rcon_password}
use jedi_academy_pterodactyl.Rcon.Packet.{rcon_payload, Exchange}
use jedi_academy_pterodactyl.Runtime.Tracked.{env_file, load_tracked, shlex_value}

abbrev server_config : Text
server_config = codes "TAYSTJK_ACTIVE_SERVER_CONFIG_PATH"

abbrev server_port : Text
server_port = codes "TAYSTJK_EFFECTIVE_SERVER_PORT"

abbrev server_password : Text
server_password = codes "TAYSTJK_EFFECTIVE_SERVER_RCON_PASSWORD"

-- `tracked`
abbrev tracked : List Text
tracked = server_config ∷ server_port ∷ server_password ∷ []

module _ ⦃py : Python⦄ where
  -- `home` is `HOME_DIR`.
  unfoldable pub load_runtime_env : Environment → Text → Outcome Dict
  unfolding load_tracked shlex_value
  load_runtime_env env home = load_tracked tracked shlex_value env (env_file home)

  -- `if config_path: return extract_rcon_password_from_config(Path(config_path))`
  password_from : Environment → Text → Text → Outcome (Option Text)
  password_from env [] [] = returns none
  password_from env [] config_path = extract_rcon_password env config_path
  password_from env direct config_path = returns (some direct)

  unfoldable pub rcon_password : Environment → Text → Outcome (Option Text)
  unfolding password_from
  rcon_password env home = load_runtime_env env home >>= λ runtime.
      password_from env (strip (str_of (get_or runtime server_password (str []))))
        (strip (str_of (get_or runtime server_config (str []))))

  unfoldable pub server_port_of : Environment → Text → Outcome ℤ
  unfolding truthy
  server_port_of env home = load_runtime_env env home >>= λ runtime.
      if truthy (get_or runtime server_port null)
      then safe_int (get_or runtime server_port null) (pos 29070) (pos 1)
      else safe_int (str (getenv_or env (codes "SERVER_PORT") (codes "29070"))) (pos 29070) (pos 1)

  -- `send_rcon_command` of these two addons, which leaves the reply unread
  unfoldable pub send_quietly : Exchange → Text → ℤ → Text → ℤ → Text → Outcome (Option (List ℕ))
  unfolding rcon_payload
  send_quietly exchange host port password timeout command =
      rcon_payload password command >>= λ payload. exchange host port timeout payload
