-- ===== src/Guard/Runtime.antt =====
-- The runtime state that bundled-addons/examples/deprecated/50-rcon-live-guard.py reads, and the
-- file that it follows.
use jedi_academy_pterodactyl.Prelude.{
  ℤ, pos, Bool, true, false, Option, none, some, List, [], ◌∷◌, ◌++◌,
}
use jedi_academy_pterodactyl.Text.{Text, codes, same, strip}
use jedi_academy_pterodactyl.Config.{getenv_or, Environment}
use jedi_academy_pterodactyl.Scalars.{safe_int}
use jedi_academy_pterodactyl.Outcome.{◌>>=◌, returns, Outcome}
use jedi_academy_pterodactyl.Python.Json.{Python, str}
use jedi_academy_pterodactyl.Python.Dict.{Dict}
use jedi_academy_pterodactyl.Runtime.Password.{extract_rcon_password}
use jedi_academy_pterodactyl.Runtime.Tracked.{
  first_of, text_of, load_tracked, strip_quotes, env_file,
}
use jedi_academy_pterodactyl.Guard.Config.{text_or}

abbrev pub config_key : Text
config_key = codes "TAYSTJK_ACTIVE_SERVER_CONFIG_PATH"

abbrev pub log_key : Text
log_key = codes "TAYSTJK_ACTIVE_SERVER_LOG_PATH"

abbrev pub server_port_key : Text
server_port_key = codes "TAYSTJK_EFFECTIVE_SERVER_PORT"

abbrev pub rcon_password_key : Text
rcon_password_key = codes "TAYSTJK_EFFECTIVE_SERVER_RCON_PASSWORD"

abbrev pub live_enabled_key : Text
live_enabled_key = codes "TAYSTJK_LIVE_OUTPUT_ENABLED"

abbrev pub live_path_key : Text
live_path_key = codes "TAYSTJK_LIVE_OUTPUT_PATH"

abbrev pub six_keys : List Text
six_keys =
    config_key ∷ log_key ∷ server_port_key ∷ rcon_password_key ∷ live_enabled_key ∷ live_path_key
    ∷ []

-- Where a tail comes from.
pub data Source : Type 0 where
  live_output server_log : Text → Source

-- The text, where it is not empty.
abbrev given : Text → Option Text
given [] = none
given s = some s

module _ ⦃py : Python⦄ where
  -- Unbalanced quotes leave the text without the quotes at its ends.
  lenient_value : Text → Outcome (Option Text)
  unfolding strip_quotes
  lenient_value raw_value = elim (py.shlex_split raw_value) [
    | none ↦ returns (some (strip_quotes raw_value))
    | some ts ↦ returns (first_of ts)
  ]

  unfoldable pub guard_runtime_env : Environment → Outcome Dict
  unfolding load_tracked lenient_value
  guard_runtime_env env =
      load_tracked six_keys lenient_value env (env_file (codes "/home/container"))

  fallback_source : Bool → Text → Option Source
  fallback_source false path = none
  fallback_source true [] = none
  fallback_source true path = some (server_log path)

  source_of : Bool → Text → Text → Bool → Option Source
  unfolding fallback_source
  source_of true (c ∷ cs) log_path fallback = some (live_output (c ∷ cs))
  source_of enabled live_path log_path fallback = fallback_source fallback log_path

  -- The choice of `preferred_tail_source` for a runtime state, which the retired addons share.
  unfoldable pub choose_source : Dict → Bool → Option Source
  unfolding source_of text_of same
  choose_source runtime fallback =
      source_of (same (py.lower (text_of runtime live_enabled_key)) (codes "true"))
        (text_of runtime live_path_key) (text_of runtime log_key) fallback

  unfoldable pub guard_tail_source : Environment → Bool → Outcome (Option Source)
  unfolding guard_runtime_env choose_source
  guard_tail_source env fallback =
      guard_runtime_env env >>= λ runtime. returns (choose_source runtime fallback)

  -- `os.getenv(name, default).strip() or default`
  getenv_stripped : Environment → Text → Text → Text
  unfolding getenv_or
  getenv_stripped env name default = text_or (strip (getenv_or env name default)) default

  -- The server configuration that the state names, or that the mod directory holds.
  unfoldable pub config_path_of : Environment → Dict → Text
  unfolding text_of getenv_stripped
  config_path_of env runtime = text_or (text_of runtime config_key) (
      codes "/home/container/"
      ++ (getenv_stripped env (codes "FS_GAME_MOD") (codes "taystjk")
          ++ (b'/' ∷ getenv_stripped env (codes "SERVER_CONFIG") (codes "server.cfg"))))

  unfoldable pub direct_or_file : Environment → Dict → Text → Outcome (Option Text)
  unfolding config_path_of
  direct_or_file env runtime [] = extract_rcon_password env (config_path_of env runtime)
  direct_or_file env runtime direct = returns (some direct)

  unfoldable pub guard_password : Environment → Outcome (Option Text)
  unfolding guard_runtime_env direct_or_file text_of
  guard_password env = guard_runtime_env env >>= λ runtime.
      direct_or_file env runtime (text_of runtime rcon_password_key)

  unfoldable pub port_or_default : Environment → Option Text → Outcome ℤ
  unfolding getenv_or
  port_or_default env none =
      safe_int (str (getenv_or env (codes "SERVER_PORT") (codes "29070"))) (pos 29070) (pos 1)
  port_or_default env (some raw) = safe_int (str raw) (pos 29070) (pos 1)

  unfoldable pub guard_port : Environment → Outcome ℤ
  unfolding guard_runtime_env port_or_default text_of
  guard_port env = guard_runtime_env env >>= λ runtime.
      port_or_default env (given (text_of runtime server_port_key))
