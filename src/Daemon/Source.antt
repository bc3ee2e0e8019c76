-- ===== src/Daemon/Source.antt =====
-- The runtime state and the file that bundled-addons/examples/deprecated/40-chatlogger.py follows.
use jedi_academy_pterodactyl.Prelude.{Bool, true, false, Option, none, some, List, [], ◌∷◌, ◌++◌}
use jedi_academy_pterodactyl.Text.{Text, codes, same}
use jedi_academy_pterodactyl.Config.{Environment}
use jedi_academy_pterodactyl.Outcome.{◌>>=◌, returns, Outcome}
use jedi_academy_pterodactyl.Python.Json.{Python}
use jedi_academy_pterodactyl.Python.Dict.{Dict}
use jedi_academy_pterodactyl.Runtime.Tracked.{text_of, load_tracked, strip_quotes, env_file}
use jedi_academy_pterodactyl.Guard.Runtime.{
  Source, live_enabled_key, server_log, log_key, live_output, live_path_key,
}
use jedi_academy_pterodactyl.Guard.Config.{text_or}

abbrev mod_dir_key : Text
mod_dir_key = codes "TAYSTJK_ACTIVE_MOD_DIR"

abbrev daemon_keys : List Text
daemon_keys = mod_dir_key ∷ log_key ∷ live_enabled_key ∷ live_path_key ∷ []

module _ ⦃py : Python⦄ where
  unquoted_value : Text → Outcome (Option Text)
  unfolding strip_quotes
  unquoted_value raw_value = returns (some (strip_quotes raw_value))

  unfoldable pub daemon_runtime_env : Environment → Outcome Dict
  unfolding load_tracked unquoted_value
  daemon_runtime_env env =
      load_tracked daemon_keys unquoted_value env (env_file (codes "/home/container"))

  unfoldable pub active_mod_dir : Environment → Outcome Text
  unfolding daemon_runtime_env text_of
  active_mod_dir env = daemon_runtime_env env >>= λ runtime.
      returns (text_or (text_of runtime mod_dir_key) (codes "taystjk"))

  log_path_or : Environment → Text → Outcome Text
  unfolding active_mod_dir
  log_path_or env [] = active_mod_dir env >>= λ dir.
      returns (codes "/home/container/" ++ (dir ++ codes "/server.log"))
  log_path_or env path = returns path

  unfoldable pub active_server_log_path : Environment → Outcome Text
  unfolding daemon_runtime_env log_path_or text_of
  active_server_log_path env =
      daemon_runtime_env env >>= λ runtime. log_path_or env (text_of runtime log_key)

  -- The path, where the mirror is enabled and the path is not empty.
  live_path : Bool → Text → Option Text
  live_path false path = none
  live_path true [] = none
  live_path true path = some path

  unfoldable pub live_output_path : Environment → Outcome (Option Text)
  unfolding daemon_runtime_env live_path text_of same
  live_output_path env = daemon_runtime_env env >>= λ runtime. returns (
      live_path (same (py.lower (text_of runtime live_enabled_key)) (codes "true"))
        (text_of runtime live_path_key))

  live_or_log : Environment → Option Text → Outcome Source
  unfolding active_server_log_path
  live_or_log env (some path) = returns (live_output path)
  live_or_log env none = active_server_log_path env >>= λ path. returns (server_log path)

  unfoldable pub daemon_tail_source : Environment → Outcome Source
  unfolding live_output_path live_or_log
  daemon_tail_source env = live_output_path env >>= λ live. live_or_log env live
