-- ===== src/Team/Config.antt =====
-- The configuration and the runtime state of
-- bundled-addons/examples/deprecated/20-live-team-announcer.py.
use jedi_academy_pterodactyl.Prelude.{ℤ, pos, Bool, true, Option, [], ◌∷◌}
use jedi_academy_pterodactyl.Text.{Text, codes, strip}
use jedi_academy_pterodactyl.Config.{Environment, overlay, load_own_file}
use jedi_academy_pterodactyl.Scalars.{safe_int, safe_bool}
use jedi_academy_pterodactyl.Outcome.{Outcome, ◌>>=◌, returns}
use jedi_academy_pterodactyl.Python.Json.{bool, null, str, Python, int}
use jedi_academy_pterodactyl.Python.Dict.{Dict, get_or}
use jedi_academy_pterodactyl.Python.Convert.{str_of}
use jedi_academy_pterodactyl.Daemon.Lines.{none_if_empty}
use jedi_academy_pterodactyl.Runtime.Tracked.{load_tracked, text_of, shlex_value, env_file}
use jedi_academy_pterodactyl.Guard.Runtime.{
  choose_source, server_port_key, direct_or_file, six_keys, port_or_default, Source,
  rcon_password_key,
}
use jedi_academy_pterodactyl.Guard.Config.{text_or, say_or_svsay}

abbrev team_defaults : Dict
team_defaults =
    (codes "enabled", bool true)
    ∷ (codes "rcon_host", str (codes "127.0.0.1"))
    ∷ (codes "rcon_timeout_seconds", int (pos 3))
    ∷ (codes "announce_command", str (codes "svsay"))
    ∷ (codes "log_file", str (codes "/home/container/logs/bundled-live-team-announcer.log"))
    ∷ (codes "fallback_to_server_log", bool true)
    ∷ (codes "min_seconds_between_announcements", int (pos 3))
    ∷ []

pub record TeamConfig : Type 0 where
  pub enabled : Bool
  pub rcon_timeout_seconds : ℤ
  pub min_seconds_between_announcements : ℤ
  pub announce_command : Text
  pub rcon_host : Text
  pub fallback_to_server_log : Bool

module _ ⦃py : Python⦄ where
  unfoldable pub normalise_team : Dict → Outcome TeamConfig
  unfolding safe_int safe_bool get_or str_of say_or_svsay
  normalise_team c =
      safe_int (get_or c (codes "rcon_timeout_seconds") null) (pos 3) (pos 1) >>= λ timeout.
      safe_int (get_or c (codes "min_seconds_between_announcements") null) (pos 3) (pos 0)
      >>= λ cooldown. returns (record {
        enabled = safe_bool (get_or c (codes "enabled") (bool true)) true;
        rcon_timeout_seconds = timeout;
        min_seconds_between_announcements = cooldown;
        announce_command =
            say_or_svsay (
              py.lower
                (strip (str_of (get_or c (codes "announce_command") (str (codes "svsay"))))));
        rcon_host =
            text_or (strip (str_of (get_or c (codes "rcon_host") (str (codes "127.0.0.1")))))
              (codes "127.0.0.1");
        fallback_to_server_log =
            safe_bool (get_or c (codes "fallback_to_server_log") (bool true)) true;
      })

  -- The first argument is `CONFIG_PATH`, the script's path with the suffix ".config.json".
  unfoldable pub load_team_config : Text → Environment → Outcome TeamConfig
  unfolding normalise_team load_own_file overlay
  load_team_config config_path env =
      load_own_file env config_path >>= λ loaded. normalise_team (overlay team_defaults loaded)

  unfoldable pub team_runtime_env : Environment → Outcome Dict
  unfolding load_tracked shlex_value
  team_runtime_env env = load_tracked six_keys shlex_value env (env_file (codes "/home/container"))

  unfoldable pub team_tail_source : Environment → TeamConfig → Outcome (Option Source)
  unfolding team_runtime_env choose_source
  team_tail_source env config = team_runtime_env env >>= λ runtime.
      returns (choose_source runtime config.fallback_to_server_log)

  unfoldable pub team_password : Environment → Outcome (Option Text)
  unfolding team_runtime_env direct_or_file text_of
  team_password env = team_runtime_env env >>= λ runtime.
      direct_or_file env runtime (text_of runtime rcon_password_key)

  -- The text at a key, where it is not empty.
  given_at : Dict → Text → Option Text
  unfolding str_of get_or
  given_at runtime key = none_if_empty (str_of (get_or runtime key (str [])))

  unfoldable pub team_port : Environment → Outcome ℤ
  unfolding team_runtime_env port_or_default given_at
  team_port env =
      team_runtime_env env >>= λ runtime. port_or_default env (given_at runtime server_port_key)
