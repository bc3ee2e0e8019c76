-- ===== src/Live/Config.antt =====
-- The configuration of bundled-addons/defaults/live-team-announcer.py.

use jedi_academy_pterodactyl.Prelude.{if◌then◌else◌, ℤ, pos, Bool, false, List, [], ◌∷◌, ◌++◌}
use jedi_academy_pterodactyl.Text.{Text, codes, is_one_of, strip}
use jedi_academy_pterodactyl.Config.{Environment, loaded_section, overlay, getenv_or}
use jedi_academy_pterodactyl.Scalars.{safe_bool, safe_int}
use jedi_academy_pterodactyl.Outcome.{◌>>=◌, returns, Outcome}
use jedi_academy_pterodactyl.Python.Json.{str, bool, null, Python, int}
use jedi_academy_pterodactyl.Python.Dict.{Dict, get_or}
use jedi_academy_pterodactyl.Python.Convert.{str_of}

-- `HOME_DIR`
abbrev pub live_home : Environment → Text
live_home env = getenv_or env (codes "JKA_LIVE_TEAM_ANNOUNCER_HOME") (codes "/home/container")

abbrev live_defaults : Text → Dict
live_defaults home =
    (codes "enabled", bool false)
    ∷ (codes "rcon_host", str (codes "127.0.0.1"))
    ∷ (codes "rcon_timeout_seconds", int (pos 3))
    ∷ (codes "announce_command", str (codes "svsay"))
    ∷ (codes "log_file", str (home ++ codes "/logs/bundled-live-team-announcer.log"))
    ∷ (codes "min_seconds_between_announcements", int (pos 3))
    ∷ []

abbrev pub live_commands : List Text
live_commands = codes "svsay" ∷ codes "say" ∷ []

-- The fields of the configuration that the addon reads.
pub record LiveConfig : Type 0 where
  pub enabled : Bool
  pub rcon_timeout_seconds : ℤ
  pub min_seconds_between_announcements : ℤ
  pub announce_command : Text
  pub rcon_host : Text

abbrev localhost_if_empty : Text → Text
localhost_if_empty [] = codes "127.0.0.1"
localhost_if_empty host = host

-- `raw_command`, or `svsay` where it is not allowed
unfoldable pub command_or_svsay : Text → Text
unfolding is_one_of
command_or_svsay raw_command =
    if is_one_of raw_command live_commands then raw_command else codes "svsay"

module _ ⦃py : Python⦄ where
  unfoldable pub normalise_live : Dict → Outcome LiveConfig
  unfolding safe_int safe_bool get_or str_of command_or_svsay
  normalise_live c =
      safe_int (get_or c (codes "rcon_timeout_seconds") null) (pos 3) (pos 1) >>= λ timeout.
      safe_int (get_or c (codes "min_seconds_between_announcements") null) (pos 3) (pos 0)
      >>= λ cooldown. returns (record {
        enabled = safe_bool (get_or c (codes "enabled") (bool false)) false;
        rcon_timeout_seconds = timeout;
        min_seconds_between_announcements = cooldown;
        announce_command =
            command_or_svsay (
              py.lower
                (strip (str_of (get_or c (codes "announce_command") (str (codes "svsay"))))));
        rcon_host =
            localhost_if_empty
              (strip (str_of (get_or c (codes "rcon_host") (str (codes "127.0.0.1")))));
      })

  unfoldable pub load_live_config : Environment → Outcome LiveConfig
  unfolding normalise_live loaded_section overlay
  load_live_config env =
      loaded_section env (live_home env) (codes "live_team_announcer") >>= λ loaded.
      normalise_live (overlay (live_defaults (live_home env)) loaded)
