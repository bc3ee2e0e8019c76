-- ===== src/Announcer/Config.antt =====
-- `load_config` of bundled-addons/defaults/announcer.py and the readers that it calls.

use jedi_academy_pterodactyl.Prelude.{
  if◌then◌else◌, is_empty, ℤ, pos, Bool, true, ◌||◌, Option, none, some, List, [], ◌∷◌, ◌++◌,
}
use jedi_academy_pterodactyl.Text.{Text, codes, same, is_one_of, strip, starts_with}
use jedi_academy_pterodactyl.Config.{overlay, loaded_section, Environment}
use jedi_academy_pterodactyl.Scalars.{safe_bool, safe_int}
use jedi_academy_pterodactyl.Outcome.{raises, returns, key_error, Outcome, ◌>>=◌}
use jedi_academy_pterodactyl.Announcer.Schedule.{normalise_schedule, Entry}
use jedi_academy_pterodactyl.Python.Json.{
  list, str, null, nil, Items, bool, Json, cons, Python, int,
}
use jedi_academy_pterodactyl.Python.Dict.{get, Dict, get_or}
use jedi_academy_pterodactyl.Python.Convert.{str_or_empty, str_of}

abbrev pub default_fallback_messages : List Text
default_fallback_messages =
    codes "Welcome to this Jedi Academy server. Have fun and play fair!" ∷ []

abbrev pub default_log_path : Text
default_log_path = codes "/home/container/logs/bundled-python-announcer.log"

text_values : List Text → Items
text_values [] = nil
text_values (t ∷ ts) = cons (str t) (text_values ts)

abbrev pub default_config : Dict
unfolding text_values
default_config =
    (codes "enabled", bool true)
    ∷ (codes "startup_delay_seconds", int (pos 60))
    ∷ (codes "interval_seconds", int (pos 900))
    ∷ (codes "rcon_host", str (codes "127.0.0.1"))
    ∷ (codes "rcon_timeout_seconds", int (pos 3))
    ∷ (codes "announce_command", str (codes "svsay"))
    ∷ (codes "messages", list (text_values default_fallback_messages))
    ∷ (codes "log_file", str default_log_path)
    ∷ (codes "schedule", list nil)
    ∷ (codes "timezone", str (codes "local"))
    ∷ []

abbrev pub allowed_announce_commands : List Text
allowed_announce_commands = codes "svsay" ∷ codes "say" ∷ []

-- `resolve_sibling_path`; a path is the text that names it
unfoldable pub resolve_sibling_path : Text → Text → Text → Text
unfolding starts_with
resolve_sibling_path script_dir value fallback =
    if is_empty value
    then fallback
    else if starts_with value (codes "/")
    then value
    else script_dir ++ (b'/' ∷ value)

-- The fields of the loaded dict that the rest of the addon reads.
pub record AnnouncerConfig : Type 0 where
  pub enabled : Bool
  pub startup_delay_seconds : ℤ
  pub interval_seconds : ℤ
  pub rcon_timeout_seconds : ℤ
  pub announce_command : Text
  pub log_path : Text
  pub rcon_host : Text
  pub schedule : List Entry
  pub timezone : Option Text
  pub messages : List Text

-- `ZoneInfo(name)`: a zone that is not found is a `KeyError`, and other exceptions pass
zone_or_local : Text → Outcome (Unit {0}) → Outcome (Option Text)
zone_or_local name (returns u) = returns (some name)
zone_or_local name (raises key_error) = returns none
zone_or_local name (raises e) = raises e

module _ ⦃py : Python⦄ where
  unfoldable pub normalise_announce_command : Json → Text
  unfolding str_or_empty is_one_of
  normalise_announce_command value =
      let raw = py.lower (strip (str_or_empty value)) in
      if is_one_of raw allowed_announce_commands then raw else codes "svsay"

  -- `_resolve_timezone`; `none` is the local zone
  unfoldable pub resolve_timezone : (Text → Outcome (Unit {0})) → Json → Outcome (Option Text)
  unfolding str_or_empty same zone_or_local
  resolve_timezone zone_info raw =
      let name = strip (str_or_empty raw) in
      if is_empty name || same (py.lower name) (codes "local")
      then returns none
      else zone_or_local name (zone_info name)

  -- `[m for m in raw_messages if isinstance(m, str) and m.strip()]`
  valid_messages : Items → List Text
  valid_messages nil = []
  valid_messages (cons (str m) vs) =
      let rest = valid_messages vs in if is_empty (strip m) then rest else m ∷ rest
  valid_messages (cons v vs) = valid_messages vs

  or_fallback : List Text → List Text
  or_fallback [] = default_fallback_messages
  or_fallback ms = ms

  unfoldable pub messages_of : Option Json → List Text
  unfolding valid_messages or_fallback
  messages_of (some (list raw)) = or_fallback (valid_messages raw)
  messages_of v = or_fallback []

  abbrev or_localhost : Text → Text
  or_localhost [] = codes "127.0.0.1"
  or_localhost host = host

  -- The second half of `load_config`.
  unfoldable pub normalise_announcer :
      Text → (Text → Outcome (Unit {0})) → Dict → Outcome AnnouncerConfig
  normalise_announcer script_dir zone_info c =
      safe_int (get_or c (codes "startup_delay_seconds") null) (pos 60) (pos 0) >>= λ delay.
      safe_int (get_or c (codes "interval_seconds") null) (pos 900) (pos 30) >>= λ interval.
      safe_int (get_or c (codes "rcon_timeout_seconds") null) (pos 3) (pos 1) >>= λ timeout.
      normalise_schedule (get_or c (codes "schedule") (list nil)) >>= λ schedule.
      resolve_timezone zone_info (get_or c (codes "timezone") (str (codes "local"))) >>= λ zone.
      returns (record {
        enabled = safe_bool (get_or c (codes "enabled") (bool true)) true;
        startup_delay_seconds = delay;
        interval_seconds = interval;
        rcon_timeout_seconds = timeout;
        announce_command = normalise_announce_command (get_or c (codes "announce_command") null);
        log_path =
            resolve_sibling_path script_dir
              (str_of (get_or c (codes "log_file") (str default_log_path))) default_log_path;
        rcon_host =
            or_localhost (strip (str_of (get_or c (codes "rcon_host") (str (codes "127.0.0.1")))));
        schedule = schedule;
        timezone = zone;
        messages = messages_of (get c (codes "messages"));
      })

  unfoldable pub load_announcer_config :
      Text → (Text → Outcome (Unit {0})) → Environment → Outcome AnnouncerConfig
  load_announcer_config script_dir zone_info env =
      loaded_section env (codes "/home/container") (codes "announcer") >>= λ loaded.
      normalise_announcer script_dir zone_info (overlay default_config loaded)
