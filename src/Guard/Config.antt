-- ===== src/Guard/Config.antt =====
-- The configuration of bundled-addons/examples/deprecated/50-rcon-live-guard.py.
use jedi_academy_pterodactyl.Prelude.{
  if◌then◌else◌, ℤ, pos, Bool, true, Option, none, some, List, [], ◌∷◌,
}
use jedi_academy_pterodactyl.Text.{Text, codes, is_one_of, strip}
use jedi_academy_pterodactyl.Config.{overlay, load_own_file, Environment}
use jedi_academy_pterodactyl.Scalars.{safe_int, safe_bool}
use jedi_academy_pterodactyl.Outcome.{returns, ◌>>=◌, Outcome}
use jedi_academy_pterodactyl.Python.Json.{
  Python, Json, null, list, bool, int, Items, str, nil, cons,
}
use jedi_academy_pterodactyl.Python.Dict.{Dict, get_or}
use jedi_academy_pterodactyl.Python.Convert.{str_of, truthy}

-- A compiled pattern: whether it has the named groups, and what a search finds, with the two
-- groups, of which each may have taken no part in the match.
pub record Pattern : Type 0 where
  pub has_ip : Bool
  pub has_command : Bool
  pub find : Text → Option (Option Text × Option Text)

-- `re.compile(raw, re.IGNORECASE)`, where `none` is an `re.error`
abbrev pub Compiler : Type 0
Compiler = Text → Option Pattern

abbrev pub guard_config_path : Text
guard_config_path = codes "/home/container/addons/50-rcon-live-guard.config.json"

abbrev pub default_rcon_patterns : List Text
default_rcon_patterns =
    codes "Bad rcon from (?P<ip>[^\\s:]+(?::\\d+)?):\\s*(?P<command>.*)"
    ∷ codes "bad rconpassword from (?P<ip>[^\\s:]+(?::\\d+)?)"
    ∷ codes "Rcon from (?P<ip>[^\\s:]+(?::\\d+)?):\\s*(?P<command>.*)"
    ∷ codes "rcon from (?P<ip>[^\\s:]+(?::\\d+)?):\\s*(?P<command>.*)"
    ∷ codes "remote command from (?P<ip>[^\\s:]+(?::\\d+)?)"
    ∷ []

abbrev pub default_ignore_ip_hosts : List Text
default_ignore_ip_hosts = codes "127.0.0.1" ∷ codes "::1" ∷ codes "localhost" ∷ []

abbrev strings : List Text → Items
strings [] = nil
strings (s ∷ ss) = cons (str s) (strings ss)

abbrev pub default_broadcast : Text
default_broadcast = codes "^1{player} was kicked for attempting to access server RCON."

abbrev pub guard_defaults : Dict
guard_defaults =
    (codes "enabled", bool true)
    ∷ (codes "rcon_host", str (codes "127.0.0.1"))
    ∷ (codes "rcon_timeout_seconds", int (pos 3))
    ∷ (codes "broadcast_command", str (codes "svsay"))
    ∷ (codes "kick_command_template", str (codes "clientkick {slot}"))
    ∷ (codes "broadcast_template", str default_broadcast)
    ∷ (codes "log_file", str (codes "/home/container/logs/live-rcon-guard.log"))
    ∷ (codes "fallback_to_server_log", bool true)
    ∷ (codes "ignore_ip_hosts", list (strings default_ignore_ip_hosts))
    ∷ (codes "rcon_attempt_patterns", list (strings default_rcon_patterns))
    ∷ (codes "min_seconds_between_actions", int (pos 10))
    ∷ []

-- The fields of the configuration that the addon reads.
pub record GuardConfig : Type 0 where
  pub enabled : Bool
  pub rcon_host : Text
  pub rcon_timeout_seconds : ℤ
  pub fallback_to_server_log : Bool
  pub log_file : Text
  pub min_seconds_between_actions : ℤ
  pub broadcast_command : Text
  pub kick_command_template : Text
  pub broadcast_template : Text
  pub ignore_ip_hosts : List Text
  pub compiled_patterns : List Pattern

-- `text or default`
abbrev pub text_or : Text → Text → Text
text_or [] default = default
text_or s default = s

unfoldable pub say_or_svsay : Text → Text
unfolding is_one_of
say_or_svsay command =
    if is_one_of command (codes "say" ∷ codes "svsay" ∷ []) then command else codes "svsay"

-- A pattern that compiles and has the group `ip`.
unfoldable pub usable : Option Pattern → Option Pattern
usable none = none
usable (some p) = if p.has_ip then some p else none

unfoldable pub append_usable : Option Pattern → List Pattern → List Pattern
append_usable none ps = ps
append_usable (some p) ps = p ∷ ps

unfoldable pub compile_patterns : Compiler → Items → List Pattern
unfolding usable append_usable
compile_patterns compile nil = []
compile_patterns compile (cons (str raw) rest) =
    append_usable (usable (compile raw)) (compile_patterns compile rest)
compile_patterns compile (cons v rest) = compile_patterns compile rest

abbrev list_or : Json → Items → Items
list_or (list items) default = items
list_or v default = default

-- An empty list counts as missing.
abbrev full_list_or : Json → Items → Items
full_list_or (list (cons v vs)) default = cons v vs
full_list_or v default = default

module _ ⦃py : Python⦄ where
  -- `[str(h).strip().lower() for h in raw_ignore if h]`
  ignored_hosts : Items → List Text
  unfolding truthy str_of
  ignored_hosts nil = []
  ignored_hosts (cons v vs) =
      let rest = ignored_hosts vs in if truthy v then py.lower (strip (str_of v)) ∷ rest else rest

  unfoldable pub stripped_or : Dict → Text → Text → Text
  unfolding str_of get_or
  stripped_or c key default = text_or (strip (str_of (get_or c (key) (str default)))) default

  unfoldable pub patterns_of : Dict → Items
  unfolding get_or
  patterns_of c =
      full_list_or (get_or c (codes "rcon_attempt_patterns") (list (strings default_rcon_patterns)))
        (strings default_rcon_patterns)

  unfoldable pub normalise_guard : Compiler → Dict → Outcome GuardConfig
  unfolding safe_int safe_bool get_or str_of stripped_or say_or_svsay ignored_hosts patterns_of
      compile_patterns
  normalise_guard compile c =
      safe_int (get_or c (codes "rcon_timeout_seconds") null) (pos 3) (pos 1) >>= λ timeout.
      safe_int (get_or c (codes "min_seconds_between_actions") null) (pos 10) (pos 0) >>= λ gap.
      returns (record {
        enabled = safe_bool (get_or c (codes "enabled") (bool true)) true;
        rcon_host = stripped_or c (codes "rcon_host") (codes "127.0.0.1");
        rcon_timeout_seconds = timeout;
        fallback_to_server_log =
            safe_bool (get_or c (codes "fallback_to_server_log") (bool true)) true;
        log_file =
            stripped_or c (codes "log_file") (codes "/home/container/logs/live-rcon-guard.log");
        min_seconds_between_actions = gap;
        broadcast_command = say_or_svsay (
            py.lower (strip (str_of (get_or c (codes "broadcast_command") (str (codes "svsay"))))));
        kick_command_template =
            stripped_or c (codes "kick_command_template") (codes "clientkick {slot}");
        broadcast_template =
            strip (str_of (get_or c (codes "broadcast_template") (str default_broadcast)));
        ignore_ip_hosts = ignored_hosts (
            list_or (get_or c (codes "ignore_ip_hosts") (list (strings default_ignore_ip_hosts)))
              (strings default_ignore_ip_hosts));
        compiled_patterns = compile_patterns compile (patterns_of c);
      })

  unfoldable pub load_guard_config : Compiler → Environment → Outcome GuardConfig
  unfolding normalise_guard load_own_file overlay
  load_guard_config compile env = load_own_file env guard_config_path >>= λ loaded.
      normalise_guard compile (overlay guard_defaults loaded)
