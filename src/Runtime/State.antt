-- ===== src/Runtime/State.antt =====
-- `load_runtime_state` of bundled-addons/defaults/announcer.py and the functions over its result.

use jedi_academy_pterodactyl.Prelude.{
  if◌then◌else◌, ℤ, pos, Option, none, some, List, [], ◌∷◌, ◌++◌,
}
use jedi_academy_pterodactyl.Text.{Text, codes, same, strip, split_once, splitlines}
use jedi_academy_pterodactyl.Config.{getenv_or, Environment}
use jedi_academy_pterodactyl.Scalars.{safe_int}
use jedi_academy_pterodactyl.Outcome.{raises, Outcome, ◌>>=◌, value_error, returns, os_error}
use jedi_academy_pterodactyl.Python.Json.{str, null, Json, Fields, Python, dict}
use jedi_academy_pterodactyl.Python.Dict.{get_or, get, Dict, put, field_of}
use jedi_academy_pterodactyl.Python.Convert.{truthy, str_of}
use jedi_academy_pterodactyl.Runtime.Password.{extract_rcon_password}

abbrev pub path_key : Text
path_key = codes "active_server_config_path"

abbrev pub port_key : Text
port_key = codes "effective_server_port"

abbrev pub password_key : Text
password_key = codes "effective_server_rcon_password"

-- `env_key_map`
abbrev pub env_key_map : List (Text × Text)
env_key_map =
    (codes "TAYSTJK_ACTIVE_SERVER_CONFIG_PATH", path_key)
    ∷ (codes "TAYSTJK_EFFECTIVE_SERVER_PORT", port_key)
    ∷ (codes "TAYSTJK_EFFECTIVE_SERVER_RCON_PASSWORD", password_key)
    ∷ []

mapped : List (Text × Text) → Text → Option Text
unfolding same
mapped [] key = none
mapped ((k, v) ∷ rest) key = if same k key then some v else mapped rest key

-- `d.setdefault(key, value)`
unfoldable pub setdefault : Dict → Text → Json → Dict
unfolding get put
setdefault d key value = elim (get d key) [ some v ↦ d | none ↦ put d key value ]

set_from : Option Text → Text → Dict → Dict
unfolding put
set_from none key state = state
set_from (some []) key state = state
set_from (some value) key state = put state key (str (strip value))

from_variables : Environment → List (Text × Text) → Dict → Dict
unfolding set_from
from_variables env [] state = state
from_variables env ((variable, key) ∷ rest) state =
    from_variables env rest (set_from (env.getenv variable) key state)

first_token : List Text → Text
first_token [] = []
first_token (t ∷ ts) = t

-- `if key not in state and key in loaded: state[key] = loaded[key]`
unfoldable pub fill_from : Fields → Text → Dict → Dict
unfolding setdefault field_of
fill_from loaded key state = elim (field_of loaded key) [
  | none ↦ state
  | some v ↦ setdefault state key v
]

merge_loaded : Option Json → Dict → Dict
unfolding fill_from
merge_loaded (some (dict loaded)) state =
    fill_from loaded port_key (fill_from loaded path_key state)
merge_loaded v state = state

abbrev or_text : Text → Text → Text
or_text [] b = b
or_text a b = a

module _ ⦃py : Python⦄ where
  assign : Option Text → Option (List Text) → Dict → Outcome Dict
  unfolding first_token setdefault
  assign none tokens state = returns state
  assign (some key) none state = raises value_error
  assign (some key) (some tokens) state = returns (setdefault state key (str (first_token tokens)))

  on_pair : Option (Text × Text) → Dict → Outcome Dict
  unfolding assign mapped
  on_pair none state = returns state
  on_pair (some (key, raw_value)) state =
      assign (mapped env_key_map (strip key)) (py.shlex_split raw_value) state

  from_lines : List Text → Dict → Outcome Dict
  unfolding on_pair
  from_lines [] state = returns state
  from_lines (l ∷ ls) state =
      on_pair (split_once b'=' (strip l)) state >>= λ state'. from_lines ls state'

  from_env_file : Outcome Text → Dict → Outcome Dict
  unfolding from_lines
  from_env_file (returns content) state = from_lines (splitlines content) state
  from_env_file (raises os_error) state = returns state
  from_env_file (raises e) state = raises e

  from_state_file : Outcome Text → Dict → Outcome Dict
  unfolding merge_loaded
  from_state_file (returns content) state = returns (merge_loaded (py.json_loads content) state)
  from_state_file (raises os_error) state = returns state
  from_state_file (raises e) state = raises e

  abbrev pub runtime_env_path : Text
  runtime_env_path = codes "/home/container/.runtime/taystjk-effective.env"

  abbrev pub runtime_state_path : Text
  runtime_state_path = codes "/home/container/.runtime/taystjk-effective.json"

  unfoldable pub load_runtime_state : Environment → Outcome Dict
  unfolding from_variables from_env_file from_state_file
  load_runtime_state env =
      (if env.is_file runtime_env_path
        then from_env_file (env.read_text runtime_env_path) (from_variables env env_key_map [])
        else returns (from_variables env env_key_map []))
      >>= λ state.
          if env.is_file runtime_state_path
          then from_state_file (env.read_text runtime_state_path) state
          else returns state

  -- `os.getenv(name, default).strip() or default`
  stripped_or : Environment → Text → Text → Text
  stripped_or env name default = or_text (strip (getenv_or env name default)) default

  unfoldable pub active_server_config_path : Environment → Outcome Text
  unfolding stripped_or
  active_server_config_path env = load_runtime_state env >>= λ state. returns (
      or_text (strip (str_of (get_or state path_key (str [])))) (
        codes "/home/container/"
        ++ (stripped_or env (codes "FS_GAME_MOD") (codes "taystjk")
            ++ (b'/' ∷ stripped_or env (codes "SERVER_CONFIG") (codes "server.cfg")))))

  unfoldable pub current_server_port : Environment → Outcome ℤ
  unfolding truthy
  current_server_port env = load_runtime_state env >>= λ state.
      if truthy (get_or state port_key null)
      then safe_int (get_or state port_key null) (pos 29070) (pos 1)
      else safe_int (str (getenv_or env (codes "SERVER_PORT") (codes "29070"))) (pos 29070) (pos 1)

  password_or_file : Environment → Text → Text → Outcome (Option Text)
  password_or_file env [] config_path = extract_rcon_password env config_path
  password_or_file env runtime_password config_path = returns (some runtime_password)

  unfoldable pub effective_rcon_password : Environment → Text → Outcome (Option Text)
  unfolding password_or_file
  effective_rcon_password env config_path = load_runtime_state env >>= λ state.
      password_or_file env (strip (str_of (get_or state password_key (str [])))) config_path
