-- ===== src/Runtime/Tracked.antt =====
-- The first half of `load_runtime_env`, which the addons declare with different keys and different
-- readings of a value: the environment variables, then the env file of the supervisor
-- (bundled-addons/defaults/match-announcer.py and live-team-announcer.py, and the addons of
-- bundled-addons/examples/deprecated).
use jedi_academy_pterodactyl.Prelude.{
  ◌==◌, if◌then◌else◌, is_empty, ℕ, Bool, ◌&&◌, ◌||◌, Option, none, some, List, [], ◌∷◌, ◌++◌,
}
use jedi_academy_pterodactyl.Text.{Text, codes, is_one_of, strip, split_once, splitlines}
use jedi_academy_pterodactyl.Config.{Environment}
use jedi_academy_pterodactyl.Outcome.{value_error, os_error, ◌>>=◌, Outcome, returns, raises}
use jedi_academy_pterodactyl.Python.Json.{Python, str}
use jedi_academy_pterodactyl.Python.Dict.{get_or, put, Dict}
use jedi_academy_pterodactyl.Python.Convert.{str_of}
use jedi_academy_pterodactyl.Runtime.State.{setdefault}

-- `if value: state[key] = value.strip()`
set_stripped : Option Text → Text → Dict → Dict
unfolding put
set_stripped none key state = state
set_stripped (some []) key state = state
set_stripped (some value) key state = put state key (str (strip value))

tracked_variables : Environment → List Text → Dict → Dict
unfolding set_stripped
tracked_variables env [] state = state
tracked_variables env (key ∷ keys) state =
    tracked_variables env keys (set_stripped (env.getenv key) key state)

-- `keys` are the tracked keys, and `value_of` reads the text behind the `=`.
module _ (keys : List Text) (value_of : Text → Outcome (Option Text)) where
  set_value : Text → Option Text → Dict → Dict
  unfolding setdefault
  set_value key none state = state
  set_value key (some value) state = setdefault state key (str value)

  read_pair : Option (Text × Text) → Dict → Outcome Dict
  unfolding set_value is_one_of
  read_pair none state = returns state
  read_pair (some (key, raw_value)) state =
      if is_one_of (strip key) keys
      then (value_of raw_value >>= λ value. returns (set_value (strip key) value state))
      else returns state

  read_pairs : List Text → Dict → Outcome Dict
  unfolding read_pair
  read_pairs [] state = returns state
  read_pairs (l ∷ ls) state =
      read_pair (split_once b'=' (strip l)) state >>= λ state'. read_pairs ls state'

  read_env_file : Outcome Text → Dict → Outcome Dict
  unfolding read_pairs
  read_env_file (returns content) state = read_pairs (splitlines content) state
  read_env_file (raises os_error) state = returns state
  read_env_file (raises e) state = raises e

  -- `path` is the path of the env file.
  unfoldable pub load_tracked : Environment → Text → Outcome Dict
  unfolding tracked_variables read_env_file
  load_tracked env path =
      let state = tracked_variables env keys [] in
      if env.is_file path then read_env_file (env.read_text path) state else returns state

-- The first token of a split, where no token leaves the state as it is.
abbrev pub first_of : List Text → Option Text
first_of [] = none
first_of (t ∷ ts) = some t

-- `shlex.split`, where unbalanced quotes are a `ValueError` that is not caught
unfoldable pub shlex_value : ⦃py : Python⦄ → Text → Outcome (Option Text)
shlex_value ⦃py⦄ raw_value = elim (py.shlex_split raw_value) [
  | none ↦ raises value_error
  | some ts ↦ returns (first_of ts)
]

abbrev is_quote : ℕ → Bool
is_quote c = c == b'"' || c == b'\''

drop_quotes : Text → Text
drop_quotes [] = []
drop_quotes (c ∷ cs) = let rest = drop_quotes cs in if is_quote c then rest else c ∷ cs

drop_last_quotes : Text → Text
drop_last_quotes [] = []
drop_last_quotes (c ∷ cs) =
    let rest = drop_last_quotes cs in if is_empty rest && is_quote c then [] else c ∷ rest

-- `raw_value.strip().strip("\"'")`
unfoldable pub strip_quotes : Text → Text
unfolding drop_quotes drop_last_quotes
strip_quotes s = drop_last_quotes (drop_quotes (strip s))

abbrev pub env_file : Text → Text
env_file home = home ++ codes "/.runtime/taystjk-effective.env"

-- `runtime.get(key, "").strip()`
unfoldable pub text_of : ⦃py : Python⦄ → Dict → Text → Text
unfolding str_of get_or
text_of runtime key = strip (str_of (get_or runtime key (str [])))
