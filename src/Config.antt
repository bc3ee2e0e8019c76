-- ===== src/Config.antt =====
-- Where an addon finds its configuration: `_load_section_from_addons_file` and the first half of
-- `load_config`, which the bundled addons share (bundled-addons/defaults/announcer.py and the
-- copies in live-team-announcer.py and match-announcer.py).
use jedi_academy_pterodactyl.Prelude.{if◌then◌else◌, is_empty, Option, none, some, [], ◌++◌, Bool}
use jedi_academy_pterodactyl.Text.{Text, codes, strip}
use jedi_academy_pterodactyl.Outcome.{os_error, Outcome, returns, raises}
use jedi_academy_pterodactyl.Python.Json.{Json, dict, Fields, Python}
use jedi_academy_pterodactyl.Python.Dict.{Dict, update, field_of}

-- The environment variables, and the files: a read returns the text or raises.
pub record Environment : Type 0 where
  pub getenv : Text → Option Text
  pub read_text : Text → Outcome Text
  pub is_file : Text → Bool

abbrev pub addon_config_env : Text
addon_config_env = codes "JKA_ADDON_CONFIG_JSON"

abbrev pub addon_name_env : Text
addon_name_env = codes "JKA_ADDON_NAME"

-- `os.environ.get(name, default)`
unfoldable pub getenv_or : Environment → Text → Text → Text
getenv_or env name default = elim (env.getenv name) [ none ↦ default | some v ↦ v ]

-- `ADDONS_CONFIG_PATH`, under the addon's home directory unless a variable says otherwise
abbrev pub addons_config_path : Environment → Text → Text
addons_config_path env home =
    getenv_or env (codes "JKA_ADDONS_CONFIG_PATH") (home ++ codes "/config/jka-addons.json")

-- The object at a key of an object.
abbrev pub object_at : Option Json → Text → Option Json
object_at (some (dict fs)) k = field_of fs k
object_at v k = none

abbrev pub as_object : Option Json → Option Fields
as_object (some (dict fs)) = some fs
as_object v = none

module _ ⦃py : Python⦄ where
  section_in : Outcome Text → Text → Outcome (Option Fields)
  section_in (raises os_error) name = returns none
  section_in (raises e) name = raises e
  section_in (returns raw) name =
      returns (as_object (object_at (object_at (py.json_loads raw) (codes "addons")) name))

  unfoldable pub load_section_from_addons_file : Environment → Text → Text → Outcome (Option Fields)
  unfolding section_in field_of
  load_section_from_addons_file env home name =
      section_in (env.read_text (addons_config_path env home)) name

  -- The object that `JKA_ADDON_CONFIG_JSON` holds, if it holds one.
  section_from_env : Text → Option Fields
  section_from_env raw = if is_empty (strip raw) then none else as_object (py.json_loads raw)

  -- `loaded` of `load_config`: the variable, or else the central file.
  unfoldable pub loaded_section : Environment → Text → Text → Outcome (Option Fields)
  unfolding section_from_env load_section_from_addons_file getenv_or
  loaded_section env home default_name =
      elim (section_from_env (getenv_or env addon_config_env [])) [
        | some fs ↦ returns (some fs)
        | none ↦ load_section_from_addons_file env home (getenv_or env addon_name_env default_name)
      ]

module _ ⦃py : Python⦄ where
  parsed_file : Outcome Text → Outcome (Option Fields)
  parsed_file (returns raw) = returns (as_object (py.json_loads raw))
  parsed_file (raises os_error) = returns none
  parsed_file (raises e) = raises e

  -- The object that a configuration file of the addon itself holds: the retired addons under
  -- bundled-addons/examples/deprecated read one instead of the central file.
  unfoldable pub load_own_file : Environment → Text → Outcome (Option Fields)
  unfolding parsed_file
  load_own_file env path =
      if env.is_file path then parsed_file (env.read_text path) else returns none

-- `if isinstance(loaded, dict): config.update(loaded)`
unfoldable pub overlay : Dict → Option Fields → Dict
unfolding update
overlay config none = config
overlay config (some loaded) = update config loaded
