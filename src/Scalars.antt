-- ===== src/Scalars.antt =====
-- `safe_int` and `safe_bool`, which every addon declares alike: lenient readers of configuration
-- values (bundled-addons/defaults/announcer.py, and the copies in the other addons).

use jedi_academy_pterodactyl.Prelude.{if◌then◌else◌, max_ℤ, ℤ, Bool, true, false, [], ◌∷◌}
use jedi_academy_pterodactyl.Text.{codes, is_one_of, strip}
use jedi_academy_pterodactyl.Outcome.{type_error, value_error, Outcome, returns, raises}
use jedi_academy_pterodactyl.Python.Json.{Json, bool, str, Python}
use jedi_academy_pterodactyl.Python.Convert.{int_of}

module _ ⦃py : Python⦄ where
  abbrev pub or_default : Outcome ℤ → ℤ → ℤ → Outcome ℤ
  or_default (returns parsed) default minimum = returns (max_ℤ minimum parsed)
  or_default (raises type_error) default minimum = returns default
  or_default (raises value_error) default minimum = returns default
  or_default (raises e) default minimum = raises e

  unfoldable pub safe_int : Json → ℤ → ℤ → Outcome ℤ
  unfolding int_of
  safe_int value default minimum = or_default (int_of value) default minimum

  unfoldable pub safe_bool : Json → Bool → Bool
  safe_bool (bool b) default = b
  safe_bool (str s) default =
      let normalized = py.lower (strip s) in
      if is_one_of normalized (codes "true" ∷ codes "1" ∷ codes "yes" ∷ codes "on" ∷ [])
      then true
      else if is_one_of normalized (codes "false" ∷ codes "0" ∷ codes "no" ∷ codes "off" ∷ [])
      then false
      else default
  safe_bool value default = default
