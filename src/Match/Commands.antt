-- ===== src/Match/Commands.antt =====
-- The commands and the gametypes that `load_config` of bundled-addons/defaults/match-announcer.py
-- returns.

use jedi_academy_pterodactyl.Match.Config.{
  allowed_announce_commands, gametypes_from, add_gametype, parse_configured_gametypes, safe_command,
  group_command, normalise, load_config,
}
use jedi_academy_pterodactyl.Prelude.{
  ℤ, pos, negsuc, ◌≡◌, refl, ◌⊎◌, inl, true, Option, none, some, List, [], ◌∷◌, arith,
}
use jedi_academy_pterodactyl.Text.{Text, codes, same, is_one_of}
use jedi_academy_pterodactyl.Config.{loaded_section, Environment}
use jedi_academy_pterodactyl.Scalars.{safe_int}
use jedi_academy_pterodactyl.Outcome.{
  recursion_error, attribute_error, Outcome, os_error, overflow_error, key_error, index_error,
  Holds-bind, returns, type_error, of_Holds, value_error, Holds, raises,
}
use jedi_academy_pterodactyl.Python.Json.{Python, str, null, Json}
use jedi_academy_pterodactyl.Python.Dict.{Dict, get-put, get, put}
use jedi_academy_pterodactyl.Python.Convert.{int_of}

abbrev pub IsAllowed : Text → Type 0
IsAllowed s = is_one_of s allowed_announce_commands ≡ true

-- No gametype, or 6 alone.
abbrev pub OnlyTffa : List ℤ → Type 0
OnlyTffa gametypes = (gametypes ≡ []) ⊎ (gametypes ≡ pos 6 ∷ [])

svsay-IsAllowed : IsAllowed (codes "svsay")
unfolding is_one_of
svsay-IsAllowed = refl

module _ ⦃py : Python⦄ where
  add_gametype-OnlyTffa :
      (r : Outcome ℤ) (parsed : List ℤ) → OnlyTffa parsed → Holds OnlyTffa (add_gametype r parsed)
  unfolding add_gametype
  add_gametype-OnlyTffa (returns (pos n)) parsed h = ground arith
  add_gametype-OnlyTffa (returns (negsuc n)) parsed h = h
  add_gametype-OnlyTffa (raises type_error) parsed h = h
  add_gametype-OnlyTffa (raises value_error) parsed h = h
  add_gametype-OnlyTffa (raises overflow_error) parsed h = tt
  add_gametype-OnlyTffa (raises key_error) parsed h = tt
  add_gametype-OnlyTffa (raises index_error) parsed h = tt
  add_gametype-OnlyTffa (raises attribute_error) parsed h = tt
  add_gametype-OnlyTffa (raises os_error) parsed h = tt
  add_gametype-OnlyTffa (raises recursion_error) parsed h = tt

  gametypes_from-OnlyTffa :
      (items : List Json) (parsed : List ℤ)
      → OnlyTffa parsed
      → Holds OnlyTffa (gametypes_from parsed items)
  unfolding gametypes_from
  gametypes_from-OnlyTffa [] parsed h = h
  gametypes_from-OnlyTffa (item ∷ items) parsed h =
      Holds-bind OnlyTffa OnlyTffa (add_gametype (int_of item) parsed) _
        (add_gametype-OnlyTffa (int_of item) parsed h) (gametypes_from-OnlyTffa items)

  -- Whatever the configuration holds, the gametypes read from it are none, or 6 alone.
  pub parse_configured_gametypes-OnlyTffa :
      (config : Dict) {gametypes : List ℤ}
      → parse_configured_gametypes config ≡ returns gametypes
      → OnlyTffa gametypes
  unfolding parse_configured_gametypes
  parse_configured_gametypes-OnlyTffa config e =
      of_Holds OnlyTffa (gametypes_from-OnlyTffa _ [] (inl refl)) e

  safe_command-IsAllowed :
      (value : Json) (fallback : Text)
      → IsAllowed fallback
      → IsAllowed (safe_command value fallback)
  unfolding safe_command
  safe_command-IsAllowed value fallback h = ground arith

  group_command-IsAllowed :
      (raw : Option Json) (announce : Text)
      → IsAllowed announce
      → IsAllowed (group_command raw announce)
  unfolding group_command
  group_command-IsAllowed none announce h = h
  group_command-IsAllowed (some null) announce h = h
  group_command-IsAllowed (some raw) announce h =
      ground (arith, safe_command-IsAllowed raw announce h)

  -- The field holds a text from the allow-list.
  abbrev pub HasAllowed : Text → Dict → Type 0
  HasAllowed key config = (s : Text) × (get config key ≡ some (str s)) × IsAllowed s

  abbrev Commands : Dict → Type 0
  Commands config =
      HasAllowed (codes "announce_command") config
      × HasAllowed (codes "match_start_command") config
      × HasAllowed (codes "match_end_command") config

  put-Commands :
      (c : Dict) (announce start_command end_command : Text) (host : Json)
      → IsAllowed announce
      → IsAllowed start_command
      → IsAllowed end_command
      → Commands (
          put
            (put
              (put
                (put c (codes "announce_command") (str announce))
                (codes "match_start_command")
                (str start_command))
              (codes "match_end_command")
              (str end_command))
            (codes "rcon_host")
            host)
  unfolding same
  put-Commands c announce start_command end_command host a s e = (
    (announce, simp get-put, a),
    (start_command, simp get-put, s),
    (end_command, simp get-put, e),
  )

  normalise-Commands : (c : Dict) → Holds Commands (normalise c)
  unfolding normalise
  normalise-Commands c =
      Holds-bind (λ _. Unit) Commands (safe_int _ _ _) _ (ground arith)
        λ timeout _.
          Holds-bind (λ _. Unit) Commands (parse_configured_gametypes _) _ (ground arith)
            λ gametypes _.
              put-Commands _ _ _ _ _ (safe_command-IsAllowed _ _ svsay-IsAllowed)
                (group_command-IsAllowed _ _ (safe_command-IsAllowed _ _ svsay-IsAllowed))
                (group_command-IsAllowed _ _ (safe_command-IsAllowed _ _ svsay-IsAllowed))

  -- Whatever the environment and the files hold, a configuration that `load_config` returns has
  -- `svsay` or `say` as its announce, start and end command.
  pub load_config-commands :
      (env : Environment) {config : Dict}
      → load_config env ≡ returns config
      → HasAllowed (codes "announce_command") config
        × HasAllowed (codes "match_start_command") config
        × HasAllowed (codes "match_end_command") config
  unfolding load_config
  load_config-commands env e =
      of_Holds Commands
        (Holds-bind (λ _. Unit) Commands (loaded_section _ _ _) _ (ground arith)
          (λ loaded _. normalise-Commands _))
        e
