-- ===== src/Match/Config.antt =====
-- The configuration of bundled-addons/defaults/match-announcer.py.

use jedi_academy_pterodactyl.Prelude.{
  if◌then◌else◌, is_empty, eq_ℤ, ℤ, pos, Bool, true, false, not, ◌||◌, Option, none, some, List, [],
  ◌∷◌, ◌++◌,
}
use jedi_academy_pterodactyl.Text.{Text, codes, is_one_of, strip, split}
use jedi_academy_pterodactyl.Outcome.{type_error, value_error, Outcome, returns, raises, ◌>>=◌}
use jedi_academy_pterodactyl.Python.Json.{
  Json, null, bool, int, str, list, dict, Items, nil, cons, Fields, end, field, Python,
}
use jedi_academy_pterodactyl.Python.Dict.{Dict, get, get_or, put, as_fields}
use jedi_academy_pterodactyl.Python.Convert.{str_of, str_or_empty, int_of}
use jedi_academy_pterodactyl.Scalars.{safe_int, safe_bool}
use jedi_academy_pterodactyl.Config.{Environment, loaded_section, overlay, getenv_or}

abbrev pub default_messages : Dict
default_messages =
    (codes "tffa_start", str (codes "^3Match Started ^7- ^2Good Luck, Have Fun!"))
    ∷ (codes "tffa_end_red", str (codes "^3Match Ended ^7- ^1RED TEAM wins."))
    ∷ (codes "tffa_end_blue", str (codes "^3Match Ended ^7- ^4BLUE TEAM wins."))
    ∷ (codes "tffa_end_draw", str (codes "^3Match Ended ^7- ^7Draw."))
    ∷ []

-- `HOME_DIR`
abbrev pub home_dir : Environment → Text
home_dir env = getenv_or env (codes "JKA_MATCH_ANNOUNCER_HOME") (codes "/home/container")

abbrev pub default_config : Text → Dict
default_config home =
    (codes "enabled", bool false)
    ∷ (codes "rcon_host", str (codes "127.0.0.1"))
    ∷ (codes "rcon_timeout_seconds", int (pos 3))
    ∷ (codes "announce_command", str (codes "svsay"))
    ∷ (codes "match_start_command", str (codes "svsay"))
    ∷ (codes "match_end_command", str (codes "svsay"))
    ∷ (codes "log_file", str (home ++ codes "/logs/bundled-match-announcer.log"))
    ∷ (codes "gametype", int (pos 6))
    ∷ (codes "require_map_restart_vote", bool true)
    ∷ (codes "messages", dict (as_fields default_messages))
    ∷ []

abbrev pub allowed_announce_commands : List Text
allowed_announce_commands = codes "svsay" ∷ codes "say" ∷ []

items_of : Items → List Json
items_of nil = []
items_of (cons v vs) = v ∷ items_of vs

text_items : List Text → List Json
text_items [] = []
text_items (t ∷ ts) = str (strip t) ∷ text_items ts

-- The values that `gametypes` or `gametype` lists.
candidates : Json → List Json
unfolding items_of text_items split
candidates (list vs) = items_of vs
candidates (str s) = text_items (split b',' s)
candidates v = v ∷ []

abbrev pub mem_ℤ : ℤ → List ℤ → Bool
mem_ℤ n [] = false
mem_ℤ n (m ∷ ms) = eq_ℤ n m || mem_ℤ n ms

configured : Option Json → Option Json → Json
configured (some v) gametype = v
configured none (some v) = v
configured none none = int (pos 6)

-- `normalize_messages`: the operator's texts over the defaults
overriding : Dict → Fields → Dict
overriding messages end = messages
overriding messages (field k (str s) fs) = overriding (put messages k (str s)) fs
overriding messages (field k v fs) = overriding messages fs

unfoldable pub normalize_messages : Option Json → Dict
unfolding overriding put
normalize_messages (some (dict fs)) = overriding default_messages fs
normalize_messages v = default_messages

module _ ⦃py : Python⦄ where
  -- What one candidate adds to the gametypes found so far.
  unfoldable pub add_gametype : Outcome ℤ → List ℤ → Outcome (List ℤ)
  add_gametype (returns value) parsed = returns (
      if not (eq_ℤ value (pos 6))
      then parsed
      else if mem_ℤ value parsed
      then parsed
      else parsed ++ (value ∷ []))
  add_gametype (raises type_error) parsed = returns parsed
  add_gametype (raises value_error) parsed = returns parsed
  add_gametype (raises e) parsed = raises e

  unfoldable pub gametypes_from : List ℤ → List Json → Outcome (List ℤ)
  gametypes_from parsed [] = returns parsed
  gametypes_from parsed (item ∷ items) =
      add_gametype (int_of item) parsed >>= λ parsed'. gametypes_from parsed' items

  unfoldable pub parse_configured_gametypes : Dict → Outcome (List ℤ)
  unfolding candidates configured get
  parse_configured_gametypes config =
      gametypes_from []
        (candidates (configured (get config (codes "gametypes")) (get config (codes "gametype"))))

  unfoldable pub safe_command : Json → Text → Text
  unfolding str_or_empty is_one_of
  safe_command value fallback =
      let candidate = py.lower (strip (str_or_empty value)) in
      if is_one_of candidate allowed_announce_commands then candidate else fallback

  -- A command of its own for one group, or the announce command.
  unfoldable pub group_command : Option Json → Text → Text
  unfolding safe_command str_of
  group_command none announce = announce
  group_command (some null) announce = announce
  group_command (some raw) announce =
      if is_empty (strip (str_of raw)) then announce else safe_command raw announce

  abbrev or_localhost : Text → Text
  or_localhost [] = codes "127.0.0.1"
  or_localhost host = host

  unfoldable pub rcon_host_of : Json → Text
  unfolding str_of
  rcon_host_of v = or_localhost (strip (str_of v))

  unfoldable pub ints : List ℤ → Items
  ints [] = nil
  ints (n ∷ ns) = cons (int n) (ints ns)

  abbrev pub first_or_six : List ℤ → ℤ
  first_or_six [] = pos 6
  first_or_six (n ∷ ns) = n

  -- The second half of `load_config`: every field that the addon reads is put in order.
  unfoldable pub normalise : Dict → Outcome Dict
  normalise c =
      let c1 =
        put c (codes "enabled")
          (bool (safe_bool (get_or c (codes "enabled") (bool false)) false)) in
      safe_int (get_or c1 (codes "rcon_timeout_seconds") null) (pos 3) (pos 1) >>= λ timeout.
      let c2 = put c1 (codes "rcon_timeout_seconds") (int timeout) in
      parse_configured_gametypes c2 >>= λ gametypes.
      let c3 = put c2 (codes "gametypes") (list (ints gametypes)) in
      let c4 = put c3 (codes "gametype") (int (first_or_six gametypes)) in
      let c5 =
        put c4 (codes "require_map_restart_vote")
          (bool (safe_bool (get_or c4 (codes "require_map_restart_vote") (bool true)) true)) in
      let c6 =
        put c5 (codes "messages")
          (dict (as_fields (normalize_messages (get c5 (codes "messages"))))) in
      let announce =
        safe_command (get_or c6 (codes "announce_command") (str (codes "svsay"))) (codes "svsay") in
      let c7 = put c6 (codes "announce_command") (str announce) in
      let c8 =
        put c7 (codes "match_start_command")
          (str (group_command (get c7 (codes "match_start_command")) announce)) in
      let c9 =
        put c8 (codes "match_end_command")
          (str (group_command (get c8 (codes "match_end_command")) announce)) in
      returns (
        put c9 (codes "rcon_host")
          (str (rcon_host_of (get_or c9 (codes "rcon_host") (str (codes "127.0.0.1"))))))

  unfoldable pub load_config : Environment → Outcome Dict
  load_config env = loaded_section env (home_dir env) (codes "match_announcer") >>= λ loaded.
      normalise (overlay (default_config (home_dir env)) loaded)
