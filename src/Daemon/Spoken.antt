-- ===== src/Daemon/Spoken.antt =====
-- Which lines bundled-addons/examples/deprecated/40-chatlogger.py records.
use mathlib.Core.Path.{subst}
use jedi_academy_pterodactyl.Prelude.{
  if◌then◌else◌, is_empty, ◌≡◌, refl, Bool, true, false, not, ◌&&◌, ◌||◌, Option, none, some, List,
  [], ◌∷◌,
}
use jedi_academy_pterodactyl.Text.{Text, codes, is_one_of, strip, contains}
use jedi_academy_pterodactyl.Regex.{At, Re, match_start, sub_re}
use jedi_academy_pterodactyl.Python.Json.{Python}
use jedi_academy_pterodactyl.Chat.Patterns.{
  Channel, named, raw_verb_patterns, ansi, public_channel, normalize_text,
}
use jedi_academy_pterodactyl.Daemon.Lines.{
  LocalTime, generic_chat_re, entry_with, daemon_entry, DaemonEntry, generic_verb_blocklist,
  generic_entry, target_in, entry_of, admit_spoken, parse_chat_line, admit_generic, split_stamp,
  is_player_name,
}

module _ ⦃py : Python⦄ where
  -- The entry names a player and a message.
  unfoldable pub is_spoken : DaemonEntry → Bool
  is_spoken e = not (is_empty e.sender) && not (is_empty e.message) && is_player_name e.sender

  -- An entry, where there is one, names a player and a message.
  abbrev AllSpoken : Option DaemonEntry → Type 0
  AllSpoken none = Unit
  AllSpoken (some e) = is_spoken e ≡ true

  AllSpoken-if :
      (b : Bool) (o p : Option DaemonEntry)
      → AllSpoken o
      → AllSpoken p
      → AllSpoken (if b then o else p)
  AllSpoken-if true o p h k = h
  AllSpoken-if false o p h k = k

  admit_spoken-AllSpoken :
      (now : LocalTime) (stamp : Text) (channel : Channel) (target : Option Text)
      (sender message : Text)
      → AllSpoken (admit_spoken now stamp channel target sender message)
  unfolding admit_spoken is_spoken daemon_entry
  admit_spoken-AllSpoken now stamp channel target [] message = tt
  admit_spoken-AllSpoken now stamp channel target (c ∷ cs) [] = tt
  admit_spoken-AllSpoken now stamp channel target (c ∷ cs) (d ∷ ds) =
      branch (is_player_name (c ∷ cs)) refl
    where
      branch :
          (b : Bool)
          → is_player_name (c ∷ cs) ≡ b
          → AllSpoken
              (if b then some (daemon_entry now stamp channel target (c ∷ cs) (d ∷ ds)) else none)
      branch true e = e
      branch false e = tt

  generic_entry-AllSpoken :
      (now : LocalTime) (stamp body : Text) → AllSpoken (generic_entry now stamp body)
  unfolding generic_entry admit_generic
  generic_entry-AllSpoken now stamp body = from (match_start generic_chat_re body)
    where
      from :
          (o : Option At)
          → AllSpoken (elim o [
            | none ↦ none
            | some t ↦
                admit_generic now stamp
                  (py.lower (named 3 t))
                  (normalize_text (named 1 t))
                  (normalize_text (named 2 t))
          ])
      from none = tt
      from (some t) =
          AllSpoken-if (is_one_of (py.lower (named 3 t)) generic_verb_blocklist) none _ tt (
            AllSpoken-if
              (contains (normalize_text (named 1 t)) (codes "@@@")
                || contains (normalize_text (named 2 t)) (codes "@@@"))
              none _ tt
              (admit_spoken-AllSpoken now stamp public_channel none (normalize_text (named 1 t))
                (normalize_text (named 2 t))))

  entry_with-AllSpoken :
      (now : LocalTime) (stamp body : Text) (verbs : List (Channel × Re))
      → AllSpoken (entry_with now stamp body verbs)
  unfolding entry_with
  entry_with-AllSpoken now stamp body [] = generic_entry-AllSpoken now stamp body
  entry_with-AllSpoken now stamp body ((channel, verb) ∷ rest) =
      from (match_start verb body) (entry_with-AllSpoken now stamp body rest)
    where
      from :
          (o : Option At)
          → AllSpoken (entry_with now stamp body rest)
          → AllSpoken (elim o [
            | none ↦ entry_with now stamp body rest
            | some t ↦
                admit_spoken now stamp channel
                  (target_in channel t)
                  (normalize_text (named 1 t))
                  (normalize_text (named 2 t))
          ])
      from none h = h
      from (some t) h =
          admit_spoken-AllSpoken now stamp channel (target_in channel t)
            (normalize_text (named 1 t)) (normalize_text (named 2 t))

  parse_chat_line-AllSpoken : (now : LocalTime) (raw : Text) → AllSpoken (parse_chat_line now raw)
  unfolding parse_chat_line entry_of
  parse_chat_line-AllSpoken now raw = AllSpoken-if (is_empty (strip raw)) none _ tt (
      AllSpoken-if (is_empty (split_stamp now (sub_re ansi [] raw)).1) none _ tt
        (entry_with-AllSpoken now _ _ raw_verb_patterns))

  -- A line that the retired chat logger records, by a known verb or by its shape, has a sender and a
  -- message that are not empty, and its sender is none of the blocked names and no slot of a score
  -- table.
  pub parse_chat_line-is_spoken :
      (now : LocalTime) (raw : Text) {e : DaemonEntry}
      → parse_chat_line now raw ≡ some e
      → is_spoken e ≡ true
  parse_chat_line-is_spoken now raw h = subst AllSpoken h (parse_chat_line-AllSpoken now raw)
