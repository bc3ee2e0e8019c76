-- ===== src/Announcer/Schedule.antt =====
-- `normalise_schedule` of bundled-addons/defaults/announcer.py.

pub mod Floor
use mathlib.Core.Option
use jedi_academy_pterodactyl.Prelude.{
  ltb, if◌then◌else◌, ℤ, pos, negsuc, ℕ, Option, none, some, List, [], ◌∷◌,
}
use jedi_academy_pterodactyl.Text.{Text, codes, strip}
use jedi_academy_pterodactyl.Scalars.{safe_int}
use jedi_academy_pterodactyl.Outcome.{returns, Outcome, ◌>>=◌}
use jedi_academy_pterodactyl.Announcer.Clock.{parse_time_of_day, TimeOfDay}
use jedi_academy_pterodactyl.Python.Json.{list, cons, nil, null, dict, Json, Python, Items}
use jedi_academy_pterodactyl.Python.Dict.{field_of}
use jedi_academy_pterodactyl.Python.Convert.{str_of}

pub data Slot : Type 0 where
  -- fires daily at a time of the day
  time_of_day : TimeOfDay → Slot
  -- fires periodically
  every_seconds : ℕ → Slot

pub record Entry : Type 0 where
  pub slot : Slot
  pub message : Option Text

abbrev pub min_interval_seconds : ℕ
min_interval_seconds = 30

-- A key that is missing, or whose value is null, is `None`.
abbrev not_null : Option Json → Option Json
not_null (some null) = none
not_null v = v

-- `entry.get("every_seconds", entry.get("interval_seconds"))`
abbrev first_present : Option Json → Option Json → Option Json
first_present (some v) w = some v
first_present none w = w

module _ ⦃py : Python⦄ where
  -- The slot of a time; `none` drops the entry.
  time_slot : Json → Option Slot
  unfolding str_of
  time_slot time_raw = Option.map time_of_day (parse_time_of_day (str_of time_raw))

  long_enough : ℤ → Option Slot
  long_enough (pos seconds) =
      if ltb seconds min_interval_seconds then none else some (every_seconds seconds)
  long_enough (negsuc n) = none

  every_slot : Json → Outcome (Option Slot)
  unfolding long_enough
  every_slot every_raw = safe_int every_raw (negsuc 0) (pos 1) >>= λ n. returns (long_enough n)

  -- `time` wins over `every_seconds`; an entry with neither is dropped.
  slot_of : Option Json → Option Json → Outcome (Option Slot)
  unfolding time_slot every_slot
  slot_of (some time_raw) every_raw = returns (time_slot time_raw)
  slot_of none (some every_raw) = every_slot every_raw
  slot_of none none = returns none

  non_blank : Text → Option Text
  non_blank [] = none
  non_blank s = some s

  message_of : Option Json → Option Text
  unfolding non_blank str_of
  message_of none = none
  message_of (some message_raw) = non_blank (strip (str_of message_raw))

  with_message : Option Text → Option Slot → Option Entry
  with_message message none = none
  with_message message (some slot) = some (record { slot = slot; message = message })

  normalise_entry : Json → Outcome (Option Entry)
  unfolding slot_of message_of with_message field_of
  normalise_entry (dict entry) =
      slot_of (not_null (field_of entry (codes "time"))) (
        not_null (
          first_present (field_of entry (codes "every_seconds"))
            (field_of entry (codes "interval_seconds"))))
      >>= λ slot.
          returns (with_message (message_of (not_null (field_of entry (codes "message")))) slot)
  normalise_entry entry = returns none

  abbrev append_entry : Option Entry → List Entry → List Entry
  append_entry none entries = entries
  append_entry (some e) entries = e ∷ entries

  normalise_entries : Items → Outcome (List Entry)
  unfolding normalise_entry
  normalise_entries nil = returns []
  normalise_entries (cons v vs) = normalise_entry v >>= λ e.
      normalise_entries vs >>= λ entries. returns (append_entry e entries)

  unfoldable pub normalise_schedule : Json → Outcome (List Entry)
  unfolding normalise_entries
  normalise_schedule (list raw) = normalise_entries raw
  normalise_schedule raw = returns []
