-- ===== src/Announcer/Clock.antt =====
-- Times of the day and wall-clock readings of bundled-addons/defaults/announcer.py.

use jedi_academy_pterodactyl.Prelude.{
  ltb, leb, if◌then◌else◌, ℕ, ◌+◌, ◌-◌, ◌*◌, Bool, true, not, ◌&&◌, Option, none, some,
}
use jedi_academy_pterodactyl.Text.{Text, codes, strip}
use jedi_academy_pterodactyl.Regex.{
  exactly, At, capture, finish, match_start, group_of, start, digit, repeat, Re, ◌⨾◌, maybe,
  group_in,
}
use jedi_academy_pterodactyl.Python.Json.{Python}
use jedi_academy_pterodactyl.Python.Number.{parse_digits}

-- `datetime.time`
pub record TimeOfDay : Type 0 where
  pub hour : ℕ
  pub minute : ℕ
  pub second : ℕ

-- A wall-clock reading in the schedule's time zone: the date as a day number, and the microseconds
-- since midnight. Datetimes with one `tzinfo` are compared and subtracted by these fields alone.
pub record Now : Type 0 where
  pub date : ℕ
  pub micros : ℕ

abbrev pub day_micros : ℕ
day_micros = 86400 * 1000000

-- `_today_target`, as microseconds since midnight
unfoldable pub today_target : TimeOfDay → ℕ
today_target t = ((t.hour * 60 + t.minute) * 60 + t.second) * 1000000

-- `_seconds_until_slot`, in microseconds
unfoldable pub micros_until_slot : Now → TimeOfDay → Bool → ℕ
unfolding today_target
micros_until_slot now target fired_today =
    if not fired_today && leb (today_target target) now.micros
    then 0
    else if ltb now.micros (today_target target)
    then today_target target - now.micros
    else today_target target + day_micros - now.micros

-- `_slot_due_now`
unfoldable pub slot_due_now : Now → TimeOfDay → Bool → Bool × ℕ
unfolding today_target
slot_due_now now target fired_today =
    (not fired_today && leb (today_target target) now.micros, now.date)

module _ ⦃py : Python⦄ where
  -- ^(?P<h>\d{1,2}):(?P<m>\d{2})(?::(?P<s>\d{2}))?$
  abbrev pub time_of_day_re : Re
  time_of_day_re =
      start
      ⨾ capture 1 (repeat true 1 (some 2) digit)
      ⨾ exactly (codes ":")
      ⨾ capture 2 (repeat true 2 (some 2) digit)
      ⨾ maybe (exactly (codes ":") ⨾ capture 3 (repeat true 2 (some 2) digit))
      ⨾ finish

  -- `int(match.group(n))`
  int_group_or : ℕ → At → ℕ → Option ℕ
  unfolding group_in
  int_group_or n t default = elim (group_of n t) [ none ↦ some default | some s ↦ parse_digits s ]

  -- `datetime.time(hour, minute, second)`, if the three are in range
  in_range : Option ℕ → Option ℕ → Option ℕ → Option TimeOfDay
  in_range (some h) (some m) (some s) =
      if leb h 23 && leb m 59 && leb s 59
      then some (record { hour = h; minute = m; second = s })
      else none
  in_range _ _ _ = none

  unfoldable pub parse_time_of_day : Text → Option TimeOfDay
  unfolding match_start int_group_or in_range
  parse_time_of_day raw = elim (match_start time_of_day_re (strip raw)) [
    | none ↦ none
    | some t ↦ in_range (int_group_or 1 t 0) (int_group_or 2 t 0) (int_group_or 3 t 0)
  ]
