-- ===== src/Announcer/Schedule/Floor.antt =====
-- The intervals of the entries that `normalise_schedule` of bundled-addons/defaults/announcer.py

use mathlib.Core.Option
use jedi_academy_pterodactyl.Prelude.{
  All, ℤ, pos, negsuc, ◌≤◌, ◌≡◌, Option, none, some, List, [], arith,
}
use jedi_academy_pterodactyl.Text.{Text, codes}
use jedi_academy_pterodactyl.Scalars.{safe_int}
use jedi_academy_pterodactyl.Outcome.{returns, Holds, of_Holds, Holds-bind, anything}
use jedi_academy_pterodactyl.Announcer.Clock.{parse_time_of_day}
use jedi_academy_pterodactyl.Announcer.Schedule.{
  not_null, first_present, long_enough, time_slot, slot_of, with_message, normalise_entry,
  append_entry, normalise_entries, every_slot, Slot, normalise_schedule, Entry, every_seconds,
  time_of_day,
}
use jedi_academy_pterodactyl.Python.Json.{Python, Json, cons, list, nil, dict, Items}
use jedi_academy_pterodactyl.Python.Dict.{field_of}
use jedi_academy_pterodactyl.Python.Convert.{str_of}

-- keeps.

abbrev SlowSlot : Slot → Type 0
SlowSlot (time_of_day t) = Unit
SlowSlot (every_seconds n) = 30 ≤ n

abbrev pub IsSlow : Entry → Type 0
IsSlow e = SlowSlot e.slot

abbrev SlowIfAny : Option Slot → Type 0
SlowIfAny none = Unit
SlowIfAny (some s) = SlowSlot s

abbrev EntrySlow : Option Entry → Type 0
EntrySlow none = Unit
EntrySlow (some e) = IsSlow e

module _ ⦃py : Python⦄ where
  long_enough-Slow : (n : ℤ) → SlowIfAny (long_enough n)
  unfolding long_enough
  long_enough-Slow (pos n) = ground arith
  long_enough-Slow (negsuc n) = tt

  time_slot-Slow : (v : Json) → SlowIfAny (time_slot v)
  unfolding time_slot
  time_slot-Slow v =
      elim (parse_time_of_day (str_of v)) as (λ o. SlowIfAny (Option.map time_of_day o)) [
        | none ↦ tt
        | some t ↦ tt
      ]

  slot_of-Slow : (t e : Option Json) → Holds SlowIfAny (slot_of t e)
  unfolding slot_of every_slot
  slot_of-Slow (some t) e = time_slot-Slow t
  slot_of-Slow none (some e) =
      Holds-bind (λ _. Unit) SlowIfAny (safe_int e (negsuc 0) (pos 1)) _ (anything _)
        (λ n _. long_enough-Slow n)
  slot_of-Slow none none = tt

  with_message-Slow :
      (message : Option Text) (o : Option Slot) → SlowIfAny o → EntrySlow (with_message message o)
  unfolding with_message
  with_message-Slow message none h = tt
  with_message-Slow message (some s) h = h

  normalise_entry-Slow : (v : Json) → Holds EntrySlow (normalise_entry v)
  unfolding normalise_entry
  normalise_entry-Slow (dict entry) =
      Holds-bind SlowIfAny EntrySlow (slot_of _ _) _
        (slot_of-Slow (not_null (field_of entry (codes "time"))) (
          not_null (
            first_present (field_of entry (codes "every_seconds"))
              (field_of entry (codes "interval_seconds")))))
        (λ o h. with_message-Slow _ o h)
  normalise_entry-Slow _ = tt

  append_entry-Slow :
      (o : Option Entry) (es : List Entry)
      → EntrySlow o
      → All IsSlow es
      → All IsSlow (append_entry o es)
  append_entry-Slow none es h k = k
  append_entry-Slow (some e) es h k = (h, k)

  normalise_entries-Slow : (vs : Items) → Holds (All IsSlow) (normalise_entries vs)
  unfolding normalise_entries
  normalise_entries-Slow nil = tt
  normalise_entries-Slow (cons v vs) =
      Holds-bind EntrySlow (All IsSlow) (normalise_entry v) _ (normalise_entry-Slow v) (λ o h.
        Holds-bind (All IsSlow) (All IsSlow) (normalise_entries vs) _ (normalise_entries-Slow vs)
          (λ es k. append_entry-Slow o es h k))

  -- Whatever the configured schedule holds, an entry that is kept and fires at an interval has one
  -- of at least 30 seconds.
  pub normalise_schedule-IsSlow :
      (raw : Json) {es : List Entry} → normalise_schedule raw ≡ returns es → All IsSlow es
  unfolding normalise_schedule
  normalise_schedule-IsSlow (list raw) h = of_Holds (All IsSlow) (normalise_entries-Slow raw) h
  normalise_schedule-IsSlow _ h = of_Holds (All IsSlow) {r = returns []} tt h
