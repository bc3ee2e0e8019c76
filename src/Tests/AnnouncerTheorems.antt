-- ===== src/Tests/AnnouncerTheorems.antt =====
-- The theorems on the announcer at concrete inputs.
use jedi_academy_pterodactyl.Tests.Ascii.{ascii}
use jedi_academy_pterodactyl.Prelude.{
  length, All, pos, ℕ, ◌*◌, ◌+◌, ◌≤◌, ◌≡◌, refl, ◌↔◌, true, false, none, some, List, [], ◌∷◌, arith,
}
use jedi_academy_pterodactyl.Text.{codes}
use jedi_academy_pterodactyl.Outcome.{returns, raises, Outcome}
use jedi_academy_pterodactyl.Announcer.Loops.{
  reloading_rounds, Surroundings, rounds, sleep_for, Scheduler, Pass, fire_periodic, fire_pass,
  fire_daily, reconcile, choose, send_message, set_index, announce_entry, at_index, mark_fired,
  add_missing, fire_slot, drop_stale, new_scheduler,
}
use jedi_academy_pterodactyl.Announcer.Clock.{TimeOfDay, slot_due_now, micros_until_slot, Now}
use jedi_academy_pterodactyl.Announcer.Daily.{oks, daily_once}
use jedi_academy_pterodactyl.Announcer.Paid.{times}
use jedi_academy_pterodactyl.Announcer.Often.{rounds-times}
use jedi_academy_pterodactyl.Announcer.Due.{micros_until_slot_zero, sleep_for-due}
use jedi_academy_pterodactyl.Announcer.Schedule.{
  time_of_day, Entry, normalise_schedule, every_seconds,
}
use jedi_academy_pterodactyl.Announcer.Schedule.Floor.{normalise_schedule-IsSlow, IsSlow}
use jedi_academy_pterodactyl.Python.Json.{end, int, list, dict, field, Json, nil, cons}
use jedi_academy_pterodactyl.Scalars.{safe_int}
use jedi_academy_pterodactyl.Announcer.Config.{AnnouncerConfig}
use jedi_academy_pterodactyl.Announcer.Worker.{Surrounding}

abbrev ten : TimeOfDay
ten = record { hour = 10; minute = 0; second = 0 }

abbrev two_entries : List Entry
two_entries =
    record { slot = every_seconds 60; message = some (codes "welcome") }
    ∷ record { slot = time_of_day ten; message = some (codes "restart") }
    ∷ []

abbrev idle : Scheduler
idle = record { cursor = 0; deadlines = []; last_fired = [] }

abbrev after_ten : Now
after_ten = record { date = 7; micros = 36001 * 1000000 }

abbrev round_at : ℕ → Surroundings
round_at now = record {
  reconciled = now;
  today = 7;
  now_monotonic = now;
  clock = λ _. after_ten;
  messages = [];
  dispatch = λ _ _. returns true;
}

abbrev two_rounds : List Surroundings
two_rounds = round_at 0 ∷ round_at (90 * 1000000) ∷ []

-- Between the rounds the text of the daily entry is changed.
abbrev other_entries : List Entry
other_entries =
    record { slot = every_seconds 60; message = some (codes "welcome") }
    ∷ record { slot = time_of_day ten; message = some (codes "reboot") }
    ∷ []

abbrev two_loads : List (Surroundings × List Entry)
two_loads = (round_at 0, two_entries) ∷ (round_at (90 * 1000000), other_entries) ∷ []

abbrev pass_of : Outcome Pass → Pass
pass_of (returns p) = p
pass_of (raises e) = record { scheduler = idle; log = [] }

abbrev passed : Pass
passed = pass_of (reloading_rounds two_loads (record { scheduler = idle; log = [] }))

ran : reloading_rounds two_loads (record { scheduler = idle; log = [] }) ≡ returns passed
unfolding reloading_rounds fire_pass fire_slot fire_periodic at_index reconcile drop_stale
    add_missing set_index fire_daily slot_due_now announce_entry send_message choose mark_fired
ran = refl

sent_twice : length passed.log ≡ 2
unfolding reloading_rounds fire_pass fire_slot fire_periodic at_index reconcile drop_stale
    add_missing set_index fire_daily slot_due_now announce_entry send_message choose mark_fired
sent_twice = refl

daily_once_example : oks 1 passed.log ≤ 1
daily_once_example =
    daily_once 1 7 two_loads idle ((refl, refl, refl), ((refl, refl, refl), tt)) ran

micros_until_slot_zero_example :
    (micros_until_slot after_ten ten false ≡ 0) ↔ ((slot_due_now after_ten ten false).0 ≡ true)
micros_until_slot_zero_example = micros_until_slot_zero after_ten ten false (omega arith)

abbrev two_intervals : Json
two_intervals = list (
    cons (dict (field (codes "every_seconds") (int (pos 45)) end))
      (cons (dict (field (codes "every_seconds") (int (pos 5)) end)) nil))

kept :
    normalise_schedule two_intervals
    ≡ returns (record { slot = every_seconds 45; message = none } ∷ [])
unfolding normalise_schedule safe_int
kept = refl

normalise_schedule-IsSlow_example :
    All IsSlow (record { slot = every_seconds 45; message = none } ∷ [])
normalise_schedule-IsSlow_example = normalise_schedule-IsSlow two_intervals kept

abbrev scheduled : AnnouncerConfig
scheduled = record {
  enabled = true;
  startup_delay_seconds = pos 60;
  interval_seconds = pos 900;
  rcon_timeout_seconds = pos 3;
  announce_command = codes "svsay";
  log_path = codes "/tmp/log";
  rcon_host = codes "127.0.0.1";
  schedule = two_entries;
  timezone = none;
  messages = [];
}

abbrev all_well : Surrounding
all_well = record {
  lock_free = true;
  config = returns scheduled;
  interrupted = false;
  prepared = returns true;
  log_opens = true;
  spawns = true;
}

sleep_for-due_example : sleep_for 7 (λ _. after_ten) 0 idle 0 two_entries ≡ 0
unfolding at_index slot_due_now
sleep_for-due_example = sleep_for-due 7 (λ _. after_ten) 0 idle 1 two_entries refl refl

abbrev from_start : Pass
from_start =
    pass_of
      (rounds two_rounds two_entries (record { scheduler = new_scheduler 0 two_entries; log = [] }))

ran_from_start :
    rounds two_rounds two_entries (record { scheduler = new_scheduler 0 two_entries; log = [] })
    ≡ returns from_start
unfolding rounds fire_pass fire_slot fire_periodic at_index reconcile drop_stale add_missing
    set_index fire_daily slot_due_now announce_entry send_message choose mark_fired new_scheduler
ran_from_start = refl

announced_once : times 0 from_start.log ≡ 1
unfolding times rounds fire_pass fire_slot fire_periodic at_index reconcile drop_stale add_missing
    set_index fire_daily slot_due_now announce_entry send_message choose mark_fired new_scheduler
announced_once = refl

rounds-times_example : 0 + times 0 from_start.log * (60 * 1000000) ≤ 90 * 1000000
rounds-times_example =
    rounds-times 0 60 0 (90 * 1000000) two_rounds two_entries refl refl (omega arith)
      (omega arith, (omega arith, tt)) ran_from_start
