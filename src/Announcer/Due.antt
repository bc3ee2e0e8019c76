-- ===== src/Announcer/Due.antt =====
-- A daily slot of bundled-addons/defaults/announcer.py: the wait for it and the test that it is
-- due.
use native.Mathlib.Nat.{zero-add}
use jedi_academy_pterodactyl.Prelude.{◌<◌, ◌≡◌, ◌↔◌, Bool, true, arith, ℕ, ap, Option, some, List}
use jedi_academy_pterodactyl.Announcer.Clock.{
  micros_until_slot, Now, TimeOfDay, slot_due_now, day_micros,
}
use jedi_academy_pterodactyl.Text.{Text}
use jedi_academy_pterodactyl.Announcer.Loops.{Scheduler, sleep_for, fired_on, entry_at, wakeup}
use jedi_academy_pterodactyl.Announcer.Periodic.{sleep_for-le-wakeup}
use jedi_academy_pterodactyl.Announcer.Schedule.{Entry, time_of_day}

-- Where the clock reading lies within its day, the wait for a daily slot is zero exactly when the
-- slot is due.
pub micros_until_slot_zero :
    (now : Now) (target : TimeOfDay) (fired_today : Bool)
    → now.micros < day_micros
    → (micros_until_slot now target fired_today ≡ 0)
      ↔ ((slot_due_now now target fired_today).0 ≡ true)
unfolding micros_until_slot slot_due_now
micros_until_slot_zero now target fired_today h = ground arith

due-no_wait :
    (now : Now) (target : TimeOfDay) (fired_today : Bool)
    → (slot_due_now now target fired_today).0 ≡ true
    → micros_until_slot now target fired_today ≡ 0
unfolding micros_until_slot slot_due_now
due-no_wait now target fired_today h = ground arith

-- While a daily slot is due and does not count as fired, the loop does not sleep before its next
-- pass, whatever else the schedule holds.
pub sleep_for-due :
    (today : ℕ) (clock : ℕ → Now) (now_monotonic : ℕ) (s : Scheduler) (n : ℕ) (es : List Entry)
    {t : TimeOfDay} {message : Option Text}
    → entry_at n es ≡ some (record { slot = time_of_day t; message = message })
    → (slot_due_now (clock n) t (fired_on n today s.last_fired)).0 ≡ true
    → sleep_for today clock now_monotonic s 0 es ≡ 0
unfolding wakeup
sleep_for-due today clock now_monotonic s n es {t} h due = omega (
  arith,
  sleep_for-le-wakeup today clock now_monotonic s 0 n es h,
  due-no_wait (clock n) t (fired_on n today s.last_fired) due,
  ap (λ k. micros_until_slot (clock k) t (fired_on k today s.last_fired)) (zero-add n),
)
