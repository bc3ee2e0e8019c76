-- ===== src/Announcer/Periodic.antt =====
-- The bounds of the sleep between two rounds of `run_scheduled_loop` of
-- bundled-addons/defaults/announcer.py.

use mathlib.Core.Path.{ap₂}
use mathlib.Core.Option.{get_or}
use jedi_academy_pterodactyl.Prelude.{
  ℕ, zero, suc, ◌+◌, ◌≤◌, ◌≡◌, some, List, [], ◌∷◌, arith, ap, sym,
}
use jedi_academy_pterodactyl.Announcer.Loops.{entry_at, Scheduler, wakeup, sleep_for}
use jedi_academy_pterodactyl.Announcer.Clock.{Now}
use jedi_academy_pterodactyl.Announcer.Schedule.{Entry}

-- The sleep of a round never passes the time at which one of the entries is due.
pub sleep_for-le-wakeup :
    (today : ℕ) (clock : ℕ → Now) (now_monotonic : ℕ) (s : Scheduler) (i n : ℕ) (es : List Entry)
    {due : Entry}
    → entry_at n es ≡ some due
    → sleep_for today clock now_monotonic s i es
      ≤ wakeup today (clock (i + n)) now_monotonic s (i + n) due
unfolding sleep_for
sleep_for-le-wakeup today clock now_monotonic s i n [] h = cc h
sleep_for-le-wakeup today clock now_monotonic s i zero (e ∷ es) {due} h = omega (arith, here)
  where
    here :
        wakeup today (clock (i + 0)) now_monotonic s (i + 0) due
        ≡ wakeup today (clock i) now_monotonic s i e
    here =
        ap₂ (λ k x. wakeup today (clock k) now_monotonic s k x) (omega arith)
          (ap (λ o. get_or o e) (sym h))
sleep_for-le-wakeup today clock now_monotonic s i (suc n) (e ∷ es) {due} h =
    omega (arith, sleep_for-le-wakeup today clock now_monotonic s (suc i) n es h, there)
  where
    there :
        wakeup today (clock (i + suc n)) now_monotonic s (i + suc n) due
        ≡ wakeup today (clock (suc i + n)) now_monotonic s (suc i + n) due
    there = ap (λ k. wakeup today (clock k) now_monotonic s k due) (omega arith)
